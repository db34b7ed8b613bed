-- ===== src/UserCache/Accounts/Coherence/Reads.antt =====
-- The reads of internal/usercache/store.go answer as the store behind them.
use Prim.Native.Char.{Char, code}
use rtk_account_manager.Common.{String, ◌≡◌, Option, ok, ◌>>=◌, sym, subst}
use rtk_account_manager.Channel.Text.{is_space}
use rtk_account_manager.Model.User.{User}
use rtk_account_manager.Store.Accounts.{
  Accounts, find_enabled, find_enabled_by_email, get_user, get_user_by_email, get_user_password,
  get_user_password_by_id,
}
use rtk_account_manager.Store.Tables.{or_not_found}
use rtk_account_manager.UserCache.Text.{normalize_email, normalize_email-normalize_email}
use rtk_account_manager.UserCache.Cache.{Cache, Layout, IsCache}
use rtk_account_manager.UserCache.Accounts.{
  Cached, cached_platform_user, cached_platform_user_id, cached_platform_auth, user_or_fill,
  with_id, cached_get_user, cached_get_user_by_email, cached_get_user_password,
  cached_get_user_password_by_id,
}
use rtk_account_manager.UserCache.Accounts.Coherence.{
  Separates, IsId, IsUserTable, IsCoherent, IsRight, seen, seen_auth,
}
use rtk_account_manager.UserCache.Accounts.Coherence.Lookups.{
  user_or_fill-IsRight, auth_or_fill-IsRight, enabled_row, enabled_by_email, user-IsLookup,
  auth-IsLookup, id-IsLookup, with_id-IsLookup, ShowsAuth,
}

module _ (lower : Char → Char) {W V : Type 0} (l : Layout W) (view : User → V)
    (IsPlain : String → Type 0) (separates : Separates l IsPlain) (c : Cache W) (laws : IsCache l c)
    (db : Accounts) (table : IsUserTable IsPlain lower db.users) where
  module _ (again : (ch : Char) → lower (lower ch) ≡ lower ch)
      (spaces : (ch : Char) → is_space (code (lower ch)) ≡ is_space (code ch)) (s : Cached W)
      (coherent : IsCoherent l view db.users s.cache) where
    pub read_user-IsRight :
        (id : String)
        → IsId IsPlain id
        → IsRight l view db.users (seen l view) (get_user db id) (cached_get_user lower c db id s)
    unfolding cached_get_user get_user
    read_user-IsRight id is_id =
        (user_or_fill-IsRight lower l view IsPlain separates c laws db table)
          (find_enabled id db.users) (cached_platform_user lower c id s)
          ((enabled_row lower l view IsPlain separates c laws db table) id)
          ((user-IsLookup lower l view IsPlain separates c laws db table) id s is_id coherent)

    pub read_password-IsRight :
        (id : String)
        → IsId IsPlain id
        → IsRight l view db.users
            (seen_auth l view)
            (get_user_password_by_id db id)
            (cached_get_user_password_by_id lower c db id s)
    unfolding cached_get_user_password_by_id get_user_password_by_id
    read_password-IsRight id is_id =
        (auth_or_fill-IsRight lower l view IsPlain separates c laws db table)
          (find_enabled id db.users) (cached_platform_auth lower c id s)
          ((enabled_row lower l view IsPlain separates c laws db table) id)
          ((auth-IsLookup lower l view IsPlain separates c laws db table) id s is_id coherent)

    module _ (email : String) (plain_email : IsPlain (normalize_email lower email)) where
      normal : normalize_email lower (normalize_email lower email) ≡ normalize_email lower email
      normal = normalize_email-normalize_email lower again spaces email

      id_of_email : Option String × Cached W
      id_of_email = cached_platform_user_id lower c (normalize_email lower email) s

      pub read_password_by_email-IsRight :
          IsRight l view db.users
            (seen_auth l view)
            (get_user_password db (normalize_email lower email))
            (cached_get_user_password lower c db email s)
      unfolding cached_get_user_password get_user_password id_of_email
      read_password_by_email-IsRight =
          (auth_or_fill-IsRight lower l view IsPlain separates c laws db table)
            (find_enabled_by_email (normalize_email lower email) db.users)
            (with_id lower c (cached_platform_auth lower c) id_of_email)
            ((enabled_by_email lower l view IsPlain separates c laws db table)
              (normalize_email lower email))
            ((with_id-IsLookup lower l view IsPlain separates c laws db table)
              (ShowsAuth lower l view IsPlain separates c laws db table)
              (cached_platform_auth lower c) (normalize_email lower email) s
              (auth-IsLookup lower l view IsPlain separates c laws db table) id_of_email
              ((id-IsLookup lower l view IsPlain separates c laws db table)
                (normalize_email lower email) s (plain_email, normal) coherent))

      pub read_user_by_email-IsRight :
          IsRight l view db.users
            (seen l view)
            (get_user_by_email (normalize_email lower) db email)
            (cached_get_user_by_email lower c db email s)
      unfolding cached_get_user_by_email get_user_by_email id_of_email
      read_user_by_email-IsRight =
          subst
            (λ e.
              IsRight l view db.users (seen l view)
                (or_not_found (find_enabled_by_email (normalize_email lower email) db.users)
                  >>= λ r. ok r.user)
                (user_or_fill lower c
                  (or_not_found (find_enabled_by_email e db.users) >>= λ r. ok r.user)
                  (with_id lower c (cached_platform_user lower c) id_of_email)))
            (sym normal)
            ((user_or_fill-IsRight lower l view IsPlain separates c laws db table)
              (find_enabled_by_email (normalize_email lower email) db.users)
              (with_id lower c (cached_platform_user lower c) id_of_email)
              ((enabled_by_email lower l view IsPlain separates c laws db table)
                (normalize_email lower email))
              ((with_id-IsLookup lower l view IsPlain separates c laws db table)
                (λ r u. view r.user ≡ view u) (cached_platform_user lower c)
                (normalize_email lower email) s
                (user-IsLookup lower l view IsPlain separates c laws db table) id_of_email
                ((id-IsLookup lower l view IsPlain separates c laws db table)
                  (normalize_email lower email) s (plain_email, normal) coherent)))

    -- The four reads of users answer through the cache as the store behind it does, as far as `view`
    -- shows a user, the password's hash included, and leave a cache that agrees with the table:
    -- whichever calls of the cache fail, and whether the cache has the user or not. The cache agrees
    -- with the table before, the ids and addresses are such that no two share a key, and ToLower
    -- changes no letter twice and neither makes nor removes a space.
    pub cached_get-IsRight :
        (id email : String)
        → IsId IsPlain id
        → IsPlain (normalize_email lower email)
        → IsRight l view db.users (seen l view) (get_user db id) (cached_get_user lower c db id s)
          × IsRight l view db.users
              (seen l view)
              (get_user_by_email (normalize_email lower) db email)
              (cached_get_user_by_email lower c db email s)
          × IsRight l view db.users
              (seen_auth l view)
              (get_user_password_by_id db id)
              (cached_get_user_password_by_id lower c db id s)
          × IsRight l view db.users
              (seen_auth l view)
              (get_user_password db (normalize_email lower email))
              (cached_get_user_password lower c db email s)
    cached_get-IsRight id email is_id plain_email = (
      read_user-IsRight id is_id,
      read_user_by_email-IsRight email plain_email,
      read_password-IsRight id is_id,
      read_password_by_email-IsRight email plain_email,
    )
