-- ===== src/UserCache/Accounts.antt =====
-- internal/usercache/store.go for the users of the platform: the store's operations behind a cache.
pub mod Coherence
use Prim.Native.Char.{Char}
use rtk_account_manager.Common.{
  String, Bool, true, false, Option, none, some, List, [], ◌∷◌, if◌then◌else◌, Time, Result, ok,
  err, ◌>>=◌, GoError, is_not_found,
}
use rtk_account_manager.Channel.Text.{is_blank}
use rtk_account_manager.Model.User.{User}
use rtk_account_manager.Store.Accounts.{
  Accounts, get_user_password_by_id, get_user_password, get_user, get_user_by_email,
}
use rtk_account_manager.Store.Accounts.Passwords
use rtk_account_manager.UserCache.Text.{trim, normalize_email}
use rtk_account_manager.UserCache.Cache.{Cache}

-- The cache, and the warnings of the logger, the last one first.
pub record Cached (W : Type 0) : Type 0 where
  pub cache : W
  pub warnings : List (String × GoError)

-- s.warn
abbrev pub warn : String → GoError → List (String × GoError) → List (String × GoError)
warn message e log = if is_not_found e then log else (message, e) ∷ log

module _ {W : Type 0} where
  -- if err != nil { s.warn(…); return …, false }
  abbrev pub or_miss :
      {A : Type 0} → String → List (String × GoError) → Result (Option A) × W → Option A × Cached W
  or_miss message log (ok found, w) = (found, record { cache = w; warnings = log })
  or_miss message log (err e, w) = (none, record { cache = w; warnings = warn message e log })

  -- if err != nil { s.warn(…) }
  abbrev pub or_warn : String → List (String × GoError) → Result (Unit {0}) × W → Cached W
  or_warn message log (ok done, w) = record { cache = w; warnings = log }
  or_warn message log (err e, w) = record { cache = w; warnings = warn message e log }

-- ok && strings.TrimSpace(userID) != ""
abbrev pub unless_blank : Option String → Option String
unless_blank none = none
unless_blank (some id) = if is_blank id then none else some id

module _ (lower : Char → Char) {W : Type 0} (c : Cache W) where
  abbrev pub cached_platform_user : String → Cached W → Option User × Cached W
  cached_platform_user id s =
      or_miss "get platform user cache failed" s.warnings (c.get_platform_user (trim id) s.cache)

  abbrev pub cached_platform_user_id : String → Cached W → Option String × Cached W
  cached_platform_user_id email s =
      let (found, s') =
        or_miss "get platform user email cache failed" s.warnings
          (c.get_platform_user_id_by_email (normalize_email lower email) s.cache) in
      (unless_blank found, s')

  abbrev pub cached_platform_auth : String → Cached W → Option (User × String) × Cached W
  cached_platform_auth id s =
      or_miss "get platform auth cache failed" s.warnings (c.get_platform_auth (trim id) s.cache)

  abbrev pub put_user : User → Cached W → Cached W
  put_user u s = or_warn "put platform user cache failed" s.warnings (c.put_platform_user u s.cache)

  abbrev pub put_auth : User → String → Cached W → Cached W
  put_auth u hash s =
      or_warn "put platform auth cache failed" s.warnings (c.put_platform_auth u hash s.cache)

  abbrev pub delete_user : String → Cached W → Cached W
  delete_user id s =
      or_warn "delete platform user cache failed" s.warnings (c.delete_platform_user id s.cache)

  abbrev pub flush_auth : Cached W → Cached W
  flush_auth s =
      or_warn "flush platform auth cache failed" s.warnings (c.flush_platform_auth s.cache)

  -- What the backing store answers is put into the cache.
  abbrev pub fill_user : Cached W → Result User → Result User × Cached W
  fill_user s (err e) = (err e, s)
  fill_user s (ok u) = (ok u, put_user u s)

  abbrev pub fill_auth : Cached W → Result (User × String) → Result (User × String) × Cached W
  fill_auth s (err e) = (err e, s)
  fill_auth s (ok (u, hash)) = (ok (u, hash), put_auth u hash s)

  -- A value from the cache, or what the backing store gives.
  abbrev pub user_or_fill : Result User → Option User × Cached W → Result User × Cached W
  user_or_fill backing (none, s) = fill_user s backing
  user_or_fill backing (some u, s) = (ok u, s)

  abbrev pub auth_or_fill :
      Result (User × String) → Option (User × String) × Cached W → Result (User × String) × Cached W
  auth_or_fill backing (none, s) = fill_auth s backing
  auth_or_fill backing (some found, s) = (ok found, s)

  -- A read by the id that the address leads to, if it leads to one.
  abbrev pub with_id :
      {A : Type 0}
      → (String → Cached W → Option A × Cached W)
      → Option String × Cached W
      → Option A × Cached W
  with_id read (none, s) = (none, s)
  with_id read (some id, s) = read id s

  -- GetUserPassword
  unfoldable pub cached_get_user_password :
      Accounts → String → Cached W → Result (User × String) × Cached W
  cached_get_user_password db email s =
      let normalized = normalize_email lower email in
      auth_or_fill (get_user_password db normalized)
        (with_id cached_platform_auth (cached_platform_user_id normalized s))

  -- GetUserPasswordByID
  unfoldable pub cached_get_user_password_by_id :
      Accounts → String → Cached W → Result (User × String) × Cached W
  cached_get_user_password_by_id db id s =
      auth_or_fill (get_user_password_by_id db id) (cached_platform_auth id s)

  -- GetUser
  unfoldable pub cached_get_user : Accounts → String → Cached W → Result User × Cached W
  cached_get_user db id s = user_or_fill (get_user db id) (cached_platform_user id s)

  -- GetUserByEmail
  unfoldable pub cached_get_user_by_email : Accounts → String → Cached W → Result User × Cached W
  cached_get_user_by_email db email s =
      let normalized = normalize_email lower email in
      user_or_fill (get_user_by_email (normalize_email lower) db normalized)
        (with_id cached_platform_user (cached_platform_user_id normalized s))

  -- The user of an operation that has succeeded replaces what the cache holds of it.
  abbrev pub replace_user :
      Accounts → Cached W → Result (User × Accounts) → Result User × Accounts × Cached W
  replace_user db s (err e) = (err e, db, s)
  replace_user db s (ok (u, db')) = (ok u, db', put_user u (delete_user u.id s))

  -- VerifyEmailToken
  unfoldable pub cached_verify_email_token :
      Time → String → String → Accounts → Cached W → Result User × Accounts × Cached W
  cached_verify_email_token now hash password_hash db s =
      replace_user db s (Passwords.verify_email_token now hash password_hash db)

  -- ActivateLoginToken
  unfoldable pub cached_activate_login_token :
      Time → String → Accounts → Cached W → Result User × Accounts × Cached W
  cached_activate_login_token now hash db s =
      replace_user db s (Passwords.activate_login_token now hash db)

  -- ActivateUserFromVerifiedSocialEmail
  unfoldable pub cached_activate_user_from_verified_social_email :
      Time → String → String → Accounts → Cached W → Result User × Accounts × Cached W
  cached_activate_user_from_verified_social_email now id provider db s =
      replace_user db s (Passwords.activate_user_from_verified_social_email now id provider db)

  abbrev pub after_reset :
      Accounts → Cached W → Result (String × Accounts) → Result String × Accounts × Cached W
  after_reset db s (err e) = (err e, db, s)
  after_reset db s (ok (email, db')) = (ok email, db', flush_auth s)

  -- ResetPasswordWithToken
  unfoldable pub cached_reset_password_with_token :
      Time → String → String → Accounts → Cached W → Result String × Accounts × Cached W
  cached_reset_password_with_token now hash password_hash db s =
      after_reset db s (Passwords.reset_password_with_token now hash password_hash db)

  abbrev pub put_changed : String → Cached W → Result (User × String) → Cached W
  put_changed id s (err e) = delete_user id s
  put_changed id s (ok (u, hash)) = put_auth u hash s

  abbrev pub after_update :
      String → Accounts → Cached W → Result Accounts → Result (Unit {0}) × Accounts × Cached W
  after_update id db s (err e) = (err e, db, s)
  after_update id db s (ok db') = (ok tt, db', put_changed id s (get_user_password_by_id db' id))

  -- UpdateUserPassword
  unfoldable pub cached_update_user_password :
      Time → String → String → Accounts → Cached W → Result (Unit {0}) × Accounts × Cached W
  cached_update_user_password now id password_hash db s =
      after_update id db s (Passwords.update_user_password now id password_hash db)

  abbrev pub after_disable :
      String → Accounts → Cached W → Result Accounts → Result (Unit {0}) × Accounts × Cached W
  after_disable id db s (err e) = (err e, db, s)
  after_disable id db s (ok db') = (ok tt, db', delete_user id s)

  -- DisableCurrentUser
  unfoldable pub cached_disable_current_user :
      Time → String → Accounts → Cached W → Result (Unit {0}) × Accounts × Cached W
  cached_disable_current_user now id db s =
      after_disable id db s (Passwords.disable_current_user now id db)
