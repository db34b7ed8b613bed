-- ===== src/UserCache/Accounts/Coherence/Operations.antt =====
-- The writes of internal/usercache/store.go as one step, and the agreement over any number of them.
use Prim.Native.Char.{Char}
use rtk_account_manager.Common.{
  String, ◌≡◌, Bool, true, false, some, List, [], Result, ok, err, refl, sym, ap, ◌∙◌, subst, Time,
  pos, if◌then◌else◌,
}
use rtk_account_manager.Model.User.{User}
use rtk_account_manager.Store.Accounts.{
  UserRow, Accounts, is_enabled, find_enabled, update_enabled, get_user_password_by_id,
}
use rtk_account_manager.Store.Accounts.Passwords
use rtk_account_manager.Store.Accounts.Passwords.{
  verified, with_password, with_disabled, without_limit,
}
use rtk_account_manager.Store.Accounts.Passwords.Laws.{
  verify_email_token-eq-ok, activate_login_token-eq-ok, activate_user-eq-ok,
  reset_password_with_token-eq-ok, update_user_password-eq-ok, disable_current_user-eq-ok,
}
use rtk_account_manager.UserCache.Cache.{Entry, IsAuth, Cache, Layout, IsCache, IsUnderId}
use rtk_account_manager.UserCache.Accounts.{
  Cached, put_user, put_auth, delete_user, flush_auth, replace_user, after_reset, after_update,
  after_disable, cached_verify_email_token, cached_activate_login_token,
  cached_activate_user_from_verified_social_email, cached_reset_password_with_token,
  cached_update_user_password, cached_disable_current_user,
}
use rtk_account_manager.UserCache.Accounts.Coherence.{Coherent, IsCoherent}
use rtk_account_manager.UserCache.Accounts.Coherence.Writes.{
  other-Coherent, unseen-Coherent, find_enabled-update_enabled, delete_user-IsCoherent,
  put_auth-IsCoherent, flush_auth-IsCoherent, put_user-IsCoherent, or_warn_log,
}

-- A write that the cache takes part in; Register, SignupDeveloper and ProvisionBrandCloudAccount,
-- which put a new user into it, are not among them.
pub data Write : Type 0 where
  verify_email : String → String → Write
  activate_login : String → Write
  activate_social : String → String → Write
  reset_password : String → String → Write
  update_password : String → String → Write
  disable : String → Write

-- A user but for two columns: two writes hand the cache a user without developer_cloud_limit, and
-- ResetPasswordWithToken leaves a cached user with the old updated_at.
abbrev pub account_view : User → User
account_view u = record u { developer_cloud_limit = pos 0; updated_at = u.created_at }

-- A field that a change keeps is kept where the change depends on a test.
pub if_same :
    {A : Type 0} (f : UserRow → UserRow) (field : UserRow → A) (b : Bool) (q : UserRow)
    → field (f q) ≡ field q
    → field (if b then f q else q) ≡ field q
if_same f field true q same = same
if_same f field false q same = refl

module _ (lower : Char → Char) {W : Type 0} (c : Cache W) where
  -- The write at a time, and the tables and the cache after it.
  unfoldable pub run_write : Write → Time → Accounts × Cached W → Accounts × Cached W
  unfolding cached_verify_email_token cached_activate_login_token
      cached_activate_user_from_verified_social_email cached_reset_password_with_token
      cached_update_user_password cached_disable_current_user
  run_write (verify_email hash password_hash) now (db, s) =
      let out = cached_verify_email_token lower c now hash password_hash db s in (out.1, out.2)
  run_write (activate_login hash) now (db, s) =
      let out = cached_activate_login_token lower c now hash db s in (out.1, out.2)
  run_write (activate_social id provider) now (db, s) =
      let out = cached_activate_user_from_verified_social_email lower c now id provider db s in
      (out.1, out.2)
  run_write (reset_password hash password_hash) now (db, s) =
      let out = cached_reset_password_with_token lower c now hash password_hash db s in
      (out.1, out.2)
  run_write (update_password id password_hash) now (db, s) =
      let out = cached_update_user_password lower c now id password_hash db s in (out.1, out.2)
  run_write (disable id) now (db, s) =
      let out = cached_disable_current_user lower c now id db s in (out.1, out.2)

  module _ (l : Layout W) (laws : IsCache l c) where
    -- The user that an operation returns replaces what the cache has of it.
    replace-IsCoherent :
        (users changed : List UserRow) (s : Cached W) (r : UserRow) (u : User)
        → find_enabled r.user.id changed ≡ some r
        → u.id ≡ r.user.id
        → u.email ≡ r.user.email
        → account_view r.user ≡ account_view u
        → ((e : Entry)
            → Coherent l account_view users e
            → (IsUnderId l u.id e → ⊥)
            → Coherent l account_view changed e)
        → IsCoherent l account_view users s.cache
        → (put_user lower c u (delete_user lower c u.id s)).warnings ≡ []
        → IsCoherent l account_view changed (put_user lower c u (delete_user lower c u.id s)).cache
    replace-IsCoherent users changed s r u found same_id same_email same other coherent quiet =
        let deleted = delete_user lower c u.id s in
        put_user-IsCoherent lower l c laws account_view changed deleted r u found same_id same_email
          same
          (delete_user-IsCoherent lower l c laws account_view users changed s coherent u.id other (
            or_warn_log lower l c laws _ deleted.warnings (c.put_platform_user u deleted.cache)
              quiet))

    -- Another user's entries after an UPDATE of the row of an enabled user.
    other-update_enabled :
        (users : List UserRow) (id : String) (f : UserRow → UserRow)
        → ((q : UserRow) → (f q).user.id ≡ q.user.id)
        → ((q : UserRow) → (f q).user.email ≡ q.user.email)
        → (e : Entry) → Coherent l account_view users e
        → (IsUnderId l id e → ⊥)
        → Coherent l account_view (update_enabled id f users) e
    unfolding update_enabled
    other-update_enabled users id f keeps_id keeps_email =
        other-Coherent l account_view users id (λ q. if is_enabled q then f q else q)
          (λ q. if_same f (λ p. p.user.id) (is_enabled q) q (keeps_id q))
          (λ q. if_same f (λ p. p.user.email) (is_enabled q) q (keeps_email q))

    unseen-update_enabled :
        (users : List UserRow) (id : String) (f : UserRow → UserRow)
        → ((q : UserRow) → (f q).user.id ≡ q.user.id)
        → ((q : UserRow) → (f q).user.email ≡ q.user.email)
        → ((q : UserRow) → is_enabled (f q) ≡ is_enabled q)
        → ((q : UserRow) → account_view (f q).user ≡ account_view q.user)
        → (e : Entry) → Coherent l account_view users e
        → (IsAuth e → ⊥)
        → Coherent l account_view (update_enabled id f users) e
    unfolding update_enabled
    unseen-update_enabled users id f keeps_id keeps_email stays unseen e =
        unseen-Coherent l account_view users id (λ q. if is_enabled q then f q else q)
          (λ q. if_same f (λ p. p.user.id) (is_enabled q) q (keeps_id q))
          (λ q. if_same f (λ p. p.user.email) (is_enabled q) q (keeps_email q)) e
          (λ q. if_same f (λ p. account_view p.user) (is_enabled q) q (unseen q))
          (λ q. if_same f is_enabled (is_enabled q) q (stays q))

    module _ (now : Time) (db : Accounts) (s : Cached W)
        (coherent : IsCoherent l account_view db.users s.cache) where
      -- What holds after a step: without a warning, the cache agrees with the table.
      abbrev pub AfterStep : Accounts × Cached W → Type 0
      AfterStep (db', s') = s'.warnings ≡ [] → IsCoherent l account_view db'.users s'.cache

      -- An operation that changes the row of an enabled user and returns the user.
      updated-IsCoherent :
          (f : UserRow → UserRow) (r : UserRow) (u : User) (db' : Accounts)
          → ((q : UserRow) → (f q).user.id ≡ q.user.id)
          → ((q : UserRow) → (f q).user.email ≡ q.user.email)
          → ((q : UserRow) → is_enabled (f q) ≡ is_enabled q)
          → find_enabled r.user.id db.users ≡ some r
          → u.id ≡ r.user.id
          → u.email ≡ (f r).user.email
          → account_view (f r).user ≡ account_view u
          → db'.users ≡ update_enabled r.user.id f db.users
          → (put_user lower c u (delete_user lower c u.id s)).warnings ≡ []
          → IsCoherent l account_view db'.users
              (put_user lower c u (delete_user lower c u.id s)).cache
      updated-IsCoherent f r u db' keeps_id keeps_email stays found same_id same_email same
            same_users quiet =
          subst
            (λ users.
              IsCoherent l account_view users
                (put_user lower c u (delete_user lower c u.id s)).cache)
            (sym same_users)
            (replace-IsCoherent db.users (update_enabled r.user.id f db.users) s (f r) u
              (subst (λ i. find_enabled i (update_enabled r.user.id f db.users) ≡ some (f r))
                (sym (keeps_id r))
                (find_enabled-update_enabled r.user.id f db.users r keeps_id stays found))
              (same_id ∙ sym (keeps_id r)) same_email same
              (λ e before apart.
                other-update_enabled db.users r.user.id f keeps_id keeps_email e before
                  (subst (λ i. IsUnderId l i e → ⊥) same_id apart))
              coherent quiet)

      verify_email-AfterStep :
          (hash password_hash : String) (result : Result (User × Accounts))
          → Passwords.verify_email_token now hash password_hash db ≡ result
          → let out = replace_user lower c db s result in AfterStep (out.1, out.2)
      verify_email-AfterStep hash password_hash (err x) is quiet = coherent
      verify_email-AfterStep hash password_hash (ok (u, db')) is quiet =
          let (r, found, same_user, same_users) =
            verify_email_token-eq-ok now db hash password_hash u db' is in
          updated-IsCoherent (λ q. record (verified now q) { password_hash = password_hash }) r u
            db' (λ q. refl) (λ q. refl) (λ q. refl) found (ap (λ (v : User). v.id) same_user)
            (ap (λ (v : User). v.email) same_user) (sym (ap account_view same_user)) same_users
            quiet

      activate_social-AfterStep :
          (id provider : String) (result : Result (User × Accounts))
          → Passwords.activate_user_from_verified_social_email now id provider db ≡ result
          → let out = replace_user lower c db s result in AfterStep (out.1, out.2)
      activate_social-AfterStep id provider (err x) is quiet = coherent
      activate_social-AfterStep id provider (ok (u, db')) is quiet =
          let (r, found, same_user, same_users) = activate_user-eq-ok now db id provider u db' is in
          updated-IsCoherent (verified now) r u db' (λ q. refl) (λ q. refl) (λ q. refl) found
            (ap (λ (v : User). v.id) same_user) (ap (λ (v : User). v.email) same_user)
            (sym (ap account_view same_user)) same_users quiet

      activate_login-AfterStep :
          (hash : String) (result : Result (User × Accounts))
          → Passwords.activate_login_token now hash db ≡ result
          → let out = replace_user lower c db s result in AfterStep (out.1, out.2)
      activate_login-AfterStep hash (err x) is quiet = coherent
      activate_login-AfterStep hash (ok (u, db')) is quiet =
          let (r, found, same_user, same_users) = activate_login_token-eq-ok now db hash u db' is in
          subst
            (λ users.
              IsCoherent l account_view users
                (put_user lower c u (delete_user lower c u.id s)).cache)
            (sym same_users)
            (replace-IsCoherent db.users db.users s r u found (ap (λ (v : User). v.id) same_user)
              (ap (λ (v : User). v.email) same_user) (sym (ap account_view same_user))
              (λ e before apart. before) coherent quiet)

      reset_password-AfterStep :
          (hash password_hash : String) (result : Result (String × Accounts))
          → Passwords.reset_password_with_token now hash password_hash db ≡ result
          → let out = after_reset lower c db s result in AfterStep (out.1, out.2)
      reset_password-AfterStep hash password_hash (err x) is quiet = coherent
      reset_password-AfterStep hash password_hash (ok (email, db')) is quiet =
          let (r, found, same_users, same_tokens) =
            reset_password_with_token-eq-ok now db hash password_hash email db' is in
          subst (λ users. IsCoherent l account_view users (flush_auth lower c s).cache)
            (sym same_users)
            (flush_auth-IsCoherent lower l c laws account_view db.users _ s coherent
              (unseen-update_enabled db.users r.user.id (with_password now password_hash)
                (λ q. refl) (λ q. refl) (λ q. refl) (λ q. refl))
              quiet)

      update_password-AfterStep :
          (id password_hash : String) (result : Result Accounts)
          → Passwords.update_user_password now id password_hash db ≡ result
          → let out = after_update lower c id db s result in AfterStep (out.1, out.2)
      unfolding get_user_password_by_id
      update_password-AfterStep id password_hash (err x) is = λ quiet. coherent
      update_password-AfterStep id password_hash (ok db') is =
          let (r, found, is_id, same_users, same_tokens) =
            update_user_password-eq-ok now db id password_hash db' is in
          let there : find_enabled id db'.users ≡ some (change r) =
            subst (λ users. find_enabled id users ≡ some (change r)) (sym same_users)
              (subst
                (λ i. find_enabled i (update_enabled r.user.id change db.users) ≡ some (change r))
                is_id
                (find_enabled-update_enabled r.user.id change db.users r (λ q. refl) (λ q. refl)
                  found)) in
          rw there λ quiet.
            subst
              (λ users.
                IsCoherent l account_view users
                  (put_auth lower c (change r).user password_hash s).cache)
              (sym same_users)
              (put_auth-IsCoherent lower l c laws account_view db.users
                (update_enabled r.user.id change db.users) s coherent (change r)
                (find_enabled-update_enabled r.user.id change db.users r (λ q. refl) (λ q. refl)
                  found)
                (other-update_enabled db.users r.user.id change (λ q. refl) (λ q. refl)) quiet)
        where
          change : UserRow → UserRow
          change q = with_password now password_hash q

      disable-AfterStep :
          (id : String) (result : Result Accounts)
          → Passwords.disable_current_user now id db ≡ result
          → let out = after_disable lower c id db s result in AfterStep (out.1, out.2)
      disable-AfterStep id (err x) is quiet = coherent
      disable-AfterStep id (ok db') is quiet =
          subst (λ users. IsCoherent l account_view users (delete_user lower c id s).cache)
            (sym (disable_current_user-eq-ok now db id db' is).0)
            (delete_user-IsCoherent lower l c laws account_view db.users _ s coherent id
              (other-Coherent l account_view db.users id (with_disabled now (some now)) (λ q. refl)
                (λ q. refl))
              quiet)

      -- A write that succeeds in the cache keeps the agreement.
      pub run_write-AfterStep : (op : Write) → AfterStep (run_write op now (db, s))
      unfolding run_write
      run_write-AfterStep (verify_email hash password_hash) =
          verify_email-AfterStep hash password_hash _ refl
      run_write-AfterStep (activate_login hash) = activate_login-AfterStep hash _ refl
      run_write-AfterStep (activate_social id provider) =
          activate_social-AfterStep id provider _ refl
      run_write-AfterStep (reset_password hash password_hash) =
          reset_password-AfterStep hash password_hash _ refl
      run_write-AfterStep (update_password id password_hash) =
          update_password-AfterStep id password_hash _ refl
      run_write-AfterStep (disable id) = disable-AfterStep id _ refl
