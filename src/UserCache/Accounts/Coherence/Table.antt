-- ===== src/UserCache/Accounts/Coherence/Table.antt =====
-- The table of users stays well formed under the writes of internal/usercache/store.go.
use Prim.Native.Char.{Char}
use rtk_account_manager.Common.{
  String, str_eq, ◌≡◌, refl, sym, ap, subst, List, [], ◌∷◌, map, if◌then◌else◌, All, Result, ok,
  err, Time, some,
}
use rtk_account_manager.Model.User.{User}
use rtk_account_manager.Store.Accounts.{
  UserRow, Accounts, user_key, email_of, is_enabled, update_enabled,
}
use rtk_account_manager.Store.Accounts.Passwords
use rtk_account_manager.Store.Accounts.Passwords.{verified, with_password, with_disabled}
use rtk_account_manager.Store.Accounts.Passwords.Laws.{
  verify_email_token-eq-ok, activate_login_token-eq-ok, activate_user-eq-ok,
  reset_password_with_token-eq-ok, update_user_password-eq-ok, disable_current_user-eq-ok,
}
use rtk_account_manager.Store.Rows.{update_row}
use rtk_account_manager.Store.Rows.Distinct.{Distinct-map}
use rtk_account_manager.UserCache.Cache.{Cache}
use rtk_account_manager.UserCache.Accounts.{
  Cached, replace_user, after_reset, after_update, after_disable,
}
use rtk_account_manager.UserCache.Accounts.Coherence.{IsUserTable, IsId, IsAddress}
use rtk_account_manager.UserCache.Accounts.Coherence.Operations.{
  Write, verify_email, activate_login, activate_social, reset_password, update_password, disable,
  run_write, if_same,
}

update_row-eq-map :
    {A : Type 0} (key : A → String) (k : String) (f : A → A) (rows : List A)
    → update_row key k f rows ≡ map (λ r. if str_eq (key r) k then f r else r) rows
unfolding update_row
update_row-eq-map key k f [] = refl
update_row-eq-map key k f (r ∷ rows) =
    ap (λ rest. (if str_eq (key r) k then f r else r) ∷ rest) (update_row-eq-map key k f rows)

All-map_field :
    {A : Type 0} (P : String → Type 0) (field : A → String) (f : A → A)
    → ((r : A) → field (f r) ≡ field r)
    → (rows : List A) → All (λ r. P (field r)) rows
    → All (λ r. P (field r)) (map f rows)
All-map_field P field f keeps [] h = tt
All-map_field P field f keeps (r ∷ rows) h =
    (subst P (sym (keeps r)) h.0, All-map_field P field f keeps rows h.1)

module _ (IsPlain : String → Type 0) (lower : Char → Char) where
  -- A change that leaves ids and addresses alone.
  update_row-IsUserTable :
      (id : String) (g : UserRow → UserRow) (users : List UserRow)
      → ((r : UserRow) → (g r).user.id ≡ r.user.id)
      → ((r : UserRow) → (g r).user.email ≡ r.user.email)
      → IsUserTable IsPlain lower users
      → IsUserTable IsPlain lower (update_row user_key id g users)
  update_row-IsUserTable id g users keeps_id keeps_email table =
      let f = λ (r : UserRow). if str_eq r.user.id id then g r else r in
      let same_id =
        λ (r : UserRow). if_same g (λ p. p.user.id) (str_eq r.user.id id) r (keeps_id r) in
      let same_email =
        λ (r : UserRow). if_same g (λ p. p.user.email) (str_eq r.user.id id) r (keeps_email r) in
      subst (IsUserTable IsPlain lower) (sym (update_row-eq-map user_key id g users)) (record {
        distinct_ids = Distinct-map user_key f users same_id table.distinct_ids;
        distinct_emails = Distinct-map email_of f users same_email table.distinct_emails;
        ids = All-map_field (IsId IsPlain) user_key f same_id users table.ids;
        emails = All-map_field (IsAddress IsPlain lower) email_of f same_email users table.emails;
      })

  update_enabled-IsUserTable :
      (id : String) (f : UserRow → UserRow) (users : List UserRow)
      → ((r : UserRow) → (f r).user.id ≡ r.user.id)
      → ((r : UserRow) → (f r).user.email ≡ r.user.email)
      → IsUserTable IsPlain lower users
      → IsUserTable IsPlain lower (update_enabled id f users)
  unfolding update_enabled
  update_enabled-IsUserTable id f users keeps_id keeps_email =
      update_row-IsUserTable id (λ r. if is_enabled r then f r else r) users
        (λ r. if_same f (λ p. p.user.id) (is_enabled r) r (keeps_id r))
        (λ r. if_same f (λ p. p.user.email) (is_enabled r) r (keeps_email r))

  module _ {W : Type 0} (c : Cache W) (now : Time) (db : Accounts) (s : Cached W)
      (table : IsUserTable IsPlain lower db.users) where
    abbrev IsKept : Accounts → Type 0
    IsKept db' = IsUserTable IsPlain lower db'.users

    kept :
        (db' : Accounts) (id : String) (f : UserRow → UserRow)
        → ((r : UserRow) → (f r).user.id ≡ r.user.id)
        → ((r : UserRow) → (f r).user.email ≡ r.user.email)
        → db'.users ≡ update_enabled id f db.users
        → IsKept db'
    kept db' id f keeps_id keeps_email same =
        subst (IsUserTable IsPlain lower) (sym same)
          (update_enabled-IsUserTable id f db.users keeps_id keeps_email table)

    verify_email-IsKept :
        (hash password_hash : String) (result : Result (User × Accounts))
        → Passwords.verify_email_token now hash password_hash db ≡ result
        → IsKept (replace_user lower c db s result).1
    verify_email-IsKept hash password_hash (err x) is = table
    verify_email-IsKept hash password_hash (ok (u, db')) is =
        let (r, found, same_user, same) =
          verify_email_token-eq-ok now db hash password_hash u db' is in
        kept db' r.user.id _ (λ q. refl) (λ q. refl) same

    activate_login-IsKept :
        (hash : String) (result : Result (User × Accounts))
        → Passwords.activate_login_token now hash db ≡ result
        → IsKept (replace_user lower c db s result).1
    activate_login-IsKept hash (err x) is = table
    activate_login-IsKept hash (ok (u, db')) is =
        let (r, found, same_user, same) = activate_login_token-eq-ok now db hash u db' is in
        subst (IsUserTable IsPlain lower) (sym same) table

    activate_social-IsKept :
        (id provider : String) (result : Result (User × Accounts))
        → Passwords.activate_user_from_verified_social_email now id provider db ≡ result
        → IsKept (replace_user lower c db s result).1
    activate_social-IsKept id provider (err x) is = table
    activate_social-IsKept id provider (ok (u, db')) is =
        let (r, found, same_user, same) = activate_user-eq-ok now db id provider u db' is in
        kept db' r.user.id _ (λ q. refl) (λ q. refl) same

    reset_password-IsKept :
        (hash password_hash : String) (result : Result (String × Accounts))
        → Passwords.reset_password_with_token now hash password_hash db ≡ result
        → IsKept (after_reset lower c db s result).1
    reset_password-IsKept hash password_hash (err x) is = table
    reset_password-IsKept hash password_hash (ok (email, db')) is =
        let (r, found, same, same_tokens) =
          reset_password_with_token-eq-ok now db hash password_hash email db' is in
        kept db' r.user.id _ (λ q. refl) (λ q. refl) same

    update_password-IsKept :
        (id password_hash : String) (result : Result Accounts)
        → Passwords.update_user_password now id password_hash db ≡ result
        → IsKept (after_update lower c id db s result).1
    update_password-IsKept id password_hash (err x) is = table
    update_password-IsKept id password_hash (ok db') is =
        let (r, found, is_id, same, same_tokens) =
          update_user_password-eq-ok now db id password_hash db' is in
        kept db' r.user.id _ (λ q. refl) (λ q. refl) same

    disable-IsKept :
        (id : String) (result : Result Accounts)
        → Passwords.disable_current_user now id db ≡ result
        → IsKept (after_disable lower c id db s result).1
    disable-IsKept id (err x) is = table
    disable-IsKept id (ok db') is =
        subst (IsUserTable IsPlain lower) (sym (disable_current_user-eq-ok now db id db' is).0) (
          update_row-IsUserTable id (with_disabled now (some now)) db.users (λ q. refl) (λ q. refl)
            table)

    pub run_write-IsUserTable :
        (op : Write) → IsUserTable IsPlain lower (run_write lower c op now (db, s)).0.users
    unfolding run_write
    run_write-IsUserTable (verify_email hash password_hash) =
        verify_email-IsKept hash password_hash _ refl
    run_write-IsUserTable (activate_login hash) = activate_login-IsKept hash _ refl
    run_write-IsUserTable (activate_social id provider) = activate_social-IsKept id provider _ refl
    run_write-IsUserTable (reset_password hash password_hash) =
        reset_password-IsKept hash password_hash _ refl
    run_write-IsUserTable (update_password id password_hash) =
        update_password-IsKept id password_hash _ refl
    run_write-IsUserTable (disable id) = disable-IsKept id _ refl
