-- ===== src/Store/Accounts/Uses/Once.antt =====
-- internal/store/store.go: a token is used once, whatever happens in between.
use rtk_account_manager.Common.{
  String, ◌≡◌, refl, sym, ap, subst, Option, none, some, List, [], ◌∷◌, Time, Result, ok, err,
  >>=-eq-ok, >>-eq-ok, refuse_if, not_found,
}
use rtk_account_manager.Store.Accounts.{Accounts, find_enabled}
use rtk_account_manager.Store.Accounts.Tokens.{
  TokenSettings, consume_auth_token, insert_token, enqueue_if,
  create_auth_token_for_subject_with_email,
}
use rtk_account_manager.Store.Accounts.Passwords.{
  activate_login_token, verify_email_token, activate_user_from_verified_social_email,
  reset_password_with_token, update_user_password, disable_current_user, disable_member_user,
  enable_member_user, release_holds,
}
use rtk_account_manager.Store.Accounts.Passwords.Laws.{ok-eq-ok, both_results}
use rtk_account_manager.Store.Accounts.Uses.{
  Use, activate, verify, reset, tables, use_token, Transaction, create, use_for, activate_social,
  update_password, disable, disable_member, enable_member, save_refresh, rotate_refresh,
  revoke_refresh, revoke_user_refresh, cleanup_refresh, or_unchanged, run_transaction,
  run_transactions,
}
use rtk_account_manager.Store.Accounts.Members.{
  ensure_not_last_active_owner, ensure_none_last, owned_organizations, get_member,
}
use rtk_account_manager.Store.Accounts.Sessions.{
  insert_refresh, refresh_token_active, save_refresh_token, rotate_refresh_token,
  revoke_refresh_token, revoke_user_refresh_tokens, cleanup_refresh_tokens,
}
use rtk_account_manager.Store.Accounts.Uses.Spent.{
  IsSpent, withdraw-IsSpent, insert_token-IsSpent, consume-IsSpent, consume_keeps-IsSpent,
  consume_spent,
}
use rtk_account_manager.Store.Email.{EmailOutboxInput, enqueue_email}
use rtk_account_manager.Store.Tables.{or_not_found}

tables-eq-ok :
    {A : Type 0} (r : Result (A × Accounts)) (db' : Accounts)
    → tables r ≡ ok db'
    → (a : A) × (r ≡ ok (a, db'))
tables-eq-ok (err e) db' h = cc
tables-eq-ok (ok (a, db)) db' h = (a, cc (h))

purpose_of : Use → String
purpose_of activate = "login_activation"
purpose_of (verify password_hash) = "email_verification"
purpose_of (reset password_hash) = "password_reset"

-- A token is used by consuming it, and the rest of the transaction leaves the tokens alone.
use_token-eq-ok :
    (purpose : Use) (now : Time) (hash : String) (db db' : Accounts)
    → use_token purpose now hash db ≡ ok db'
    → (consumed : String × Accounts) × (consume_auth_token now hash (purpose_of purpose) "" db
        ≡ ok consumed)
      × (db'.auth_tokens ≡ consumed.1.auth_tokens)
unfolding use_token purpose_of activate_login_token verify_email_token reset_password_with_token
    release_holds
use_token-eq-ok activate now hash db db' h =
    let (u, done) = tables-eq-ok _ db' h in
    let (consumed, was, rest) =
      >>=-eq-ok (consume_auth_token now hash "login_activation" "" db) _ done in
    let (r, there, last) =
      >>=-eq-ok (or_not_found (find_enabled consumed.0 consumed.1.users)) _ rest in
    let (same_user, same_db) =
      both_results _ _ _ _
        (>>-eq-ok (refuse_if r.user.signup_pending_verification not_found) _ last).1 in
    (consumed, was, sym (ap (λ (a : Accounts). a.auth_tokens) same_db))
use_token-eq-ok (verify password_hash) now hash db db' h =
    let (u, done) = tables-eq-ok _ db' h in
    let (consumed, was, rest) =
      >>=-eq-ok (consume_auth_token now hash "email_verification" "" db) _ done in
    let (r, there, last) =
      >>=-eq-ok (or_not_found (find_enabled consumed.0 consumed.1.users)) _ rest in
    let (same_user, same_db) = both_results _ _ _ _ last in
    (consumed, was, sym (ap (λ (a : Accounts). a.auth_tokens) same_db))
use_token-eq-ok (reset password_hash) now hash db db' h =
    let (u, done) = tables-eq-ok _ db' h in
    let (consumed, was, rest) =
      >>=-eq-ok (consume_auth_token now hash "password_reset" "" db) _ done in
    let (r, there, last) =
      >>=-eq-ok (or_not_found (find_enabled consumed.0 consumed.1.users)) _ rest in
    let (same_email, same_db) = both_results _ _ _ _ last in
    (consumed, was, sym (ap (λ (a : Accounts). a.auth_tokens) same_db))

use_token_spent :
    (purpose : Use) (now : Time) (hash : String) (db : Accounts)
    → IsSpent hash db.auth_tokens
    → use_token purpose now hash db ≡ err not_found
unfolding use_token activate_login_token verify_email_token reset_password_with_token
use_token_spent activate now hash db spent =
    rw (consume_spent now hash "login_activation" "" db spent)
use_token_spent (verify password_hash) now hash db spent =
    rw (consume_spent now hash "email_verification" "" db spent)
use_token_spent (reset password_hash) now hash db spent =
    rw (consume_spent now hash "password_reset" "" db spent)

enqueue_if-tokens :
    (s : TokenSettings) (email : Option EmailOutboxInput) (db db' : Accounts)
    → enqueue_if s email db ≡ ok db'
    → db'.auth_tokens ≡ db.auth_tokens
unfolding enqueue_if
enqueue_if-tokens s none db db' h = sym (ap (λ (a : Accounts). a.auth_tokens) (ok-eq-ok _ _ h))
enqueue_if-tokens s (some inp) db db' h =
    let (emails, were, last) =
      >>=-eq-ok (enqueue_email s.cipher s.nonce s.email_id s.now inp db.emails) _ h in
    sym (ap (λ (a : Accounts). a.auth_tokens) (ok-eq-ok _ _ last))

-- A transaction that succeeds leaves a spent token spent.
module _ (hash : String) (db : Accounts) (spent : IsSpent hash db.auth_tokens) where
  or_unchanged-IsSpent :
      (r : Result Accounts)
      → ((db' : Accounts) → r ≡ ok db' → IsSpent hash db'.auth_tokens)
      → IsSpent hash (or_unchanged db r).auth_tokens
  or_unchanged-IsSpent (err e) each = spent
  or_unchanged-IsSpent (ok db') each = each db' refl

  use_token-IsSpent :
      (purpose : Use) (now : Time) (used : String) (db' : Accounts)
      → use_token purpose now used db ≡ ok db'
      → IsSpent hash db'.auth_tokens
  use_token-IsSpent purpose now used db' h =
      let (consumed, was, same) = use_token-eq-ok purpose now used db db' h in
      subst (IsSpent hash) (sym same) (
        consume_keeps-IsSpent now used (purpose_of purpose) "" consumed.0 hash db consumed.1 was
          spent)

  create-IsSpent :
      (s : TokenSettings) (subject_type subject_id user_id purpose scope new : String)
      (expires_at : Time) (email : Option EmailOutboxInput) (db' : Accounts)
      → create_auth_token_for_subject_with_email s subject_type subject_id user_id purpose scope new
          expires_at email db
        ≡ ok db'
      → IsSpent hash db'.auth_tokens
  unfolding create_auth_token_for_subject_with_email
  create-IsSpent s subject_type subject_id user_id purpose scope new expires_at email db' h =
      let checked = (>>-eq-ok (refuse_if _ _) _ h).1 in
      let (tokens, inserted, rest) = >>=-eq-ok (insert_token _ _) _ checked in
      subst (IsSpent hash)
        (sym (enqueue_if-tokens s email (record db { auth_tokens = tokens }) db' rest))
        (insert_token-IsSpent _ hash _ tokens inserted
          (withdraw-IsSpent s.now _ hash db.auth_tokens spent))

  activate_social-IsSpent :
      (now : Time) (id provider : String) (db' : Accounts)
      → tables (activate_user_from_verified_social_email now id provider db) ≡ ok db'
      → IsSpent hash db'.auth_tokens
  unfolding activate_user_from_verified_social_email release_holds
  activate_social-IsSpent now id provider db' h =
      let (u, done) = tables-eq-ok _ db' h in
      let (r, there, last) = >>=-eq-ok (or_not_found (find_enabled id db.users)) _ done in
      let (same_user, same_db) = both_results _ _ _ _ last in
      subst (IsSpent hash) (ap (λ (a : Accounts). a.auth_tokens) same_db)
        (withdraw-IsSpent now _ hash db.auth_tokens spent)

  update_password-IsSpent :
      (now : Time) (id password_hash : String) (db' : Accounts)
      → update_user_password now id password_hash db ≡ ok db'
      → IsSpent hash db'.auth_tokens
  unfolding update_user_password
  update_password-IsSpent now id password_hash db' h =
      let (r, there, last) = >>=-eq-ok (or_not_found (find_enabled id db.users)) _ h in
      subst (IsSpent hash) (ap (λ (a : Accounts). a.auth_tokens) (ok-eq-ok _ _ last)) spent

  disable-IsSpent :
      (now : Time) (id : String) (db' : Accounts)
      → disable_current_user now id db ≡ ok db'
      → IsSpent hash db'.auth_tokens
  unfolding disable_current_user
  disable-IsSpent now id db' h =
      let (r, there, rest) = >>=-eq-ok (or_not_found (find_enabled id db.users)) _ h in
      let last = (>>-eq-ok (ensure_none_last db id (owned_organizations db id)) _ rest).1 in
      subst (IsSpent hash) (ap (λ (a : Accounts). a.auth_tokens) (ok-eq-ok _ _ last)) spent

  disable_member-IsSpent :
      (now : Time) (org_id id : String) (db' : Accounts)
      → tables (disable_member_user now org_id id db) ≡ ok db'
      → IsSpent hash db'.auth_tokens
  unfolding disable_member_user
  disable_member-IsSpent now org_id id db' h =
      let (out, done) = tables-eq-ok _ db' h in
      let rest = (>>-eq-ok (ensure_not_last_active_owner db org_id id) _ done).1 in
      let (member, there, last) = >>=-eq-ok (get_member _ org_id id) _ rest in
      let (same_member, same_db) = both_results _ _ _ _ last in
      subst (IsSpent hash) (ap (λ (a : Accounts). a.auth_tokens) same_db) spent

  enable_member-IsSpent :
      (now : Time) (org_id id : String) (db' : Accounts)
      → tables (enable_member_user now org_id id db) ≡ ok db'
      → IsSpent hash db'.auth_tokens
  unfolding enable_member_user
  enable_member-IsSpent now org_id id db' h =
      let (out, done) = tables-eq-ok _ db' h in
      let (before, was, rest) = >>=-eq-ok (get_member db org_id id) _ done in
      let (member, there, last) = >>=-eq-ok (get_member _ org_id id) _ rest in
      let (same_member, same_db) = both_results _ _ _ _ last in
      subst (IsSpent hash) (ap (λ (a : Accounts). a.auth_tokens) same_db) spent

  save_refresh-IsSpent :
      (id new : String) (expires_at : Time) (db' : Accounts)
      → save_refresh_token id new expires_at db ≡ ok db'
      → IsSpent hash db'.auth_tokens
  unfolding save_refresh_token
  save_refresh-IsSpent id new expires_at db' h =
      let (tokens, inserted, last) = >>=-eq-ok (insert_refresh _ db) _ h in
      subst (IsSpent hash) (ap (λ (a : Accounts). a.auth_tokens) (ok-eq-ok _ _ last)) spent

  rotate_refresh-IsSpent :
      (now : Time) (old_hash new_hash id : String) (expires_at : Time) (db' : Accounts)
      → rotate_refresh_token now old_hash new_hash id expires_at db ≡ ok db'
      → IsSpent hash db'.auth_tokens
  unfolding rotate_refresh_token save_refresh_token revoke_refresh_token
  rotate_refresh-IsSpent now old_hash new_hash id expires_at db' h =
      let (user_id, active, rest) = >>=-eq-ok (refresh_token_active now old_hash db) _ h in
      let saved = (>>-eq-ok (refuse_if _ _) _ rest).1 in
      let (tokens, inserted, last) = >>=-eq-ok (insert_refresh _ _) _ saved in
      subst (IsSpent hash) (ap (λ (a : Accounts). a.auth_tokens) (ok-eq-ok _ _ last)) spent

  run_transaction-IsSpent : (t : Transaction) → IsSpent hash (run_transaction t db).auth_tokens
  unfolding run_transaction revoke_refresh_token revoke_user_refresh_tokens cleanup_refresh_tokens
  run_transaction-IsSpent
        (create s subject_type subject_id user_id purpose scope new expires_at email) =
      or_unchanged-IsSpent _
        (create-IsSpent s subject_type subject_id user_id purpose scope new expires_at email)
  run_transaction-IsSpent (use_for purpose now used) =
      or_unchanged-IsSpent _ (use_token-IsSpent purpose now used)
  run_transaction-IsSpent (activate_social now id provider) =
      or_unchanged-IsSpent _ (activate_social-IsSpent now id provider)
  run_transaction-IsSpent (update_password now id password_hash) =
      or_unchanged-IsSpent _ (update_password-IsSpent now id password_hash)
  run_transaction-IsSpent (disable now id) = or_unchanged-IsSpent _ (disable-IsSpent now id)
  run_transaction-IsSpent (disable_member now org_id id) =
      or_unchanged-IsSpent _ (disable_member-IsSpent now org_id id)
  run_transaction-IsSpent (enable_member now org_id id) =
      or_unchanged-IsSpent _ (enable_member-IsSpent now org_id id)
  run_transaction-IsSpent (save_refresh id new expires_at) =
      or_unchanged-IsSpent _ (save_refresh-IsSpent id new expires_at)
  run_transaction-IsSpent (rotate_refresh now old_hash new_hash id expires_at) =
      or_unchanged-IsSpent _ (rotate_refresh-IsSpent now old_hash new_hash id expires_at)
  run_transaction-IsSpent (revoke_refresh now old_hash) = spent
  run_transaction-IsSpent (revoke_user_refresh now id) = spent
  run_transaction-IsSpent (cleanup_refresh before) = spent

run_transactions-IsSpent :
    (hash : String) (ts : List Transaction) (db : Accounts)
    → IsSpent hash db.auth_tokens
    → IsSpent hash (run_transactions ts db).auth_tokens
unfolding run_transactions
run_transactions-IsSpent hash [] db spent = spent
run_transactions-IsSpent hash (t ∷ ts) db spent =
    run_transactions-IsSpent hash ts (run_transaction t db)
      (run_transaction-IsSpent hash db spent t)

-- A token that has activated a login, verified an address or reset a password does none of the
-- three again: at any later time each of the three gives not_found, after any sequence, with any
-- arguments and errors, of these transactions: the creation of a token for any subject, the three
-- uses, ActivateUserFromVerifiedSocialEmail, UpdateUserPassword, DisableCurrentUser,
-- DisableMemberUser, EnableMemberUser, and the saving, rotation, revocation and cleanup of refresh
-- tokens.
pub use_token-use_token :
    (purpose : Use) (now : Time) (hash : String) (db db' : Accounts)
    → use_token purpose now hash db ≡ ok db'
    → (between : List Transaction) (purpose' : Use) (later : Time)
    → use_token purpose' later hash (run_transactions between db') ≡ err not_found
use_token-use_token purpose now hash db db' h between purpose' later =
    let (consumed, was, same) = use_token-eq-ok purpose now hash db db' h in
    use_token_spent purpose' later hash (run_transactions between db') (
      run_transactions-IsSpent hash between db' (
        subst (IsSpent hash) (sym same)
          (consume-IsSpent now hash (purpose_of purpose) "" consumed.0 db consumed.1 was)))
