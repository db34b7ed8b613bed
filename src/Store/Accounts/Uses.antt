-- ===== src/Store/Accounts/Uses.antt =====
-- internal/store/store.go: the transactions on the tokens that a user gets by mail, as one step.
pub mod Spent
pub mod Once
use rtk_account_manager.Common.{
  String, str_eq, eq_iff, ◌≡◌, refl, sym, ap, ◌∙◌, subst, inl, inr, Bool, true, false, Bool-cases,
  Option, none, some, is_some, List, [], ◌∷◌, ◌++◌, map, Time, Result, ok, err, not, ◌&&◌, ◌>>=◌,
  >>=-eq-ok, >>-eq-ok, refuse_if, plain, not_found, arith, if◌then◌else◌,
}
use mathlib.Core.Option
use rtk_account_manager.Model.User.{User}
use rtk_account_manager.Store.Accounts.{UserRow, AuthToken, Accounts, find_enabled}
use rtk_account_manager.Store.Accounts.Tokens.{
  TokenSettings, token_key, consumer_of, mark_consumed, consume_auth_token, withdraw, insert_token,
  enqueue_if, create_auth_token, create_auth_token_for_subject_with_email,
}
use rtk_account_manager.Store.Accounts.Passwords.{
  activate_login_token, verify_email_token, activate_user_from_verified_social_email,
  reset_password_with_token, update_user_password, disable_current_user, disable_member_user,
  enable_member_user,
}
use rtk_account_manager.Store.Accounts.Passwords.Laws.{
  consume_auth_token-eq-ok, or_not_found-eq-ok, ok-eq-ok, both_results,
}
use rtk_account_manager.Store.Accounts.Sessions.{
  save_refresh_token, rotate_refresh_token, revoke_refresh_token, revoke_user_refresh_tokens,
  cleanup_refresh_tokens,
}
use rtk_account_manager.Store.Email.{EmailOutboxInput, enqueue_email}
use rtk_account_manager.Store.Rows.{find_row, find_row-key}
use rtk_account_manager.Store.Tables.{or_not_found}
use rtk_account_manager.Store.Rows.Distinct.{find_row-append, find_row-map}

-- What a token is used for.
pub data Use : Type 0 where
  activate : Use
  verify : String → Use
  reset : String → Use

-- The tables after an operation that returns something with them.
abbrev pub tables : {A : Type 0} → Result (A × Accounts) → Result Accounts
tables (err e) = err e
tables (ok (a, db)) = ok db

unfoldable pub use_token : Use → Time → String → Accounts → Result Accounts
unfolding activate_login_token verify_email_token reset_password_with_token
use_token activate now hash db = tables (activate_login_token now hash db)
use_token (verify password_hash) now hash db = tables (verify_email_token now hash password_hash db)
use_token (reset password_hash) now hash db =
    tables (reset_password_with_token now hash password_hash db)

-- A transaction on the tables of users and tokens, at its time: createAuthTokenForSubjectWithEmailTx
-- with any arguments, the three uses of a token, ActivateUserFromVerifiedSocialEmail,
-- UpdateUserPassword, DisableCurrentUser, DisableMemberUser, EnableMemberUser and the transactions on
-- refresh tokens. Of SignupDeveloper and ProvisionBrandCloudAccount it is the creation of the token.
pub data Transaction : Type 0 where
  create :
      TokenSettings
      → (subject_type subject_id user_id purpose scope hash : String) → Time
      → Option EmailOutboxInput
      → Transaction
  use_for : Use → Time → String → Transaction
  activate_social : Time → String → String → Transaction
  update_password : Time → String → String → Transaction
  disable : Time → String → Transaction
  disable_member : Time → (org_id user_id : String) → Transaction
  enable_member : Time → (org_id user_id : String) → Transaction
  save_refresh : (user_id hash : String) → Time → Transaction
  rotate_refresh : Time → (old_hash new_hash user_id : String) → Time → Transaction
  revoke_refresh : Time → String → Transaction
  revoke_user_refresh : Time → String → Transaction
  cleanup_refresh : Time → Transaction

-- An error leaves the tables as they were.
abbrev pub or_unchanged : Accounts → Result Accounts → Accounts
or_unchanged db (err e) = db
or_unchanged db (ok db') = db'

unfoldable pub run_transaction : Transaction → Accounts → Accounts
unfolding use_token
run_transaction (create s subject_type subject_id user_id purpose scope hash expires_at email) db =
    or_unchanged db (
      create_auth_token_for_subject_with_email s subject_type subject_id user_id purpose scope hash
        expires_at email db)
run_transaction (use_for purpose now hash) db = or_unchanged db (use_token purpose now hash db)
run_transaction (activate_social now id provider) db =
    or_unchanged db (tables (activate_user_from_verified_social_email now id provider db))
run_transaction (update_password now id password_hash) db =
    or_unchanged db (update_user_password now id password_hash db)
run_transaction (disable now id) db = or_unchanged db (disable_current_user now id db)
run_transaction (disable_member now org_id id) db =
    or_unchanged db (tables (disable_member_user now org_id id db))
run_transaction (enable_member now org_id id) db =
    or_unchanged db (tables (enable_member_user now org_id id db))
run_transaction (save_refresh id hash expires_at) db =
    or_unchanged db (save_refresh_token id hash expires_at db)
run_transaction (rotate_refresh now old_hash new_hash id expires_at) db =
    or_unchanged db (rotate_refresh_token now old_hash new_hash id expires_at db)
run_transaction (revoke_refresh now hash) db = revoke_refresh_token now hash db
run_transaction (revoke_user_refresh now id) db = revoke_user_refresh_tokens now id db
run_transaction (cleanup_refresh before) db = (cleanup_refresh_tokens before db).1

unfoldable pub run_transactions : List Transaction → Accounts → Accounts
unfolding run_transaction
run_transactions [] db = db
run_transactions (t ∷ ts) db = run_transactions ts (run_transaction t db)
