-- ===== src/Tests/Accounts.antt =====
-- Users, tokens and sessions on sample tables.
use rtk_account_manager.Common.{
  String, ◌≡◌, ◌≢◌, refl, true, false, none, some, [], ◌∷◌, pos, Result, ok, err, not_found,
}
use rtk_account_manager.Store.Rows.{find_row}
use rtk_account_manager.Store.Selection.{filter_by}
use rtk_account_manager.Store.Accounts.{
  UserRow, AuthToken, RefreshToken, OrganizationMember, Accounts, find_enabled,
}
use rtk_account_manager.Store.Accounts.Members.{
  ensure_not_last_active_owner, ensure_none_last, owned_organizations,
}
use rtk_account_manager.Store.Accounts.Sessions.{refresh_token_active, rotate_refresh_token}
use rtk_account_manager.Store.Accounts.Tokens.{consumer_of, mark_consumed, consume_auth_token}
use rtk_account_manager.Store.Accounts.Passwords.{disable_current_user, reset_password_with_token}
use rtk_account_manager.Store.Accounts.Passwords.Revocation.{
  by_disable, revoke_by, rotate_refresh_token-revoke_by,
}
use rtk_account_manager.Store.Accounts.Uses.{
  reset, activate, tables, use_token, use_for, update_password, run_transactions,
}
use rtk_account_manager.Store.Accounts.Uses.Once.{use_token-use_token}
use rtk_account_manager.Tests.Samples.{after}

abbrev pub ann : UserRow
ann = record {
  user = record {
    id = "u-1";
    email = "ann@example.com";
    display_name = some "Ann";
    email_verified = true;
    email_verified_at = some (after 1);
    signup_pending_verification = false;
    developer_cloud_limit = pos 3;
    created_at = after 0;
    updated_at = after 1;
    disabled_at = none;
  };
  password_hash = "h-1";
}

abbrev pub bob : UserRow
bob = record {
  user = record ann.user { id = "u-2"; email = "bob@example.com"; display_name = none };
  password_hash = "h-2";
}

abbrev reset_token : AuthToken
reset_token = record {
  user_id = some "u-1";
  subject_type = "user";
  subject_id = "u-1";
  purpose = "password_reset";
  scope = "";
  token_hash = "t-1";
  expires_at = after 100;
  consumed_at = none;
  created_at = after 2;
}

abbrev session : RefreshToken
session = record { user_id = "u-1"; token_hash = "r-1"; expires_at = after 1000; revoked_at = none }

abbrev owner : String → OrganizationMember
owner user_id = record {
  organization_id = "o-1";
  user_id = user_id;
  role = "owner";
  access_scope = "";
  created_at = after 0;
  updated_at = after 0;
  disabled_at = none;
}

abbrev pub accounts : Accounts
accounts = record {
  users = ann ∷ bob ∷ [];
  auth_tokens = reset_token ∷ [];
  refresh_tokens = session ∷ [];
  members = owner "u-1" ∷ owner "u-2" ∷ [];
  holds = [];
  audit_events = [];
  emails = [];
}

-- What an operation gives at a time, or the tables as they were.
abbrev or_same : Result Accounts → Accounts
or_same (err e) = accounts
or_same (ok db) = db

-- Ann is disabled, since Bob is another owner; her session had been active.
disabled_ann :
    revoke_by by_disable (after 10) "u-1" accounts
    ≡ ok (or_same (disable_current_user (after 10) "u-1" accounts))
unfolding revoke_by disable_current_user find_enabled find_row ensure_none_last
    ensure_not_last_active_owner owned_organizations filter_by
disabled_ann = refl

was_active : refresh_token_active (after 9) "r-1" accounts ≡ ok "u-1"
unfolding refresh_token_active find_row find_enabled
was_active = refl

rotate_refresh_token-revoke_by_example :
    (refresh_token_active
        (after 20)
        "r-1"
        (or_same (disable_current_user (after 10) "u-1" accounts))
      ≢ ok "u-1")
    × (rotate_refresh_token
          (after 20)
          "r-1"
          "r-2"
          "u-1"
          (after 2000)
          (or_same (disable_current_user (after 10) "u-1" accounts))
        ≡ err not_found)
rotate_refresh_token-revoke_by_example =
    rotate_refresh_token-revoke_by by_disable (after 10) "u-1" accounts
      (or_same (disable_current_user (after 10) "u-1" accounts)) disabled_ann (after 20) "r-1" "r-2"
      (after 2000)

abbrev reset_accounts : Accounts
reset_accounts = or_same (tables (reset_password_with_token (after 10) "t-1" "h-3" accounts))

did_reset : use_token (reset "h-3") (after 10) "t-1" accounts ≡ ok reset_accounts
unfolding use_token reset_password_with_token consume_auth_token consumer_of mark_consumed
    find_enabled find_row
did_reset = refl

use_token-use_token_example :
    use_token activate (after 12) "t-1" (
      run_transactions
        (update_password (after 11) "u-1" "h-4" ∷ use_for (reset "h-5") (after 11) "t-1" ∷ [])
        reset_accounts)
    ≡ err not_found
use_token-use_token_example =
    use_token-use_token (reset "h-3") (after 10) "t-1" accounts reset_accounts did_reset
      (update_password (after 11) "u-1" "h-4" ∷ use_for (reset "h-5") (after 11) "t-1" ∷ [])
      activate (after 12)
