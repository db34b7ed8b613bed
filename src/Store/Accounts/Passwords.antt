-- ===== src/Store/Accounts/Passwords.antt =====
-- internal/store/store.go and developer_brand_clouds.go: the operations that verify a user's address,
-- change the password or disable the user. Each is a transaction: an error leaves the tables alone.
pub mod Laws
pub mod Revocation
use rtk_account_manager.Common.{
  ℕ, String, str_eq, Bool, true, false, ◌&&◌, not, Option, none, some, is_some, List, [], ◌∷◌, ◌++◌,
  map, any, if◌then◌else◌, ℤ, pos, Time, time_equal, Result, ok, err, ◌>>=◌, ◌>>◌, refuse_if,
  not_found,
}
use rtk_account_manager.Common.Json.{Json}
use rtk_account_manager.Model.User.{User}
use rtk_account_manager.Store.Accounts.{
  UserRow, AuthToken, OrganizationMember, ActivationHold, AuditEvent, Accounts, user_key,
  find_enabled, update_enabled, revoke_of_user,
}
use rtk_account_manager.Store.Accounts.Members.{
  ensure_not_last_active_owner, ensure_none_last, owned_organizations, get_member,
}
use rtk_account_manager.Store.Accounts.Tokens.{consume_auth_token, withdraw, is_of_user}
use rtk_account_manager.Store.Rows.{update_row}
use rtk_account_manager.Store.Selection.{filter_by}
use rtk_account_manager.Store.Tables.{or_not_found}

-- COALESCE(t, now())
abbrev pub coalesce : Option Time → Time → Time
coalesce none now = now
coalesce (some t) now = t

-- user_id = $1 in an audit event, and its subject
abbrev pub user_event : String → String → List (String × Json) → AuditEvent
user_event event_type user_id payload = record {
  event_type = event_type;
  actor_user_id = some user_id;
  subject_type = "user";
  subject_id = user_id;
  payload = payload;
}

-- The user as a query returns it that leaves out developer_cloud_limit: Go's zero stands there.
abbrev pub without_limit : User → User
without_limit u = record u { developer_cloud_limit = pos 0 }

-- ActivateLoginToken
unfoldable pub activate_login_token : Time → String → Accounts → Result (User × Accounts)
activate_login_token now hash db = do
  (user_id, db') ← consume_auth_token now hash "login_activation" "" db
  r ← or_not_found (find_enabled user_id db'.users)
  refuse_if r.user.signup_pending_verification not_found
  ok (
    without_limit r.user,
    record db' {
      audit_events =
          db'.audit_events
          ++ user_event "login_activation_consumed" user_id (
              ("token_purpose", Json.string "login_activation")
              ∷ ("email", Json.string r.user.email)
              ∷ [])
            ∷ [];
    },
  )

-- The row whose address has been verified.
abbrev pub verified : Time → UserRow → UserRow
verified now r = record r {
  user = record r.user {
    email_verified = true;
    email_verified_at = some (coalesce r.user.email_verified_at now);
    signup_pending_verification = false;
    updated_at = now;
  };
}

-- The hold is of this membership, and the membership is as it was when it was held.
abbrev is_held : OrganizationMember → ActivationHold → Bool
is_held m h =
    str_eq m.organization_id h.organization_id
    && str_eq m.user_id h.user_id
    && elim m.disabled_at [ none ↦ false | some t ↦ time_equal t h.disabled_at ]
    && time_equal m.updated_at h.updated_at

-- WITH consumed_holds AS (DELETE … WHERE user_id = $1) UPDATE organization_members SET disabled_at =
-- NULL …
unfoldable pub release_holds : Time → String → Accounts → Accounts
release_holds now user_id db =
    let consumed = filter_by (λ h. str_eq h.user_id user_id) db.holds in
    record db {
      holds = filter_by (λ h. not (str_eq h.user_id user_id)) db.holds;
      members =
          map
            (λ m.
              if any (is_held m) consumed
              then record m { disabled_at = none; updated_at = now }
              else m)
            db.members;
    }

-- VerifyEmailToken
unfoldable pub verify_email_token : Time → String → String → Accounts → Result (User × Accounts)
unfolding release_holds
verify_email_token now hash password_hash db = do
  (user_id, db') ← consume_auth_token now hash "email_verification" "" db
  r ← or_not_found (find_enabled user_id db'.users)
  let change = λ (q : UserRow). record (verified now q) { password_hash = password_hash }
  let db'' =
      release_holds now user_id (record db' { users = update_enabled user_id change db'.users })
  ok (
    without_limit (change r).user,
    record db'' {
      audit_events =
          db''.audit_events
          ++ user_event "email_verified" user_id (
              ("token_purpose", Json.string "email_verification")
              ∷ ("signup_pending_verification", Json.boolean r.user.signup_pending_verification)
              ∷ [])
            ∷ [];
    },
  )

-- UPDATE auth_tokens SET consumed_at = … WHERE user_id = $1 AND purpose = 'email_verification' …
abbrev is_verification_of : String → AuthToken → Bool
is_verification_of user_id t = is_of_user t user_id && str_eq t.purpose "email_verification"

-- ActivateUserFromVerifiedSocialEmail; `provider` is the trimmed key.
unfoldable pub activate_user_from_verified_social_email :
    Time → String → String → Accounts → Result (User × Accounts)
unfolding release_holds
activate_user_from_verified_social_email now user_id provider db = do
  r ← or_not_found (find_enabled user_id db.users)
  let db' = release_holds now user_id (record db {
    users = update_enabled user_id (verified now) db.users;
    auth_tokens = withdraw now (is_verification_of user_id) db.auth_tokens;
  })
  ok (
    (verified now r).user,
    record db' {
      audit_events =
          db'.audit_events
          ++ user_event "email_verified" r.user.id (
              ("verification_source", Json.string "social_login")
              ∷ ("provider", Json.string provider)
              ∷ [])
            ∷ [];
    },
  )

-- SET password_hash = $2, updated_at = now()
abbrev pub with_password : Time → String → UserRow → UserRow
with_password now password_hash r = record r {
  user = record r.user { updated_at = now };
  password_hash = password_hash;
}

-- ResetPasswordWithToken
unfoldable pub reset_password_with_token :
    Time → String → String → Accounts → Result (String × Accounts)
reset_password_with_token now hash password_hash db = do
  (user_id, db') ← consume_auth_token now hash "password_reset" "" db
  r ← or_not_found (find_enabled user_id db'.users)
  ok (
    r.user.email,
    record db' {
      users = update_enabled user_id (with_password now password_hash) db'.users;
      refresh_tokens = revoke_of_user now user_id db'.refresh_tokens;
    },
  )

-- UpdateUserPassword; the trigger users_set_updated_at sets updated_at.
unfoldable pub update_user_password : Time → String → String → Accounts → Result Accounts
update_user_password now user_id password_hash db = do
  r ← or_not_found (find_enabled user_id db.users)
  ok (record db {
    users = update_enabled user_id (with_password now password_hash) db.users;
    refresh_tokens = revoke_of_user now user_id db.refresh_tokens;
  })

-- SET disabled_at = t; the trigger users_set_updated_at sets updated_at.
abbrev pub with_disabled : Time → Option Time → UserRow → UserRow
with_disabled now t r = record r { user = record r.user { disabled_at = t; updated_at = now } }

-- DisableCurrentUser
unfoldable pub disable_current_user : Time → String → Accounts → Result Accounts
disable_current_user now user_id db = do
  r ← or_not_found (find_enabled user_id db.users)
  ensure_none_last db user_id (owned_organizations db user_id)
  ok (record db {
    users = update_row user_key user_id (with_disabled now (some now)) db.users;
    refresh_tokens = revoke_of_user now user_id db.refresh_tokens;
  })

-- DisableMemberUser
unfoldable pub disable_member_user :
    Time → String → String → Accounts → Result ((OrganizationMember × UserRow) × Accounts)
disable_member_user now org_id user_id db = do
  ensure_not_last_active_owner db org_id user_id
  let db' = record db {
    users =
        update_row user_key user_id
          (λ r. with_disabled now (some (coalesce r.user.disabled_at now)) r) db.users;
    refresh_tokens = revoke_of_user now user_id db.refresh_tokens;
  }
  member ← get_member db' org_id user_id
  ok (member, db')

-- EnableMemberUser
unfoldable pub enable_member_user :
    Time → String → String → Accounts → Result ((OrganizationMember × UserRow) × Accounts)
enable_member_user now org_id user_id db = do
  before ← get_member db org_id user_id
  let db' = record db { users = update_row user_key user_id (with_disabled now none) db.users }
  member ← get_member db' org_id user_id
  ok (member, db')
