-- ===== src/Store/Accounts.antt =====
-- internal/store/store.go: the tables of users and of their tokens, and how users are read. Of a
-- table the columns are kept that a modelled statement reads or writes, and no surrogate key.
pub mod Members
pub mod Tokens
pub mod Sessions
pub mod Passwords
pub mod Uses
use rtk_account_manager.Common.{
  String, str_eq, Bool, true, false, ◌&&◌, not, Option, none, some, is_some, List, [], ◌∷◌,
  if◌then◌else◌, Time, Result, ◌>>=◌, ok,
}
use rtk_account_manager.Model.{JsonMap}
use rtk_account_manager.Model.User.{User}
use rtk_account_manager.Model.Email.{EmailOutbox}
use rtk_account_manager.Store.Rows.{find_row, update_row}
use rtk_account_manager.Store.Tables.{or_not_found}

pub record UserRow : Type 0 where
  pub user : User
  pub password_hash : String

pub record AuthToken : Type 0 where
  pub user_id : Option String
  pub subject_type : String
  pub subject_id : String
  pub purpose : String
  pub scope : String
  pub token_hash : String
  pub expires_at : Time
  pub consumed_at : Option Time
  pub created_at : Time

pub record RefreshToken : Type 0 where
  pub user_id : String
  pub token_hash : String
  pub expires_at : Time
  pub revoked_at : Option Time

pub record OrganizationMember : Type 0 where
  pub organization_id : String
  pub user_id : String
  pub role : String
  pub access_scope : String
  pub created_at : Time
  pub updated_at : Time
  pub disabled_at : Option Time

-- A membership that is disabled until its user proves the address.
pub record ActivationHold : Type 0 where
  pub organization_id : String
  pub user_id : String
  pub disabled_at : Time
  pub updated_at : Time

pub record AuditEvent : Type 0 where
  pub event_type : String
  pub actor_user_id : Option String
  pub subject_type : String
  pub subject_id : String
  pub payload : JsonMap

pub record Accounts : Type 0 where
  pub users : List UserRow
  pub auth_tokens : List AuthToken
  pub refresh_tokens : List RefreshToken
  pub members : List OrganizationMember
  pub holds : List ActivationHold
  pub audit_events : List AuditEvent
  pub emails : List EmailOutbox

abbrev pub user_key : UserRow → String
user_key r = r.user.id

abbrev pub email_of : UserRow → String
email_of r = r.user.email

-- disabled_at IS NULL
abbrev pub is_enabled : UserRow → Bool
is_enabled r = not (is_some r.user.disabled_at)

-- … AND test
abbrev pub keep_if : (UserRow → Bool) → Option UserRow → Option UserRow
keep_if test none = none
keep_if test (some r) = if test r then some r else none

-- FROM users WHERE id = $1 AND disabled_at IS NULL
unfoldable pub find_enabled : String → List UserRow → Option UserRow
find_enabled id users = keep_if is_enabled (find_row user_key id users)

-- FROM users WHERE email = $1 AND disabled_at IS NULL; the column is UNIQUE
unfoldable pub find_enabled_by_email : String → List UserRow → Option UserRow
find_enabled_by_email email users = keep_if is_enabled (find_row email_of email users)

-- GetUserPasswordByID
unfoldable pub get_user_password_by_id : Accounts → String → Result (User × String)
get_user_password_by_id db user_id =
    or_not_found (find_enabled user_id db.users) >>= λ r. ok (r.user, r.password_hash)

-- GetUserPassword
unfoldable pub get_user_password : Accounts → String → Result (User × String)
get_user_password db email =
    or_not_found (find_enabled_by_email email db.users) >>= λ r. ok (r.user, r.password_hash)

-- GetUser
unfoldable pub get_user : Accounts → String → Result User
get_user db user_id = or_not_found (find_enabled user_id db.users) >>= λ r. ok r.user

-- GetUserByEmail; `normalize` is ToLower after TrimSpace.
unfoldable pub get_user_by_email : (String → String) → Accounts → String → Result User
get_user_by_email normalize db email =
    or_not_found (find_enabled_by_email (normalize email) db.users) >>= λ r. ok r.user

-- UPDATE users SET … WHERE id = $1 AND disabled_at IS NULL
unfoldable pub update_enabled : String → (UserRow → UserRow) → List UserRow → List UserRow
update_enabled id f users = update_row user_key id (λ r. if is_enabled r then f r else r) users

-- UPDATE refresh_tokens SET revoked_at = now() WHERE user_id = $1 AND revoked_at IS NULL
unfoldable pub revoke_of_user : Time → String → List RefreshToken → List RefreshToken
revoke_of_user now user_id [] = []
revoke_of_user now user_id (t ∷ tokens) =
    (if str_eq t.user_id user_id && not (is_some t.revoked_at)
      then record t { revoked_at = some now }
      else t)
    ∷ revoke_of_user now user_id tokens
