-- ===== src/Store/Accounts/Tokens.antt =====
-- internal/store/store.go: the tokens that a user gets by mail, made and consumed. An error undoes
-- the statements before it, since each function is a transaction.
use rtk_account_manager.Common.{
  ℕ, ◌+◌, ◌*◌, String, str_eq, Bool, true, false, ◌&&◌, not, Option, none, some, is_some, List, [],
  ◌∷◌, ◌++◌, length, ltb, leb, if◌then◌else◌, Time, Result, ok, ◌>>=◌, ◌>>◌, refuse_if, plain,
}
use rtk_account_manager.Channel.Fields.{contains}
use rtk_account_manager.Email.{Bytes, Cipher}
use rtk_account_manager.Store.Accounts.{
  UserRow, AuthToken, Accounts, keep_if, find_enabled, find_enabled_by_email,
}
use rtk_account_manager.Store.Email.{EmailOutboxInput, enqueue_email}
use rtk_account_manager.Store.Rows.{find_row}
use rtk_account_manager.Store.Selection.{filter_by}
use rtk_account_manager.Store.Tables.{or_not_found}

abbrev pub token_key : AuthToken → String
token_key t = t.token_hash

-- at.user_id = $1, where NULL is equal to nothing
abbrev pub is_of_user : AuthToken → String → Bool
is_of_user t id = elim t.user_id [ none ↦ false | some user_id ↦ str_eq user_id id ]

-- JOIN users u ON u.id = at.user_id … WHERE at.subject_id = u.id AND u.disabled_at IS NULL
abbrev pub token_owner : List UserRow → AuthToken → Option String → Option String
token_owner users t none = none
token_owner users t (some id) =
    if str_eq t.subject_id id && is_some (find_enabled id users) then some id else none

-- The WHERE of consumeAuthTokenTx, and the user that it returns.
unfoldable pub consumer_of : Time → String → String → List UserRow → AuthToken → Option String
consumer_of now purpose scope users t =
    if str_eq t.purpose purpose
      && str_eq t.subject_type "user"
      && str_eq t.scope scope
      && not (is_some t.consumed_at)
      && ltb now.nanos t.expires_at.nanos
    then token_owner users t t.user_id
    else none

-- UPDATE auth_tokens SET consumed_at = now() WHERE token_hash = $1
unfoldable pub mark_consumed : Time → String → List AuthToken → List AuthToken
mark_consumed now hash [] = []
mark_consumed now hash (t ∷ tokens) =
    (if str_eq t.token_hash hash then record t { consumed_at = some now } else t)
    ∷ mark_consumed now hash tokens

-- consumeAuthTokenTx
unfoldable pub consume_auth_token :
    Time → String → String → String → Accounts → Result (String × Accounts)
consume_auth_token now hash purpose scope db = do
  t ← or_not_found (find_row token_key hash db.auth_tokens)
  user_id ← or_not_found (consumer_of now purpose scope db.users t)
  ok (user_id, record db { auth_tokens = mark_consumed now hash db.auth_tokens })

-- subject_type = $1 AND subject_id = $2 AND purpose = $3 AND scope = $4
abbrev pub is_token_for : String → String → String → String → AuthToken → Bool
is_token_for subject_type subject_id purpose scope t =
    str_eq t.subject_type subject_type
    && str_eq t.subject_id subject_id
    && str_eq t.purpose purpose
    && str_eq t.scope scope

-- created_at > now() - make_interval(secs => window)
abbrev pub is_recent : Time → ℕ → AuthToken → Bool
is_recent now window t = ltb now.nanos (t.created_at.nanos + window * 1000000000)

-- UPDATE auth_tokens SET consumed_at = now() WHERE … AND consumed_at IS NULL
unfoldable pub withdraw : Time → (AuthToken → Bool) → List AuthToken → List AuthToken
withdraw now test [] = []
withdraw now test (t ∷ tokens) =
    (if test t && not (is_some t.consumed_at) then record t { consumed_at = some now } else t)
    ∷ withdraw now test tokens

-- The CHECKs on a token's purpose and subject.
purposes : List String
purposes =
    "email_verification" ∷ "password_reset" ∷ "login_activation" ∷ "brand_cloud_user_activation"
    ∷ []

subject_types : List String
subject_types = "user" ∷ "brand_cloud_user" ∷ []

-- The options of the store and the surroundings of a transaction: its time, the key of the emails,
-- and for a row of the table of emails the nonce and the uuid.
pub record TokenSettings : Type 0 where
  pub rate_limit_max : ℕ
  pub rate_limit_window : ℕ
  pub now : Time
  pub cipher : Option Cipher
  pub nonce : Result Bytes
  pub email_id : String

-- NULLIF($1, '')::uuid
abbrev pub null_if_empty : String → Option String
null_if_empty s = if str_eq s "" then none else some s

-- INSERT INTO auth_tokens: the CHECKs, then the UNIQUE hash.
unfoldable pub insert_token : AuthToken → List AuthToken → Result (List AuthToken)
unfolding purposes subject_types
insert_token t tokens = do
  refuse_if (not (contains purposes t.purpose && contains subject_types t.subject_type))
      (plain "check constraint violated")
  refuse_if (is_some (find_row token_key t.token_hash tokens)) (plain "duplicate key value")
  ok (tokens ++ t ∷ [])

-- if email != nil { s.enqueueEmailTx(ctx, tx, *email) }
unfoldable pub enqueue_if : TokenSettings → Option EmailOutboxInput → Accounts → Result Accounts
enqueue_if s none db = ok db
enqueue_if s (some inp) db =
    enqueue_email s.cipher s.nonce s.email_id s.now inp db.emails >>= λ emails.
    ok (record db { emails = emails })

-- createAuthTokenForSubjectWithEmailTx
unfoldable pub create_auth_token_for_subject_with_email :
    TokenSettings
    → String
    → String
    → String
    → String
    → String
    → String
    → Time
    → Option EmailOutboxInput
    → Accounts
    → Result Accounts
create_auth_token_for_subject_with_email s subject_type subject_id user_id purpose scope hash
      expires_at email db =
    do
      let same = is_token_for subject_type subject_id purpose scope
      let recent = filter_by (λ t. same t && is_recent s.now s.rate_limit_window t) db.auth_tokens
      refuse_if (leb s.rate_limit_max (length recent)) (plain "rate limited")
      tokens ←
          insert_token
            (record {
              user_id = null_if_empty user_id;
              subject_type = subject_type;
              subject_id = subject_id;
              purpose = purpose;
              scope = scope;
              token_hash = hash;
              expires_at = expires_at;
              consumed_at = none;
              created_at = s.now;
            })
            (withdraw s.now same db.auth_tokens)
      enqueue_if s email (record db { auth_tokens = tokens })

-- CreateAuthTokenAndEmail, and without an email CreateEmailVerificationToken,
-- CreatePasswordResetToken and CreateLoginActivationToken
unfoldable pub create_auth_token :
    TokenSettings
    → String
    → String
    → String
    → Time
    → Option EmailOutboxInput
    → Accounts
    → Result Accounts
create_auth_token s user_id purpose hash expires_at email =
    create_auth_token_for_subject_with_email s "user" user_id user_id purpose "" hash expires_at
      email

-- The user, if the test does not hold of it.
abbrev find_unless : (UserRow → Bool) → Option UserRow → Option UserRow
find_unless test = keep_if (λ r. not (test r))

-- What the Create…TokenForEmail functions do for the user that they found: none gives false.
abbrev create_for_found :
    TokenSettings
    → String
    → String
    → Time
    → Option EmailOutboxInput
    → Accounts
    → Option UserRow
    → Result (Bool × Accounts)
create_for_found s purpose hash expires_at email db none = ok (false, db)
create_for_found s purpose hash expires_at email db (some r) =
    create_auth_token s r.user.id purpose hash expires_at email db >>= λ db'. ok (true, db')

-- CreateLoginActivationTokenForEmail(AndEmail)
unfoldable pub create_login_activation_token_for_email :
    (String → String)
    → TokenSettings
    → String
    → String
    → Time
    → Option EmailOutboxInput
    → Accounts
    → Result (Bool × Accounts)
create_login_activation_token_for_email normalize s address hash expires_at email db =
    create_for_found s "login_activation" hash expires_at email db (
      find_unless (λ r. r.user.signup_pending_verification)
        (find_enabled_by_email (normalize address) db.users))

-- CreatePasswordResetTokenForEmail(AndEmail)
unfoldable pub create_password_reset_token_for_email :
    TokenSettings
    → String
    → String
    → Time
    → Option EmailOutboxInput
    → Accounts
    → Result (Bool × Accounts)
create_password_reset_token_for_email s address hash expires_at email db =
    create_for_found s "password_reset" hash expires_at email db
      (find_enabled_by_email address db.users)

-- CreateEmailVerificationTokenForEmail(AndEmail)
unfoldable pub create_email_verification_token_for_email :
    TokenSettings
    → String
    → String
    → Time
    → Option EmailOutboxInput
    → Accounts
    → Result (Bool × Accounts)
create_email_verification_token_for_email s address hash expires_at email db =
    create_for_found s "email_verification" hash expires_at email db
      (find_unless (λ r. r.user.email_verified) (find_enabled_by_email address db.users))
