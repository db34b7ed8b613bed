-- ===== src/Store/Accounts/Sessions.antt =====
-- internal/store/store.go: the refresh tokens, which hold a user's sessions.
use rtk_account_manager.Common.{
  ℕ, String, str_eq, Bool, false, ◌&&◌, ◌||◌, not, Option, none, some, is_some, List, [], ◌∷◌, ◌++◌,
  length, ltb, if◌then◌else◌, Time, Result, ok, ◌>>=◌, ◌>>◌, refuse_if, plain, not_found,
}
use rtk_account_manager.Store.Accounts.{
  UserRow, RefreshToken, Accounts, user_key, find_enabled, revoke_of_user,
}
use rtk_account_manager.Store.Rows.{find_row}
use rtk_account_manager.Store.Selection.{filter_by}
use rtk_account_manager.Store.Tables.{or_not_found}

abbrev pub refresh_key : RefreshToken → String
refresh_key t = t.token_hash

-- JOIN users u … WHERE u.disabled_at IS NULL AND u.signup_pending_verification = false
abbrev pub may_refresh : Option UserRow → Bool
may_refresh none = false
may_refresh (some r) = not r.user.signup_pending_verification

-- The conditions on a token that is exchanged.
unfoldable pub is_active : Time → List UserRow → RefreshToken → Bool
is_active now users t =
    not (is_some t.revoked_at)
    && ltb now.nanos t.expires_at.nanos
    && may_refresh (find_enabled t.user_id users)

abbrev active_user : Time → List UserRow → RefreshToken → Option String
active_user now users t = if is_active now users t then some t.user_id else none

-- RefreshTokenActive
unfoldable pub refresh_token_active : Time → String → Accounts → Result String
unfolding is_active
refresh_token_active now hash db =
    or_not_found (find_row refresh_key hash db.refresh_tokens) >>= λ t.
    or_not_found (active_user now db.users t)

-- INSERT INTO refresh_tokens: the hash is UNIQUE, and the user exists.
unfoldable pub insert_refresh : RefreshToken → Accounts → Result (List RefreshToken)
insert_refresh t db = do
  refuse_if (is_some (find_row refresh_key t.token_hash db.refresh_tokens))
      (plain "duplicate key value")
  refuse_if (not (is_some (find_row user_key t.user_id db.users))) (plain "foreign key violated")
  ok (db.refresh_tokens ++ t ∷ [])

abbrev pub new_refresh : String → String → Time → RefreshToken
new_refresh user_id hash expires_at = record {
  user_id = user_id;
  token_hash = hash;
  expires_at = expires_at;
  revoked_at = none;
}

-- SaveRefreshToken
unfoldable pub save_refresh_token : String → String → Time → Accounts → Result Accounts
save_refresh_token user_id hash expires_at db =
    insert_refresh (new_refresh user_id hash expires_at) db >>= λ tokens.
    ok (record db { refresh_tokens = tokens })

-- UPDATE refresh_tokens SET revoked_at = now() WHERE token_hash = $1 AND revoked_at IS NULL
unfoldable pub revoke_hash : Time → String → List RefreshToken → List RefreshToken
revoke_hash now hash [] = []
revoke_hash now hash (t ∷ tokens) =
    (if str_eq t.token_hash hash && not (is_some t.revoked_at)
      then record t { revoked_at = some now }
      else t)
    ∷ revoke_hash now hash tokens

-- RevokeRefreshToken
unfoldable pub revoke_refresh_token : Time → String → Accounts → Accounts
revoke_refresh_token now hash db = record db {
  refresh_tokens = revoke_hash now hash db.refresh_tokens;
}

-- RotateRefreshToken
unfoldable pub rotate_refresh_token :
    Time → String → String → String → Time → Accounts → Result Accounts
unfolding refresh_token_active
rotate_refresh_token now old_hash new_hash user_id expires_at db = do
  active_user_id ← refresh_token_active now old_hash db
  refuse_if (not (str_eq active_user_id user_id)) not_found
  save_refresh_token user_id new_hash expires_at (revoke_refresh_token now old_hash db)

-- RevokeUserRefreshTokens
unfoldable pub revoke_user_refresh_tokens : Time → String → Accounts → Accounts
revoke_user_refresh_tokens now user_id db = record db {
  refresh_tokens = revoke_of_user now user_id db.refresh_tokens;
}

-- expires_at < $1 OR (revoked_at IS NOT NULL AND revoked_at < $1)
abbrev is_disposable : Time → RefreshToken → Bool
is_disposable before t =
    ltb t.expires_at.nanos before.nanos
    || elim t.revoked_at [ none ↦ false | some at ↦ ltb at.nanos before.nanos ]

-- CleanupRefreshTokens, and how many rows it deletes
unfoldable pub cleanup_refresh_tokens : Time → Accounts → ℕ × Accounts
cleanup_refresh_tokens before db = (
  length (filter_by (is_disposable before) db.refresh_tokens),
  record db { refresh_tokens = filter_by (λ t. not (is_disposable before t)) db.refresh_tokens },
)
