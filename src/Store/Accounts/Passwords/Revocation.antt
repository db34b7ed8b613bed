-- ===== src/Store/Accounts/Passwords/Revocation.antt =====
-- internal/store/store.go: the operations that end a user's sessions.
use rtk_account_manager.Common.{
  String, str_eq, eq_iff, ◌≡◌, ◌≢◌, ◌⊎◌, refl, sym, ap, ◌∙◌, subst, inl, inr, true, false,
  Bool-cases, Option, none, some, is_some, List, [], ◌∷◌, All, Time, Result, ok, err, not, ◌&&◌,
  ◌>>=◌, >>=-eq-ok, >>-eq-ok, not_found, arith, if◌then◌else◌,
}
use rtk_account_manager.Store.Accounts.{RefreshToken, Accounts, revoke_of_user}
use rtk_account_manager.Store.Accounts.Members.{ensure_not_last_active_owner, get_member}
use rtk_account_manager.Store.Accounts.Sessions.{
  refresh_key, is_active, refresh_token_active, rotate_refresh_token, revoke_user_refresh_tokens,
}
use rtk_account_manager.Store.Accounts.Passwords.{
  update_user_password, disable_current_user, disable_member_user,
}
use rtk_account_manager.Store.Accounts.Passwords.Laws.{
  update_user_password-eq-ok, disable_current_user-eq-ok, both_results, ok-eq-ok,
}
use rtk_account_manager.Store.Rows.{find_row}
use rtk_account_manager.Store.Rows.Distinct.{find_row-All}
use rtk_account_manager.Store.Tables.{or_not_found}

-- What ends the sessions of a user, but for a reset by a token.
pub data Revocation : Type 0 where
  by_update : String → Revocation
  by_disable : Revocation
  by_member_disable : String → Revocation
  by_revoking : Revocation

-- The tables after the operation on the user of the id.
unfoldable pub revoke_by : Revocation → Time → String → Accounts → Result Accounts
revoke_by (by_update password_hash) now id db = update_user_password now id password_hash db
revoke_by by_disable now id db = disable_current_user now id db
revoke_by (by_member_disable org_id) now id db =
    disable_member_user now org_id id db >>= λ out. ok out.1
revoke_by by_revoking now id db = ok (revoke_user_refresh_tokens now id db)

revoke_by-eq-ok :
    (r : Revocation) (now : Time) (id : String) (db db' : Accounts)
    → revoke_by r now id db ≡ ok db'
    → db'.refresh_tokens ≡ revoke_of_user now id db.refresh_tokens
unfolding revoke_by disable_member_user revoke_user_refresh_tokens
revoke_by-eq-ok (by_update password_hash) now id db db' h =
    let (r, found, is_id, same_users, same_tokens) =
      update_user_password-eq-ok now db id password_hash db' h in
    same_tokens ∙ ap (λ i. revoke_of_user now i db.refresh_tokens) is_id
revoke_by-eq-ok by_disable now id db db' h = (disable_current_user-eq-ok now db id db' h).1
revoke_by-eq-ok (by_member_disable org_id) now id db db' h =
    let (out, was, same) = >>=-eq-ok (disable_member_user now org_id id db) _ h in
    let rest = (>>-eq-ok (ensure_not_last_active_owner db org_id id) _ was).1 in
    let (member, there, last) = >>=-eq-ok (get_member _ org_id id) _ rest in
    sym (ap (λ (a : Accounts). a.refresh_tokens) (ok-eq-ok _ _ same))
    ∙ sym (ap (λ (a : Accounts). a.refresh_tokens) (both_results _ _ _ _ last).1)
revoke_by-eq-ok by_revoking now id db db' h =
    sym (ap (λ (a : Accounts). a.refresh_tokens) (ok-eq-ok _ _ h))

abbrev IsEnded : String → RefreshToken → Type 0
IsEnded id t = t.user_id ≡ id → is_some t.revoked_at ≡ true

revoked_if-IsEnded :
    (now : Time) (id : String) (t : RefreshToken)
    → IsEnded id (
        if str_eq t.user_id id && not (is_some t.revoked_at)
        then record t { revoked_at = some now }
        else t)
revoked_if-IsEnded now id t = elim (Bool-cases (str_eq t.user_id id)) [
  | inl it ↦ elim (Bool-cases (is_some t.revoked_at)) [
    | inl before ↦ rw (it, before) (λ h. before)
    | inr active ↦ rw (it, active) (λ h. refl)
  ]
  | inr other ↦ rw other (λ h. absurd (ground (arith, eq_iff t.user_id id, other, h)))
]

revoke_of_user-All :
    (now : Time) (id : String) (tokens : List RefreshToken)
    → All (IsEnded id) (revoke_of_user now id tokens)
unfolding revoke_of_user
revoke_of_user-All now id [] = tt
revoke_of_user-All now id (t ∷ tokens) =
    (revoked_if-IsEnded now id t, revoke_of_user-All now id tokens)

ended :
    (r : Revocation) (now : Time) (id : String) (db db' : Accounts)
    → revoke_by r now id db ≡ ok db'
    → All (IsEnded id) db'.refresh_tokens
ended r now id db db' h =
    subst (All (IsEnded id)) (sym (revoke_by-eq-ok r now id db db' h))
      (revoke_of_user-All now id db.refresh_tokens)

or_not_found-cases :
    {A : Type 0} (o : Option A) → (or_not_found o ≡ err not_found) ⊎ ((a : A) × (o ≡ some a))
or_not_found-cases none = inl refl
or_not_found-cases (some a) = inr (a, refl)

module _ (later : Time) (hash : String) (db : Accounts) where
  -- A lookup of a token fails with not_found, or gives the user of a token that has not been revoked.
  refresh_token_active-cases :
      (refresh_token_active later hash db ≡ err not_found)
      ⊎ ((t : RefreshToken) × (find_row refresh_key hash db.refresh_tokens ≡ some t)
          × (is_some t.revoked_at ≡ false)
          × (refresh_token_active later hash db ≡ ok t.user_id))
  unfolding refresh_token_active is_active
  refresh_token_active-cases =
      elim (or_not_found-cases (find_row refresh_key hash db.refresh_tokens)) [
        | inl missing ↦ inl (rw missing)
        | inr found ↦ elim (Bool-cases (is_active later db.users found.0)) [
          | inl active ↦ inr (found.0, found.1, ground (arith, active), rw (found.1, active))
          | inr ended ↦ inl (rw (found.1, ended))
        ]
      ]

-- After a change of the password by the user, after the user has been disabled by the user or by an
-- administrator of an organization, and after RevokeUserRefreshTokens, if that succeeded, no refresh
-- token of the user is active, whenever it is asked for, and none can be exchanged for another.
pub rotate_refresh_token-revoke_by :
    (r : Revocation) (now : Time) (id : String) (db db' : Accounts)
    → revoke_by r now id db ≡ ok db'
    → (later : Time) (hash new_hash : String) (expires_at : Time)
    → (refresh_token_active later hash db' ≢ ok id)
      × (rotate_refresh_token later hash new_hash id expires_at db' ≡ err not_found)
unfolding rotate_refresh_token
rotate_refresh_token-revoke_by r now id db db' h later hash new_hash expires_at =
    elim (refresh_token_active-cases later hash db') [
      | inl missing ↦ (λ active. cc (missing, active), rw missing)
      | inr found ↦
          let (t, there, unrevoked, is_ok) = found in
          let other : t.user_id ≢ id = λ same. cc (
            unrevoked,
            find_row-All refresh_key (IsEnded id) hash _ t (ended r now id db db' h) there same,
          ) in
          (
            λ active. other (ok-eq-ok _ _ (sym is_ok ∙ active)),
            rw is_ok (ground (arith, eq_iff t.user_id id, other)),
          )
    ]
