-- ===== src/Store/Accounts/Passwords/Laws.antt =====
-- What the operations of Passwords have found and changed when they succeed.
use rtk_account_manager.Common.{
  String, ◌≡◌, refl, sym, ap, ◌∙◌, subst, Option, none, some, List, Time, Result, ok, >>=-eq-ok,
  >>-eq-ok, refuse_if, arith, not_found,
}
use rtk_account_manager.Model.User.{User}
use rtk_account_manager.Store.Accounts.{
  UserRow, AuthToken, Accounts, user_key, find_enabled, update_enabled, revoke_of_user, keep_if,
  is_enabled,
}
use rtk_account_manager.Store.Accounts.Members.{ensure_none_last, owned_organizations}
use rtk_account_manager.Store.Accounts.Tokens.{
  token_key, consumer_of, mark_consumed, consume_auth_token,
}
use rtk_account_manager.Store.Accounts.Passwords.{
  without_limit, verified, with_password, with_disabled, activate_login_token, verify_email_token,
  activate_user_from_verified_social_email, reset_password_with_token, update_user_password,
  disable_current_user,
}
use rtk_account_manager.Store.Rows.{find_row, update_row, find_row-key}
use rtk_account_manager.Store.Tables.{or_not_found}

pub or_not_found-eq-ok : {A : Type 0} (o : Option A) {a : A} → or_not_found o ≡ ok a → o ≡ some a
or_not_found-eq-ok none h = cc
or_not_found-eq-ok (some a) h = cc

-- The id of an enabled user that has been found.
pub find_enabled-id :
    (id : String) (users : List UserRow) (r : UserRow)
    → find_enabled id users ≡ some r
    → r.user.id ≡ id
unfolding find_enabled
find_enabled-id id users r found =
    find_row-key user_key id users r (row (find_row user_key id users) found)
  where
    row : (o : Option UserRow) → keep_if is_enabled o ≡ some r → o ≡ some r
    row none h = cc
    row (some q) h = ground (arith, h)

-- The row of an enabled user in a table that equals another.
enabled_row :
    (id : String) (users rows : List UserRow) (r : UserRow)
    → rows ≡ users
    → find_enabled id rows ≡ some r
    → (find_enabled r.user.id users ≡ some r) × (id ≡ r.user.id)
enabled_row id users rows r same found =
    let is_id = find_enabled-id id rows r found in
    (
      subst (λ t. find_enabled r.user.id t ≡ some r) same
          (subst (λ i. find_enabled i rows ≡ some r) (sym is_id) found),
      sym is_id,
    )

pub both_results :
    {A B : Type 0} (a a' : A) (b b' : B)
    → Path (Result (A × B)) (ok (a, b)) (ok (a', b'))
    → (a ≡ a') × (b ≡ b')
both_results a a' b b' h = (cc (h), cc (h))

pub ok-eq-ok : {A : Type 0} (a b : A) → Path (Result A) (ok a) (ok b) → a ≡ b
ok-eq-ok a b h = cc (h)

module _ (now : Time) (db : Accounts) where
  -- The token was in the table and allowed what it is used for; it alone is changed.
  pub consume_auth_token-eq-ok :
      (hash purpose scope : String) (user_id : String) (db' : Accounts)
      → consume_auth_token now hash purpose scope db ≡ ok (user_id, db')
      → (t : AuthToken) × (find_row token_key hash db.auth_tokens ≡ some t)
        × (consumer_of now purpose scope db.users t ≡ some user_id)
        × (db' ≡ record db { auth_tokens = mark_consumed now hash db.auth_tokens })
  unfolding consume_auth_token
  consume_auth_token-eq-ok hash purpose scope user_id db' h =
      let (t, there, rest) =
        >>=-eq-ok (or_not_found (find_row token_key hash db.auth_tokens)) _ h in
      let (id, allowed, last) =
        >>=-eq-ok (or_not_found (consumer_of now purpose scope db.users t)) _ rest in
      (t, or_not_found-eq-ok _ there, or_not_found-eq-ok _ allowed ∙ cc (last), cc (last))

  pub verify_email_token-eq-ok :
      (hash password_hash : String) (u : User) (db' : Accounts)
      → verify_email_token now hash password_hash db ≡ ok (u, db')
      → (r : UserRow) × (find_enabled r.user.id db.users ≡ some r)
        × (u ≡ without_limit (verified now r).user)
        × (db'.users
            ≡ update_enabled r.user.id
                (λ q. record (verified now q) { password_hash = password_hash })
                db.users)
  unfolding verify_email_token
  verify_email_token-eq-ok hash password_hash u db' h =
      let (consumed, was, rest) =
        >>=-eq-ok (consume_auth_token now hash "email_verification" "" db) _ h in
      let (t, there, allowed, same) =
        consume_auth_token-eq-ok hash "email_verification" "" consumed.0 consumed.1 was in
      let (r, there', last) =
        >>=-eq-ok (or_not_found (find_enabled consumed.0 consumed.1.users)) _ rest in
      let same_users = ap (λ (a : Accounts). a.users) same in
      let (found, is_id) =
        enabled_row consumed.0 db.users consumed.1.users r same_users
          (or_not_found-eq-ok _ there') in
      let (same_user, same_db) = both_results _ _ _ _ last in
      (
        r,
        found,
        sym same_user,
        sym (ap (λ (a : Accounts). a.users) same_db)
            ∙ ap (λ i. update_enabled i change consumed.1.users) is_id
            ∙ ap (update_enabled r.user.id change) same_users,
      )
    where
      change : UserRow → UserRow
      change q = record (verified now q) { password_hash = password_hash }

  pub activate_login_token-eq-ok :
      (hash : String) (u : User) (db' : Accounts)
      → activate_login_token now hash db ≡ ok (u, db')
      → (r : UserRow) × (find_enabled r.user.id db.users ≡ some r)
        × (u ≡ without_limit r.user)
        × (db'.users ≡ db.users)
  unfolding activate_login_token
  activate_login_token-eq-ok hash u db' h =
      let (consumed, was, rest) =
        >>=-eq-ok (consume_auth_token now hash "login_activation" "" db) _ h in
      let (t, there, allowed, same) =
        consume_auth_token-eq-ok hash "login_activation" "" consumed.0 consumed.1 was in
      let (r, there', last) =
        >>=-eq-ok (or_not_found (find_enabled consumed.0 consumed.1.users)) _ rest in
      let same_users = ap (λ (a : Accounts). a.users) same in
      let (found, is_id) =
        enabled_row consumed.0 db.users consumed.1.users r same_users
          (or_not_found-eq-ok _ there') in
      let (same_user, same_db) =
        both_results _ _ _ _
          (>>-eq-ok (refuse_if r.user.signup_pending_verification not_found) _ last).1 in
      (r, found, sym same_user, sym (ap (λ (a : Accounts). a.users) same_db) ∙ same_users)

  pub activate_user-eq-ok :
      (id provider : String) (u : User) (db' : Accounts)
      → activate_user_from_verified_social_email now id provider db ≡ ok (u, db')
      → (r : UserRow) × (find_enabled r.user.id db.users ≡ some r)
        × (u ≡ (verified now r).user)
        × (db'.users ≡ update_enabled r.user.id (verified now) db.users)
  unfolding activate_user_from_verified_social_email
  activate_user-eq-ok id provider u db' h =
      let (r, there, last) = >>=-eq-ok (or_not_found (find_enabled id db.users)) _ h in
      let (found, is_id) = enabled_row id db.users db.users r refl (or_not_found-eq-ok _ there) in
      let (same_user, same_db) = both_results _ _ _ _ last in
      (
        r,
        found,
        sym same_user,
        sym (ap (λ (a : Accounts). a.users) same_db)
            ∙ ap (λ i. update_enabled i (verified now) db.users) is_id,
      )

  pub reset_password_with_token-eq-ok :
      (hash password_hash : String) (email : String) (db' : Accounts)
      → reset_password_with_token now hash password_hash db ≡ ok (email, db')
      → (r : UserRow) × (find_enabled r.user.id db.users ≡ some r)
        × (db'.users ≡ update_enabled r.user.id (with_password now password_hash) db.users)
        × (db'.refresh_tokens ≡ revoke_of_user now r.user.id db.refresh_tokens)
  unfolding reset_password_with_token
  reset_password_with_token-eq-ok hash password_hash email db' h =
      let (consumed, was, rest) =
        >>=-eq-ok (consume_auth_token now hash "password_reset" "" db) _ h in
      let (t, there, allowed, same) =
        consume_auth_token-eq-ok hash "password_reset" "" consumed.0 consumed.1 was in
      let (r, there', last) =
        >>=-eq-ok (or_not_found (find_enabled consumed.0 consumed.1.users)) _ rest in
      let same_users = ap (λ (a : Accounts). a.users) same in
      let (found, is_id) =
        enabled_row consumed.0 db.users consumed.1.users r same_users
          (or_not_found-eq-ok _ there') in
      let (same_email, same_db) = both_results _ _ _ _ last in
      (
        r,
        found,
        sym (ap (λ (a : Accounts). a.users) same_db)
            ∙ ap (λ i. update_enabled i (with_password now password_hash) consumed.1.users) is_id
            ∙ ap (update_enabled r.user.id (with_password now password_hash)) same_users,
        sym (ap (λ (a : Accounts). a.refresh_tokens) same_db)
            ∙ ap (λ i. revoke_of_user now i consumed.1.refresh_tokens) is_id
            ∙ ap (λ (a : Accounts). revoke_of_user now r.user.id a.refresh_tokens) same,
      )

  pub update_user_password-eq-ok :
      (id password_hash : String) (db' : Accounts)
      → update_user_password now id password_hash db ≡ ok db'
      → (r : UserRow) × (find_enabled r.user.id db.users ≡ some r)
        × (r.user.id ≡ id)
        × (db'.users ≡ update_enabled r.user.id (with_password now password_hash) db.users)
        × (db'.refresh_tokens ≡ revoke_of_user now r.user.id db.refresh_tokens)
  unfolding update_user_password
  update_user_password-eq-ok id password_hash db' h =
      let (r, there, last) = >>=-eq-ok (or_not_found (find_enabled id db.users)) _ h in
      let (found, is_id) = enabled_row id db.users db.users r refl (or_not_found-eq-ok _ there) in
      let same_db = ok-eq-ok _ _ last in
      (
        r,
        found,
        sym is_id,
        sym (ap (λ (a : Accounts). a.users) same_db)
            ∙ ap (λ i. update_enabled i (with_password now password_hash) db.users) is_id,
        sym (ap (λ (a : Accounts). a.refresh_tokens) same_db)
            ∙ ap (λ i. revoke_of_user now i db.refresh_tokens) is_id,
      )

  pub disable_current_user-eq-ok :
      (id : String) (db' : Accounts)
      → disable_current_user now id db ≡ ok db'
      → (db'.users ≡ update_row user_key id (with_disabled now (some now)) db.users)
        × (db'.refresh_tokens ≡ revoke_of_user now id db.refresh_tokens)
  unfolding disable_current_user
  disable_current_user-eq-ok id db' h =
      let (r, there, rest) = >>=-eq-ok (or_not_found (find_enabled id db.users)) _ h in
      let (checked, last) = >>-eq-ok (ensure_none_last db id (owned_organizations db id)) _ rest in
      let same_db = ok-eq-ok _ _ last in
      (
        sym (ap (λ (a : Accounts). a.users) same_db),
        sym (ap (λ (a : Accounts). a.refresh_tokens) same_db),
      )
