-- ===== src/Store/Email/Laws.antt =====
-- The cases of a statement on the table of emails.
use rtk_account_manager.Common.{
  String, ◌≡◌, refl, ◌⊎◌, inl, inr, Bool, true, Bool-cases, Option, none, some, Option-cases, List,
  [], ◌∷◌, ◌++◌, Time, Result, ok, >>=-eq-ok, >>-eq-ok, refuse_if, not, any, str_eq, arith,
}
use rtk_account_manager.Email.{Bytes, Cipher, encrypt}
use rtk_account_manager.Model.Email.{EmailOutbox}
use rtk_account_manager.Store.Rows.{find_row, update_row}
use rtk_account_manager.Store.Email.{
  EmailOutboxInput, EmailOutboxTransitionInput, email_key, transitioned, enqueued_row,
  is_insertable, insert_email, insert_sealed, enqueue_email, transition_email_outbox,
  update_claimed, keeps_payload_rule, is_claimed_at,
}

module _ (rows : List EmailOutbox) where
  -- A transition leaves the table alone or changes the row that is being sent at that attempt.
  pub transition-cases :
      (accepts : Bytes → Bool) (inp : EmailOutboxTransitionInput) (was_applied : Bool)
      (rows' : List EmailOutbox)
      → transition_email_outbox accepts rows inp ≡ ok (was_applied, rows')
      → (rows' ≡ rows)
        ⊎ ((m : EmailOutbox) × (find_row email_key inp.id rows ≡ some m)
            × (is_claimed_at m inp.from_attempt ≡ true)
            × (keeps_payload_rule (transitioned inp m) ≡ true)
            × (rows' ≡ update_row email_key inp.id (transitioned inp) rows))
  unfolding transition_email_outbox
  transition-cases accepts inp was_applied rows' e =
      by_row (find_row email_key inp.id rows) refl (>>-eq-ok _ _ e).1
    where
      by_row :
          (o : Option EmailOutbox)
          → find_row email_key inp.id rows ≡ o
          → update_claimed inp rows o ≡ ok (was_applied, rows')
          → (rows' ≡ rows)
            ⊎ ((m : EmailOutbox) × (find_row email_key inp.id rows ≡ some m)
                × (is_claimed_at m inp.from_attempt ≡ true)
                × (keeps_payload_rule (transitioned inp m) ≡ true)
                × (rows' ≡ update_row email_key inp.id (transitioned inp) rows))
      by_row none found r = inl (ground (arith, r))
      by_row (some m) found r = elim (Bool-cases (is_claimed_at m inp.from_attempt)) [
        | inl claimed ↦ elim (Bool-cases (keeps_payload_rule (transitioned inp m))) [
          | inl kept ↦ inr (m, found, claimed, kept, ground (arith, r, claimed, kept))
          | inr broken ↦ ground (arith, r, claimed, broken)
        ]
        | inr other ↦ inl (ground (arith, r, other))
      ]

  pub enqueue-cases :
      (c : Option Cipher) (random : Result Bytes) (id : String) (now : Time)
      (inp : EmailOutboxInput) (rows' : List EmailOutbox)
      → enqueue_email c random id now inp rows ≡ ok rows'
      → (rows' ≡ rows)
        ⊎ ((nonce : Bytes) × (ciphertext : Bytes) × (find_row email_key id rows ≡ none)
            × (rows' ≡ rows ++ enqueued_row id now inp nonce ciphertext ∷ []))
  unfolding enqueue_email insert_sealed insert_email
  enqueue-cases none random id now inp rows' e = cc
  enqueue-cases (some c) random id now inp rows' e =
      let (sealed, encrypted, rest) =
        >>=-eq-ok (encrypt (some c) random inp.payload) (insert_sealed id now inp rows) e in
      by_insert sealed.0 sealed.1
        (>>-eq-ok (refuse_if (not (is_insertable inp)) _)
          (insert_email rows (enqueued_row id now inp sealed.0 sealed.1)) rest).1
    where
      by_insert :
          (nonce ciphertext : Bytes)
          → insert_email rows (enqueued_row id now inp nonce ciphertext) ≡ ok rows'
          → (rows' ≡ rows)
            ⊎ ((nonce : Bytes) × (ciphertext : Bytes) × (find_row email_key id rows ≡ none)
                × (rows' ≡ rows ++ enqueued_row id now inp nonce ciphertext ∷ []))
      by_insert nonce ciphertext r =
          elim (Bool-cases (any (λ x. str_eq x.idempotency_key inp.idempotency_key) rows)) [
            | inl e ↦ inl (ground (arith, r, e))
            | inr e ↦ elim (Option-cases (find_row email_key id rows)) [
              | inl new ↦ inr (nonce, ciphertext, new, ground (arith, r, e, new))
              | inr (m, taken) ↦ ground (arith, r, e, taken)
            ]
          ]
