-- ===== src/Worker/Email/Deliveries.antt =====
-- One delivery of an email that a claim has returned.
use rtk_account_manager.Common.{
  ◌+◌, String, eq_iff, ◌≡◌, refl, ap, ◌∙◌, ◌↔◌, Bool, true, false, ◌&&◌, Option, none, some,
  is_some, List, Time, Bool-cases, inl, inr, Result, ok, err, GoError, ltb, arith,
}
use rtk_account_manager.Email.{Payload, Message, decrypt, is_transient_delivery}
use rtk_account_manager.Model.Email.{EmailOutboxStatus, EmailOutbox, is_closed}
use rtk_account_manager.Store.Rows.{find_row, update_row, find_row-update_row}
use rtk_account_manager.Store.Email.{
  EmailOutboxTransitionInput, email_key, transitioned, transition_email_outbox, keeps_payload_rule,
  accepts_error, is_claimed_at,
}
use rtk_account_manager.Store.Email.Diagram.{is_result}
use rtk_account_manager.Worker.Email.{
  Service, Mailer, Outcome, sanitize_error, transition, dead_letter, retry, expire, finish,
  choose_delivery, after_send, after_render, after_decrypt, bytes_of, deliver, start_delivery,
  is_expired,
}

-- A round without faults: no context has ended, the database answers, and it takes every
-- sanitized error as a text.
pub record IsReliable (e : Mailer) : Type 0 where
  pub no_claim_error : e.claim_error ≡ none
  pub no_transition_error : (id : String) → e.transition_error id ≡ none
  pub no_context_error : (id : String) → e.context_error id ≡ none
  pub texts : (x : GoError) → e.accepts (sanitize_error (e.error_text x)) ≡ true

-- What a delivery asks the table for.
abbrev IsFor : EmailOutbox → EmailOutboxTransitionInput → Type 0
IsFor m inp =
    (inp.id ≡ m.id)
    × (inp.from_attempt ≡ m.attempt_count)
    × (is_result inp.status ≡ true)
    × (inp.clear_payload ≡ is_closed inp.status)

-- The test after a failed Send.
abbrev pub may_retry : Service → EmailOutbox → GoError → Bool
may_retry s m x = is_transient_delivery x && ltb (m.attempt_count + 1) s.max_attempts

module _ (s : Service) (e : Mailer) (now : Time) (m : EmailOutbox)
    (Q : EmailOutboxTransitionInput × Option Message → Type 0) where
  -- The ways in which a delivery may end, each with the message that it has sent.
  pub choose_delivery-cases :
      (is_expired s e m.expires_at now ≡ true → Q (expire s e m now, none))
      → (is_expired s e m.expires_at now ≡ false
          → (x : GoError) → Q (dead_letter s e m now x, none))
      → (is_expired s e m.expires_at now ≡ false
          → (mail : Message) → e.send mail ≡ none
          → Q (finish s e m now, some mail))
      → (is_expired s e m.expires_at now ≡ false
          → (mail : Message) (x : GoError) → e.send mail ≡ some x
          → may_retry s m x ≡ true
          → Q (retry s e m now x, some mail))
      → (is_expired s e m.expires_at now ≡ false
          → (mail : Message) (x : GoError) → e.send mail ≡ some x
          → may_retry s m x ≡ false
          → Q (dead_letter s e m now x, some mail))
      → Q (choose_delivery s e m now)
  unfolding choose_delivery
  choose_delivery-cases at_expiry unreadable at_send at_retry at_failure =
      elim (Bool-cases (is_expired s e m.expires_at now)) [
        | inl b ↦ rw b (at_expiry b)
        | inr b ↦ rw b (
            by_payload b
              (decrypt e.cipher (bytes_of m.payload_nonce) (bytes_of m.payload_ciphertext)))
      ]
    where
      by_answer :
          is_expired s e m.expires_at now ≡ false
          → (mail : Message) (answer : Option GoError) → e.send mail ≡ answer
          → Q (after_send s e m now answer, some mail)
      by_answer b mail none answers = at_send b mail answers
      by_answer b mail (some x) answers = elim (Bool-cases (may_retry s m x)) [
        | inl t ↦ rw t (at_retry b mail x answers t)
        | inr t ↦ rw t (at_failure b mail x answers t)
      ]

      by_mail :
          is_expired s e m.expires_at now ≡ false
          → (mail : Result Message) → Q (after_render s e m now mail)
      by_mail b (err x) = unreadable b x
      by_mail b (ok mail) = by_answer b mail (e.send mail) refl

      by_payload :
          is_expired s e m.expires_at now ≡ false
          → (payload : Result Payload) → Q (after_decrypt s e m now payload)
      by_payload b (err x) = unreadable b x
      by_payload b (ok payload) = by_mail b (e.render m.id m.message_type payload)

-- A property of the four inputs is one of the input that a delivery chooses.
choose_delivery-All :
    (s : Service) (e : Mailer) (now : Time) (P : EmailOutboxTransitionInput → Type 0)
    (m : EmailOutbox)
    → P (expire s e m now)
    → P (finish s e m now)
    → ((x : GoError) → P (retry s e m now x) × P (dead_letter s e m now x))
    → P (choose_delivery s e m now).0
choose_delivery-All s e now P m at_expiry at_send at_error =
    choose_delivery-cases s e now m (λ c. P c.0) (λ b. at_expiry) (λ b x. (at_error x).1)
      (λ b mail h. at_send) (λ b mail x h t. (at_error x).0) (λ b mail x h t. (at_error x).1)

module _ (s : Service) (e : Mailer) (now : Time) (m : EmailOutbox) where
  pub choose_delivery-IsFor : IsFor m (choose_delivery s e m now).0
  unfolding dead_letter retry expire finish
  choose_delivery-IsFor =
      choose_delivery-All s e now (IsFor m) m (refl, refl, refl, refl) (refl, refl, refl, refl)
        (λ x. ((refl, refl, refl, refl), (refl, refl, refl, refl)))

  transition-applied :
      (rows : List EmailOutbox) (r : EmailOutbox) (inp : EmailOutboxTransitionInput)
      → IsReliable e
      → IsFor m inp
      → accepts_error e.accepts inp.last_error ≡ true
      → find_row email_key m.id rows ≡ some r
      → is_claimed_at r m.attempt_count ≡ true
      → (is_some r.payload_nonce && is_some r.payload_ciphertext) ≡ true
      → transition s e inp rows
        ≡ (ok (some inp.status), update_row email_key m.id (transitioned inp) rows)
  unfolding transition transition_email_outbox
  transition-applied rows r inp reliable (same_id, same_attempt, result, clears) text found claimed
        has_payload =
      rw (
        reliable.no_transition_error inp.id,
        transition,
        text,
        same_id,
        found,
        same_attempt,
        claimed,
        kept,
        transition_email_outbox,
      )
    where
      kept : keeps_payload_rule (transitioned inp r) ≡ true
      kept = ground (arith, clears, has_payload)

  choose_delivery-text :
      IsReliable e → accepts_error e.accepts (choose_delivery s e m now).0.last_error ≡ true
  unfolding dead_letter retry expire finish
  choose_delivery-text reliable =
      choose_delivery-All s e now (λ inp. accepts_error e.accepts inp.last_error ≡ true) m refl refl
        (λ x. (reliable.texts x, reliable.texts x))

  -- Without faults a delivery of a row that is being sent at its attempt changes this row.
  pub deliver_lem :
      (rows : List EmailOutbox) (r : EmailOutbox)
      → IsReliable e
      → find_row email_key m.id rows ≡ some r
      → is_claimed_at r m.attempt_count ≡ true
      → (is_some r.payload_nonce && is_some r.payload_ciphertext) ≡ true
      → let (inp, mail) = choose_delivery s e m now in
        start_delivery s e now m rows
        ≡ ((ok (some inp.status), mail), update_row email_key m.id (transitioned inp) rows)
  unfolding start_delivery deliver transition transition_email_outbox
  deliver_lem rows r reliable found claimed has_payload =
      rw (reliable.no_context_error m.id, start_delivery)
        (ap (λ done. ((done.0, (choose_delivery s e m now).1), done.1))
          (transition-applied rows r (choose_delivery s e m now).0 reliable choose_delivery-IsFor
            (choose_delivery-text reliable) found claimed has_payload))

  -- A delivery reports sent exactly when it has handed a message to the mail service and that has
  -- taken it, expired exactly when the row has expired, and retrying exactly when the service has
  -- refused a message with a transient error and another attempt is left.
  abbrev pub Reports : Outcome → Option Message → Type 0
  Reports outcome mail =
      ((outcome ≡ ok (some EmailOutboxStatus.sent))
        ↔ ((x : Message) × (mail ≡ some x) × (e.send x ≡ none)))
      × ((outcome ≡ ok (some EmailOutboxStatus.expired)) ↔ (is_expired s e m.expires_at now ≡ true))
      × ((outcome ≡ ok (some EmailOutboxStatus.retrying)) ↔ (
          (x : Message) × (f : GoError) × (mail ≡ some x)
          × (e.send x ≡ some f)
          × (may_retry s m f ≡ true)))

  choose_delivery-Reports :
      Reports (ok (some (choose_delivery s e m now).0.status)) (choose_delivery s e m now).1
  unfolding dead_letter retry expire finish
  choose_delivery-Reports =
      choose_delivery-cases s e now m (λ c. Reports (ok (some c.0.status)) c.1)
        (λ b. ((λ q. cc, λ (x, h, i). cc), (λ q. b, λ q. refl), (λ q. cc, λ (x, f, h, i, j). cc)))
        (λ b x. ((λ q. cc, λ (x, h, i). cc), (λ q. cc, λ q. cc), (λ q. cc, λ (x, f, h, i, j). cc)))
        (λ b mail h.
          ((λ q. (mail, refl, h), λ q. refl), (λ q. cc, λ q. cc), (λ q. cc, λ (x, f, g, i, j). cc)))
        (λ b mail x h t.
          ((λ q. cc, λ (y, g, i). cc), (λ q. cc, λ q. cc), (λ q. (mail, x, refl, h, t), λ q. refl)))
        (λ b mail x h t. (
          (λ q. cc, λ (y, g, i). cc),
          (λ q. cc, λ q. cc),
          (λ q. cc, λ (y, f, g, i, j). ground (arith, g, i, j, h, t)),
        ))

  -- Without faults, a delivery of a row that is being sent at its attempt with its payload reports
  -- sent exactly when it has handed a message to the mail service and that has taken it, expired
  -- exactly when the row has expired, and retrying exactly when the service has refused a message
  -- with a transient error and another attempt is left; and the row then has the status that it
  -- reports.
  pub start_delivery_lem :
      (rows : List EmailOutbox) (r : EmailOutbox)
      → IsReliable e
      → find_row email_key m.id rows ≡ some r
      → is_claimed_at r m.attempt_count ≡ true
      → (is_some r.payload_nonce && is_some r.payload_ciphertext) ≡ true
      → let ((outcome, mail), rows') = start_delivery s e now m rows in
        Reports outcome mail
        × (r' : EmailOutbox) × (find_row email_key m.id rows' ≡ some r')
        × (outcome ≡ ok (some r'.status))
  unfolding find_row
  start_delivery_lem rows r reliable found claimed has_payload =
      rw (deliver_lem rows r reliable found claimed has_payload) (
        choose_delivery-Reports,
        transitioned (choose_delivery s e m now).0 r,
        find_row-update_row email_key m.id m.id (transitioned (choose_delivery s e m now).0) rows
              (λ x. refl)
            ∙ ground (arith, found, eq_iff m.id m.id),
        refl,
      )
