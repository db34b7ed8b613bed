-- ===== src/Worker/Email/Settling.antt =====
-- What one round without faults makes of each row.
use rtk_account_manager.Common.{
  suc, String, str_eq, eq_iff, ◌≡◌, ◌≢◌, refl, sym, subst, ap, ◌∙◌, Bool, true, false, ◌&&◌, some,
  is_some, Option-cases, Bool-cases, inl, inr, Result, List, [], ◌∷◌, map, length, Time, ok, err,
  All, arith,
}
use rtk_account_manager.Email.{Bytes}
use rtk_account_manager.Model.Email.{EmailOutbox}
use rtk_account_manager.Store.Rows.{find_row, update_row, find_row-update_row}
use rtk_account_manager.Store.Rows.Distinct.{Distinct, All-both}
use rtk_account_manager.Store.Selection.Laws.{All-imp}
use rtk_account_manager.Store.Selection.Members.{has_key}
use rtk_account_manager.Store.Email.{
  EmailOutboxTransitionInput, email_key, transition_email_outbox, transitioned, is_claimed_at,
}
use rtk_account_manager.Store.Email.Laws.{transition-cases}
use rtk_account_manager.Worker.Email.{
  Service, Mailer, Outcome, applied, transition, choose_delivery, deliver, start_delivery,
  deliver_all,
}
use rtk_account_manager.Worker.Email.Loop.{outcome_of}
use rtk_account_manager.Worker.Email.Deliveries.{choose_delivery-IsFor, IsReliable, deliver_lem}

-- A row that a claim has just returned, with its payload.
abbrev pub IsClaimed : List EmailOutbox → EmailOutbox → Type 0
IsClaimed rows m =
    (find_row email_key m.id rows ≡ some m)
    × (is_claimed_at m m.attempt_count ≡ true)
    × ((is_some m.payload_nonce && is_some m.payload_ciphertext) ≡ true)

abbrev pub is_ok : Outcome → Bool
is_ok (ok o) = true
is_ok (err x) = false

-- A transition leaves the table alone or updates the rows of one id.
transition-shape :
    (P : List EmailOutbox → Type 0) (accepts : Bytes → Bool) (inp : EmailOutboxTransitionInput)
    (was_applied : Bool) (rows rows' : List EmailOutbox)
    → P rows
    → P (update_row email_key inp.id (transitioned inp) rows)
    → transition_email_outbox accepts rows inp ≡ ok (was_applied, rows')
    → P rows'
transition-shape P accepts inp was_applied rows rows' same changed h =
    elim (transition-cases rows accepts inp was_applied rows' h) [
      | inl q ↦ subst P (sym q) same
      | inr (m, found, claimed, kept, q) ↦ subst P (sym q) changed
    ]

length-update_row :
    (id : String) (f : EmailOutbox → EmailOutbox) (rows : List EmailOutbox)
    → length (update_row email_key id f rows) ≡ length rows
unfolding update_row
length-update_row id f [] = refl
length-update_row id f (m ∷ rows) = ap suc (length-update_row id f rows)

module _ (s : Service) (e : Mailer) (now : Time) where
  -- The row of an email after its delivery.
  abbrev pub delivered : EmailOutbox → EmailOutbox
  delivered m = transitioned (choose_delivery s e m now).0 m

  -- A delivery leaves the table alone or updates the rows of its email.
  start_delivery-shape :
      (P : List EmailOutbox → Type 0) (m : EmailOutbox) (rows : List EmailOutbox)
      → P rows
      → P (
          update_row email_key
            (choose_delivery s e m now).0.id
            (transitioned (choose_delivery s e m now).0)
            rows)
      → P (start_delivery s e now m rows).1
  unfolding start_delivery deliver transition
  start_delivery-shape P m rows same changed = elim (Option-cases (e.context_error m.id)) [
    | inr (x, h) ↦ rw (h, start_delivery) same
    | inl h ↦
        rw (h, start_delivery)
          (elim (Option-cases (e.transition_error inp.id)) [
            | inr (x, h') ↦ rw (h', deliver, transition) same
            | inl h' ↦
                rw (h', deliver, transition)
                  (by_result (transition_email_outbox e.accepts rows inp) refl)
          ])
  ]
    where
      inp : EmailOutboxTransitionInput
      inp = (choose_delivery s e m now).0

      by_result :
          (r : Result (Bool × List EmailOutbox))
          → transition_email_outbox e.accepts rows inp ≡ r
          → P (applied s e inp.status rows r).1
      by_result (err x) h = same
      by_result (ok (true, rows')) h =
          transition-shape P e.accepts inp true rows rows' same changed h
      by_result (ok (false, rows')) h =
          transition-shape P e.accepts inp false rows rows' same changed h

  -- A delivery leaves the rows of other emails alone.
  pub start_delivery-other :
      (m : EmailOutbox) (rows : List EmailOutbox) (id : String)
      → id ≢ m.id
      → find_row email_key id (start_delivery s e now m rows).1 ≡ find_row email_key id rows
  start_delivery-other m rows id n =
      start_delivery-shape (λ rows'. find_row email_key id rows' ≡ find_row email_key id rows) m
        rows refl
        (find_row-update_row email_key inp.id id (transitioned inp) rows (λ x. refl)
          ∙ ground (arith, apart, eq_iff inp.id id))
    where
      inp : EmailOutboxTransitionInput
      inp = (choose_delivery s e m now).0

      apart : id ≢ inp.id
      apart q = n (q ∙ (choose_delivery-IsFor s e now m).0)

  pub length-deliver_all :
      (ms rows : List EmailOutbox) → length (deliver_all s e now ms rows).1 ≡ length rows
  unfolding deliver_all
  length-deliver_all [] rows = refl
  length-deliver_all (m ∷ ms) rows =
      length-deliver_all ms (start_delivery s e now m rows).1
      ∙ start_delivery-shape (λ rows'. length rows' ≡ length rows) m rows refl
          (length-update_row _ _ rows)

  pub deliver_all-other :
      (id : String) (ms rows : List EmailOutbox)
      → All (λ m. id ≢ m.id) ms
      → find_row email_key id (deliver_all s e now ms rows).1 ≡ find_row email_key id rows
  unfolding deliver_all
  deliver_all-other id [] rows h = refl
  deliver_all-other id (m ∷ ms) rows h =
      deliver_all-other id ms (start_delivery s e now m rows).1 h.1
      ∙ start_delivery-other m rows id h.0

  module _ (reliable : IsReliable e) where
    settles :
        (m : EmailOutbox) (rows : List EmailOutbox)
        → IsClaimed rows m
        → find_row email_key m.id (start_delivery s e now m rows).1 ≡ some (delivered m)
    settles m rows (found, claimed, has_payload) =
        ap (λ d. find_row email_key m.id d.1)
          (deliver_lem s e now m rows m reliable found claimed has_payload)
        ∙ find_row-update_row email_key m.id m.id (transitioned (choose_delivery s e m now).0) rows
            (λ x. refl)
        ∙ ground (arith, found, eq_iff m.id m.id)

    -- The others stay claimed while one email is delivered.
    still-IsClaimed :
        (m : EmailOutbox) (ms rows : List EmailOutbox)
        → All (λ x. m.id ≢ x.id) ms
        → All (IsClaimed rows) ms
        → All (IsClaimed (start_delivery s e now m rows).1) ms
    still-IsClaimed m ms rows apart claimed =
        All-imp ms
          (λ x (n, (found, claimed', payload)).
            (start_delivery-other m rows x.id (λ q. n (sym q)) ∙ found, claimed', payload))
          (All-both _ _ ms apart claimed)

    -- Delivering claimed emails with distinct ids settles every one of them.
    pub deliver_all-settles :
        (m : EmailOutbox) (ms rows : List EmailOutbox)
        → Distinct email_key ms
        → All (IsClaimed rows) ms
        → find_row email_key m.id rows ≡ some m
        → has_key email_key m.id ms ≡ true
        → find_row email_key m.id (deliver_all s e now ms rows).1 ≡ some (delivered m)
    unfolding deliver_all
    deliver_all-settles m [] rows d claimed found has = cc
    deliver_all-settles m (x ∷ ms) rows d claimed found has = elim (Bool-cases (str_eq x.id m.id)) [
      | inl b ↦
          let same : x ≡ m = ground (arith, found, claimed.0, (eq_iff x.id m.id).0 b) in
          let at_m = subst (λ y. All (λ z. y.id ≢ z.id) ms) same d.0 in
          deliver_all-other m.id ms _ at_m
          ∙ ap (λ y. find_row email_key m.id (start_delivery s e now y rows).1) same
          ∙ settles m rows (subst (IsClaimed rows) same claimed.0)
      | inr b ↦
          deliver_all-settles m ms (start_delivery s e now x rows).1 d.1
            (still-IsClaimed x ms rows d.0 claimed.1)
            (start_delivery-other x rows m.id (λ q. ground (arith, b, q, eq_iff x.id m.id)) ∙ found)
            (ground (arith, has, b))
    ]

    -- No delivery of a claimed email fails.
    pub deliver_all-ok :
        (ms rows : List EmailOutbox)
        → Distinct email_key ms
        → All (IsClaimed rows) ms
        → All (λ o. is_ok o ≡ true) (map outcome_of (deliver_all s e now ms rows).0)
    unfolding deliver_all
    deliver_all-ok [] rows d claimed = tt
    deliver_all-ok (x ∷ ms) rows d claimed = (
      ap (λ r. is_ok r.0.0)
          (deliver_lem s e now x rows x reliable claimed.0.0 claimed.0.1 claimed.0.2),
      deliver_all-ok ms (start_delivery s e now x rows).1 d.1
          (still-IsClaimed x ms rows d.0 claimed.1),
    )
