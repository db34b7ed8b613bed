-- ===== src/Worker/Email/Commuting.antt =====
-- Deliveries of different emails may change places.
use rtk_account_manager.Common.{
  String, eq_iff, ◌≡◌, ◌≢◌, refl, sym, subst, ap, ◌∙◌, Bool, true, false, Option, none, some, plain,
  Option-cases, inl, inr, Result, ok, err, List, [], ◌∷◌, Time, if◌then◌else◌, arith,
}
use rtk_account_manager.Email.{Message}
use rtk_account_manager.Model.Email.{EmailOutbox, EmailOutboxStatus}
use rtk_account_manager.Store.Rows.{find_row, update_row}
use rtk_account_manager.Store.Rows.Distinct.{Distinct}
use rtk_account_manager.Store.Selection.Permutations.{Reorder, Distinct-Reorder}
use rtk_account_manager.Store.Email.{
  EmailOutboxTransitionInput, email_key, transition_email_outbox, transitioned, is_claimed_at,
  keeps_payload_rule, accepts_error,
}
use rtk_account_manager.Worker.Email.{
  Service, Mailer, Outcome, transition, choose_delivery, deliver, start_delivery, deliver_all,
}
use rtk_account_manager.Worker.Email.Deliveries.{choose_delivery-IsFor}
use rtk_account_manager.Worker.Email.Settling.{start_delivery-other}

-- Updates of different ids commute.
update_row_comm :
    (id id' : String) (f g : EmailOutbox → EmailOutbox) (rows : List EmailOutbox)
    → id ≢ id'
    → ((r : EmailOutbox) → (f r).id ≡ r.id)
    → ((r : EmailOutbox) → (g r).id ≡ r.id)
    → update_row email_key id f (update_row email_key id' g rows)
      ≡ update_row email_key id' g (update_row email_key id f rows)
unfolding update_row
update_row_comm id id' f g [] n keeps keeps' = refl
update_row_comm id id' f g (r ∷ rows) n keeps keeps' = ground (
  arith,
  n,
  keeps r,
  keeps' r,
  eq_iff r.id id,
  eq_iff r.id id',
  eq_iff (f r).id id',
  eq_iff (g r).id id,
  update_row_comm id id' f g rows n keeps keeps',
)

-- What a transition makes of the row of its id: whether it changes it, or the error.
abbrev row_effect : EmailOutboxTransitionInput → Option EmailOutbox → Result Bool
row_effect inp none = ok false
row_effect inp (some m) =
    if is_claimed_at m inp.from_attempt
    then if keeps_payload_rule (transitioned inp m)
      then ok true
      else err (plain "check constraint violated")
    else ok false

abbrev change_if : Bool → EmailOutboxTransitionInput → List EmailOutbox → List EmailOutbox
change_if b inp rows = if b then update_row email_key inp.id (transitioned inp) rows else rows

change_if_comm :
    (b c : Bool) (inp inp' : EmailOutboxTransitionInput) (rows : List EmailOutbox)
    → inp.id ≢ inp'.id
    → change_if b inp (change_if c inp' rows) ≡ change_if c inp' (change_if b inp rows)
change_if_comm true true inp inp' rows n =
    update_row_comm inp.id inp'.id (transitioned inp) (transitioned inp') rows n (λ r. refl)
      (λ r. refl)
change_if_comm true false inp inp' rows n = refl
change_if_comm false c inp inp' rows n = refl

module _ (s : Service) (e : Mailer) (now : Time) where
  abbrev by_effect : EmailOutboxStatus → Result Bool → Outcome × Bool
  by_effect status (err x) = (err x, false)
  by_effect status (ok true) = (ok (some status), true)
  by_effect status (ok false) = (ok none, false)

  transition_effect : EmailOutboxTransitionInput → Option EmailOutbox → Outcome × Bool
  transition_effect inp row = elim (e.transition_error inp.id) [
    | some x ↦ (err x, false)
    | none ↦ by_effect inp.status (
        if accepts_error e.accepts inp.last_error
        then row_effect inp row
        else err (plain "invalid byte sequence for encoding"))
  ]

  transition_lem :
      (inp : EmailOutboxTransitionInput) (rows : List EmailOutbox) (row : Option EmailOutbox)
      → find_row email_key inp.id rows ≡ row
      → transition s e inp rows
        ≡ ((transition_effect inp row).0, change_if (transition_effect inp row).1 inp rows)
  unfolding transition transition_email_outbox transition_effect
  transition_lem inp rows none found = ground (arith, found)
  transition_lem inp rows (some m) found = ground (arith, found)

  -- A delivery seen from the row of its email alone.
  effect : EmailOutbox → Option EmailOutbox → (Outcome × Option Message) × Bool
  unfolding transition_effect
  effect m row = elim (e.context_error m.id) [
    | some x ↦ ((err x, none), false)
    | none ↦
        let (inp, mail) = choose_delivery s e m now in
        let (outcome, b) = transition_effect inp row in ((outcome, mail), b)
  ]

  start_delivery-effect :
      (m : EmailOutbox) (rows : List EmailOutbox) (row : Option EmailOutbox)
      → find_row email_key m.id rows ≡ row
      → start_delivery s e now m rows
        ≡ ((effect m row).0, change_if (effect m row).1 (choose_delivery s e m now).0 rows)
  unfolding effect start_delivery deliver
  start_delivery-effect m rows row found = elim (Option-cases (e.context_error m.id)) [
    | inr (x, h) ↦ rw (h, start_delivery, effect) refl
    | inl h ↦
        rw (h, start_delivery, effect)
          (ap (λ t. ((t.0, (choose_delivery s e m now).1), t.1))
            (transition_lem (choose_delivery s e m now).0 rows row
              (ap (λ id. find_row email_key id rows) (choose_delivery-IsFor s e now m).0 ∙ found)))
  ]

  -- Two deliveries of different emails may change places.
  start_delivery_comm :
      (a b : EmailOutbox) (rows : List EmailOutbox)
      → a.id ≢ b.id
      → ((start_delivery s e now b (start_delivery s e now a rows).1).0
          ≡ (start_delivery s e now b rows).0)
        × ((start_delivery s e now b (start_delivery s e now a rows).1).1
            ≡ (start_delivery s e now a (start_delivery s e now b rows).1).1)
  start_delivery_comm a b rows n = (
    ap (λ d. d.0) after_a ∙ sym (ap (λ d. d.0) at_b),
    ap (λ d. d.1) after_a
        ∙ ap (λ d. change_if (effect b row_b).1 inp_b d.1) at_a
        ∙ change_if_comm (effect b row_b).1 (effect a row_a).1 inp_b inp_a rows apart
        ∙ sym (ap (λ d. change_if (effect a row_a).1 inp_a d.1) at_b)
        ∙ sym (ap (λ d. d.1) after_b),
  )
    where
      row_a : Option EmailOutbox
      row_a = find_row email_key a.id rows

      row_b : Option EmailOutbox
      row_b = find_row email_key b.id rows

      inp_a : EmailOutboxTransitionInput
      inp_a = (choose_delivery s e a now).0

      inp_b : EmailOutboxTransitionInput
      inp_b = (choose_delivery s e b now).0

      apart : inp_b.id ≢ inp_a.id
      apart q =
          n (
            sym (sym (choose_delivery-IsFor s e now b).0 ∙ q ∙ (choose_delivery-IsFor s e now a).0))

      at_a :
          start_delivery s e now a rows
          ≡ ((effect a row_a).0, change_if (effect a row_a).1 inp_a rows)
      at_a = start_delivery-effect a rows row_a refl

      at_b :
          start_delivery s e now b rows
          ≡ ((effect b row_b).0, change_if (effect b row_b).1 inp_b rows)
      at_b = start_delivery-effect b rows row_b refl

      after_a : start_delivery s e now b (start_delivery s e now a rows).1 ≡ (
        (effect b row_b).0,
        change_if (effect b row_b).1 inp_b (start_delivery s e now a rows).1,
      )
      after_a =
          start_delivery-effect b (start_delivery s e now a rows).1 row_b
            (start_delivery-other s e now a rows b.id (λ q. n (sym q)))

      after_b : start_delivery s e now a (start_delivery s e now b rows).1 ≡ (
        (effect a row_a).0,
        change_if (effect a row_a).1 inp_a (start_delivery s e now b rows).1,
      )
      after_b =
          start_delivery-effect a (start_delivery s e now b rows).1 row_a
            (start_delivery-other s e now b rows a.id n)

  -- The table after all deliveries is the same in any order, and the results are reordered.
  pub deliver_all-Reorder :
      {xs ys : List EmailOutbox} (rows : List EmailOutbox)
      → Reorder xs ys
      → Distinct email_key xs
      → ((deliver_all s e now xs rows).1 ≡ (deliver_all s e now ys rows).1)
        × Reorder (deliver_all s e now xs rows).0 (deliver_all s e now ys rows).0
  unfolding deliver_all
  deliver_all-Reorder rows Reorder.empty d = (refl, Reorder.empty)
  deliver_all-Reorder rows (Reorder.keep x p) d =
      let (same, reordered) = deliver_all-Reorder (start_delivery s e now x rows).1 p d.1 in
      (same, Reorder.keep (start_delivery s e now x rows).0 reordered)
  deliver_all-Reorder rows (Reorder.chain p q) d =
      let (same, reordered) = deliver_all-Reorder rows p d in
      let (same', reordered') = deliver_all-Reorder rows q (Distinct-Reorder email_key p d) in
      (same ∙ same', Reorder.chain reordered reordered')
  deliver_all-Reorder rows (Reorder.swap x y xs) ((n, h), d) =
      let (result_y, tables) = start_delivery_comm x y rows n in
      let (result_x, tables') = start_delivery_comm y x rows (λ q. n (sym q)) in
      (
        ap (λ t. (deliver_all s e now xs t).1) tables,
        subst (λ r. Reorder (rx ∷ r ∷ rest rows_xy) (ry ∷ rx' ∷ rest rows_yx)) (sym result_y)
            (subst (λ r. Reorder (rx ∷ ry ∷ rest rows_xy) (ry ∷ r ∷ rest rows_yx)) (sym result_x)
              (subst (λ t. Reorder (rx ∷ ry ∷ rest rows_xy) (ry ∷ rx ∷ rest t)) tables
                (Reorder.swap rx ry (rest rows_xy)))),
      )
    where
      rx : Outcome × Option Message
      rx = (start_delivery s e now x rows).0

      ry : Outcome × Option Message
      ry = (start_delivery s e now y rows).0

      rows_xy : List EmailOutbox
      rows_xy = (start_delivery s e now y (start_delivery s e now x rows).1).1

      rows_yx : List EmailOutbox
      rows_yx = (start_delivery s e now x (start_delivery s e now y rows).1).1

      rx' : Outcome × Option Message
      rx' = (start_delivery s e now x (start_delivery s e now y rows).1).0

      rest : List EmailOutbox → List (Outcome × Option Message)
      rest t = (deliver_all s e now xs t).0
