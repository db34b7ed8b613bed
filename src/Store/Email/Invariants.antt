-- ===== src/Store/Email/Invariants.antt =====
-- What every statement on the table of emails keeps.
use rtk_account_manager.Common.{
  ℕ, String, str_eq, eq_iff, ◌≡◌, refl, sym, subst, ◌∙◌, ◌⊎◌, inl, inr, true, ◌||◌, Bool-cases,
  some, Option-cases, List, Time, arith,
}
use rtk_account_manager.Channel.Fields.{contains}
use rtk_account_manager.Model.Email.{
  EmailOutboxStatus, EmailOutbox, is_queued, is_sending, is_dead_lettered,
}
use rtk_account_manager.Store.Rows.{find_row, update_row, find_row-update_row}
use rtk_account_manager.Store.Rows.Distinct.{
  Distinct, All-append, find_row-append, Distinct-append, Distinct-update_row, All-update_found,
}
use rtk_account_manager.Store.Email.{
  email_key, is_due, leased, transitioned, can_requeue, requeued_email, enqueued_row,
  claim_email_outbox_ready, requeue_email_outbox,
}
use rtk_account_manager.Store.Email.Claims.{
  chosen_ids, chosen-is_due, find_row-claim, Distinct-claim, All-claim,
}
use rtk_account_manager.Store.Email.Laws.{transition-cases, enqueue-cases}
use rtk_account_manager.Store.Email.Diagram.{is_result, Step, Change, IsWellFormed, IsTable}

-- What a statement leaves of a row: the row, or the row after one step.
abbrev pub Follows : EmailOutbox → List EmailOutbox → Type 0
Follows m rows' =
    (m' : EmailOutbox) × (find_row email_key m.id rows' ≡ some m')
    × ((m' ≡ m) ⊎ Step m.status m'.status)

claim-Step :
    (s : EmailOutboxStatus)
    → (is_queued s || is_sending s) ≡ true
    → Step s EmailOutboxStatus.sending
claim-Step EmailOutboxStatus.pending e = Step.claim refl
claim-Step EmailOutboxStatus.retrying e = Step.claim refl
claim-Step EmailOutboxStatus.sending e = Step.claim_again
claim-Step EmailOutboxStatus.sent e = cc
claim-Step EmailOutboxStatus.dead_lettered e = cc
claim-Step EmailOutboxStatus.expired e = cc

settle-Step :
    (s : EmailOutboxStatus) {t : EmailOutboxStatus}
    → is_sending s ≡ true
    → is_result t ≡ true
    → Step s t
settle-Step EmailOutboxStatus.sending e r = Step.settle r
settle-Step EmailOutboxStatus.pending e r = cc
settle-Step EmailOutboxStatus.retrying e r = cc
settle-Step EmailOutboxStatus.sent e r = cc
settle-Step EmailOutboxStatus.dead_lettered e r = cc
settle-Step EmailOutboxStatus.expired e r = cc

requeue-Step :
    (s : EmailOutboxStatus) → is_dead_lettered s ≡ true → Step s EmailOutboxStatus.retrying
requeue-Step EmailOutboxStatus.dead_lettered e = Step.requeue
requeue-Step EmailOutboxStatus.pending e = cc
requeue-Step EmailOutboxStatus.sending e = cc
requeue-Step EmailOutboxStatus.retrying e = cc
requeue-Step EmailOutboxStatus.sent e = cc
requeue-Step EmailOutboxStatus.expired e = cc

-- What a requeue does: nothing, or the reset of one dead-lettered row with its payload.
requeue-cases :
    (rows : List EmailOutbox) (id : String) (now : Time)
    → ((requeue_email_outbox rows id now).1 ≡ rows)
      ⊎ ((m : EmailOutbox) × (find_row email_key id rows ≡ some m)
          × (can_requeue m now ≡ true)
          × ((requeue_email_outbox rows id now).1
              ≡ update_row email_key id (requeued_email now) rows))
unfolding requeue_email_outbox
requeue-cases rows id now = elim (Option-cases (find_row email_key id rows)) [
  | inl e ↦ inl (ground (arith, e))
  | inr (m, e) ↦ elim (Bool-cases (can_requeue m now)) [
    | inl c ↦ inr (m, e, c, ground (arith, e, c))
    | inr c ↦ inl (ground (arith, e, c))
  ]
]

module _ (rows : List EmailOutbox) (m : EmailOutbox)
    (found : find_row email_key m.id rows ≡ some m) where
  -- An update of one row by one step is followed by all.
  update-Follows :
      (id : String) (f : EmailOutbox → EmailOutbox) (r : EmailOutbox)
      → ((x : EmailOutbox) → (f x).id ≡ x.id)
      → find_row email_key id rows ≡ some r
      → Step r.status (f r).status
      → Follows m (update_row email_key id f rows)
  update-Follows id f r keeps found' step = elim (Bool-cases (str_eq id m.id)) [
    | inl e ↦
        let same : r ≡ m = ground (arith, found, found', (eq_iff id m.id).0 e) in
        (
          f m,
          find_row-update_row email_key id m.id f rows keeps ∙ ground (arith, e, found),
          inr (subst (λ x. Step x.status (f x).status) same step),
        )
    | inr e ↦
        (m, find_row-update_row email_key id m.id f rows keeps ∙ ground (arith, e, found), inl refl)
  ]

  claim-Follows :
      (now lease_until : Time) (limit : ℕ)
      → Distinct email_key rows
      → Follows m (claim_email_outbox_ready rows now lease_until limit).1
  unfolding is_due
  claim-Follows now lease_until limit d =
      elim (Bool-cases (contains (chosen_ids rows now limit) m.id)) [
        | inl e ↦ (
          leased lease_until m,
          find_row-claim rows now limit lease_until m.id ∙ ground (arith, found, e),
          inr (claim-Step m.status (ground (arith, chosen-is_due rows now limit m d found e))),
        )
        | inr e ↦
            (m, find_row-claim rows now limit lease_until m.id ∙ ground (arith, found, e), inl refl)
      ]

  pub change-Follows :
      {rows' : List EmailOutbox} → Distinct email_key rows → Change rows rows' → Follows m rows'
  unfolding can_requeue
  change-Follows {rows'} d (Change.enqueue c random id now inp {rows = _} {rows' = _} e) =
      elim (enqueue-cases rows c random id now inp rows' e) [
        | inl same ↦ subst (Follows m) (sym same) (m, found, inl refl)
        | inr (nonce, ciphertext, new, same) ↦
            subst (Follows m) (sym same)
              (m, find_row-append email_key m.id rows _ m found, inl refl)
      ]
  change-Follows d (Change.claim now lease_until limit) = claim-Follows now lease_until limit d
  change-Follows {rows'} d (Change.transition accepts inp was_applied result e) =
      elim (transition-cases rows accepts inp was_applied rows' e) [
        | inl same ↦ subst (Follows m) (sym same) (m, found, inl refl)
        | inr (r, found', claimed, kept, same) ↦ subst (Follows m) (sym same) (
            update-Follows inp.id (transitioned inp) r (λ x. refl) found'
              (settle-Step r.status (ground (arith, claimed)) result))
      ]
  change-Follows d (Change.requeue id now) = elim (requeue-cases rows id now) [
    | inl same ↦ subst (Follows m) (sym same) (m, found, inl refl)
    | inr (r, found', dead, same) ↦ subst (Follows m) (sym same) (
        update-Follows id (requeued_email now) r (λ x. refl) found'
          (requeue-Step r.status (ground (arith, dead))))
  ]

pub change-IsTable :
    {rows rows' : List EmailOutbox} → IsTable rows → Change rows rows' → IsTable rows'
unfolding can_requeue is_due enqueued_row
change-IsTable {rows} {rows'} (d, h) (Change.enqueue c random id now inp {rows = _} {rows' = _} e) =
    elim (enqueue-cases rows c random id now inp rows' e) [
      | inl same ↦ subst IsTable (sym same) (d, h)
      | inr (nonce, ciphertext, new, same) ↦
          subst IsTable (sym same)
            (Distinct-append email_key rows _ new d, All-append IsWellFormed rows h (refl, refl))
    ]
change-IsTable {rows} (d, h) (Change.claim now lease_until limit) = (
  Distinct-claim rows now limit lease_until d,
  All-claim rows now limit IsWellFormed lease_until (λ m due w. (ground (arith, due, w.0), refl)) d
      h,
)
change-IsTable {rows} {rows'} (d, h) (Change.transition accepts inp was_applied result e) =
    elim (transition-cases rows accepts inp was_applied rows' e) [
      | inl same ↦ subst IsTable (sym same) (d, h)
      | inr (r, found, claimed, kept, same) ↦ subst IsTable (sym same) (
        Distinct-update_row email_key inp.id (transitioned inp) rows (λ x. refl) d,
        All-update_found email_key IsWellFormed inp.id (transitioned inp) rows r d h found
            (kept, ground (arith, result)),
      )
    ]
change-IsTable {rows} (d, h) (Change.requeue id now) = elim (requeue-cases rows id now) [
  | inl same ↦ subst IsTable (sym same) (d, h)
  | inr (r, found, dead, same) ↦ subst IsTable (sym same) (
    Distinct-update_row email_key id (requeued_email now) rows (λ x. refl) d,
    All-update_found email_key IsWellFormed id (requeued_email now) rows r d h found
        (ground (arith, dead), refl),
  )
]
