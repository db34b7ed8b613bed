-- ===== src/Store/Email/Refinement.antt =====
-- Any sequence of statements on the table of emails, against the diagram of an email's states.
use rtk_account_manager.Common.{◌≡◌, sym, ap, ◌∙◌, inl, inr, true, some, List, subst, arith}
use rtk_account_manager.Model.Email.{EmailOutboxStatus, EmailOutbox, is_closed}
use rtk_account_manager.Store.Rows.{find_row, find_row-key}
use rtk_account_manager.Store.Email.{email_key}
use rtk_account_manager.Store.Email.Diagram.{Step, Steps, Changes, IsTable}
use rtk_account_manager.Store.Email.Invariants.{change-IsTable, change-Follows}

-- Every sequence of statements keeps the ids distinct, a payload in exactly the emails that are
-- neither sent nor expired, and a lease on exactly the emails that are being sent.
pub Changes-IsTable :
    {rows rows' : List EmailOutbox} → IsTable rows → Changes rows rows' → IsTable rows'
Changes-IsTable t Changes.stay = t
Changes-IsTable t (Changes.go before change) = change-IsTable (Changes-IsTable t before) change

pub Changes-Steps :
    {rows rows' : List EmailOutbox} (m : EmailOutbox)
    → IsTable rows
    → Changes rows rows'
    → find_row email_key m.id rows ≡ some m
    → (m' : EmailOutbox) × (find_row email_key m.id rows' ≡ some m') × Steps m.status m'.status
Changes-Steps m t Changes.stay found = (m, found, Steps.stay)
Changes-Steps m t (Changes.go {b = b} {c = c} before change) found =
    let (x, found', steps) = Changes-Steps m t before found in
    let same_id : x.id ≡ m.id = find_row-key email_key m.id b x found' in
    let (y, found'', step) =
      change-Follows b x (ap (λ k. find_row email_key k b) same_id ∙ found')
        (Changes-IsTable t before).0 change in
    (
      y,
      ap (λ k. find_row email_key k c) (sym same_id) ∙ found'',
      elim step [
        | inl same ↦ subst (λ z. Steps m.status z.status) (sym same) steps
        | inr s ↦ Steps.go steps s
      ],
    )

no_step-closed : {s t : EmailOutboxStatus} → Step s t → is_closed s ≡ true → ⊥
no_step-closed (Step.claim {s = s} q) c = ground (arith, q, c)
no_step-closed Step.claim_again c = cc
no_step-closed (Step.settle r) c = cc
no_step-closed Step.requeue c = cc

-- An email that is sent or expired never changes again in such a table, in any column.
pub closed_stays :
    {rows rows' : List EmailOutbox} (m : EmailOutbox)
    → IsTable rows
    → Changes rows rows'
    → find_row email_key m.id rows ≡ some m
    → is_closed m.status ≡ true
    → find_row email_key m.id rows' ≡ some m
closed_stays m t Changes.stay found closed = found
closed_stays m t (Changes.go {b = b} {c = c} before change) found closed =
    let found' = closed_stays m t before found closed in
    let (y, found'', step) = change-Follows b m found' (Changes-IsTable t before).0 change in
    elim step [ inl same ↦ found'' ∙ ap some same | inr s ↦ elim (no_step-closed s closed) [ ] ]
