-- ===== src/Store/Email/Leases.antt =====
-- For how long a claim of emails keeps others away, and that none is forgotten.
use rtk_account_manager.Common.{
  ℕ, ◌≤◌, ◌<◌, String, eq_iff, ◌≡◌, refl, sym, ap, ◌∙◌, ◌≢◌, true, false, some, Option-cases, List,
  [], ◌∷◌, map, Time, All, Bool-cases, inl, inr, length, arith,
}
use mathlib.Core.Option
use rtk_account_manager.Channel.Fields.{contains}
use rtk_account_manager.Model.Email.{EmailOutbox}
use rtk_account_manager.Store.Rows.{find_row, find_row-key}
use rtk_account_manager.Store.Rows.Distinct.{Distinct}
use rtk_account_manager.Store.Selection.{sort_by, filter_by}
use rtk_account_manager.Store.Selection.Laws.{All-sort_by, All-map, All-imp, length-sort_by}
use rtk_account_manager.Store.Selection.Members.{
  take-all, has_key, has_key-sort_by, has_key-map, has_key-filter_by,
}
use rtk_account_manager.Store.Email.{
  email_key, is_due, available_before, made_before, leased, due_rows, claim_email_outbox_ready,
}
use rtk_account_manager.Store.Email.Claims.{
  lease_chosen, chosen_ids, due_rows-found, find_row-claim, Distinct-claim,
}

not_has_key-All :
    (ms : List EmailOutbox) (id : String)
    → contains (map email_key ms) id ≡ false
    → All (λ m. id ≢ m.id) ms
not_has_key-All [] id h = tt
not_has_key-All (m ∷ ms) id h =
    (λ e. ground (arith, eq_iff m.id id, e, h), not_has_key-All ms id (ground (arith, h)))

-- No other claim before `lease_until` returns an email that a claim has returned.
pub claim_email_exclusive :
    (rows : List EmailOutbox) (now lease_until again again_until : Time) (limit again_limit : ℕ)
    → Distinct email_key rows
    → again.nanos < lease_until.nanos
    → let (claimed, rows') = claim_email_outbox_ready rows now lease_until limit in
      All
        (λ m. All (λ m'. m.id ≢ m'.id) claimed)
        (claim_email_outbox_ready rows' again again_until again_limit).0
unfolding claim_email_outbox_ready is_due
claim_email_exclusive rows now lease_until again again_until limit again_limit d h =
    All-sort_by _ made_before _ (
      All-map _ (leased again_until) second (
        All-imp second apart
          (due_rows-found rows' again again_limit (Distinct-claim rows now limit lease_until d))))
  where
    rows' : List EmailOutbox
    rows' = (claim_email_outbox_ready rows now lease_until limit).1

    second : List EmailOutbox
    second = due_rows rows' again again_limit

    -- A row that is due again was not chosen before: its lease would have to have ended.
    unchosen :
        (m : EmailOutbox)
        → (is_due again m ≡ true) × (find_row email_key m.id rows' ≡ some m)
        → contains (chosen_ids rows now limit) m.id ≡ false
    unchosen m (due, found) = elim (Bool-cases (contains (chosen_ids rows now limit) m.id)) [
      | inr e ↦ e
      | inl e ↦ elim (Option-cases (find_row email_key m.id rows)) [
        | inl missing ↦ ground (arith, moved, missing)
        | inr (x, was) ↦
            let same_id : x.id ≡ m.id = find_row-key email_key m.id rows x was in
            let is_leased : leased lease_until x ≡ m = ground (arith, moved, was, same_id, e) in
            ground (arith, due, is_leased, h)
      ]
    ]
      where
        moved :
            Option.map
              (lease_chosen lease_until (chosen_ids rows now limit))
              (find_row email_key m.id rows)
            ≡ some m
        moved = sym (find_row-claim rows now limit lease_until m.id) ∙ found

    apart :
        (m : EmailOutbox)
        → (is_due again m ≡ true) × (find_row email_key m.id rows' ≡ some m)
        → All
            (λ m'. m.id ≢ m'.id)
            (sort_by made_before (map (leased lease_until) (due_rows rows now limit)))
    apart m known = All-sort_by _ made_before _ (
        All-map _ (leased lease_until) (due_rows rows now limit)
          (not_has_key-All (due_rows rows now limit) m.id (unchosen m known)))

-- When no more emails are due than the limit allows, every one of them is claimed: those that wait,
-- and those that a worker has left being sent past the end of its lease. The claim returns the email
-- and leaves it being sent until the new lease ends.
pub due_is_claimed :
    (rows : List EmailOutbox) (now lease_until : Time) (limit : ℕ) (m : EmailOutbox)
    → length (filter_by (is_due now) rows) ≤ limit
    → find_row email_key m.id rows ≡ some m
    → is_due now m ≡ true
    → let (claimed, rows') = claim_email_outbox_ready rows now lease_until limit in
      (has_key email_key m.id claimed ≡ true)
      × (find_row email_key m.id rows' ≡ some (leased lease_until m))
unfolding claim_email_outbox_ready due_rows
due_is_claimed rows now lease_until limit m few found due = (
  has_key-sort_by email_key m.id made_before (map (leased lease_until) (due_rows rows now limit))
      ∙ has_key-map email_key m.id (leased lease_until) (due_rows rows now limit) (λ x. refl)
      ∙ chosen,
  find_row-claim rows now limit lease_until m.id ∙ ground (arith, found, chosen),
)
  where
    chosen : has_key email_key m.id (due_rows rows now limit) ≡ true
    chosen =
        ap (has_key email_key m.id) (
          take-all limit (sort_by available_before (filter_by (is_due now) rows))
            (omega (arith, few, length-sort_by available_before (filter_by (is_due now) rows))))
        ∙ has_key-sort_by email_key m.id available_before (filter_by (is_due now) rows)
        ∙ has_key-filter_by email_key m.id (is_due now) rows m found due
