-- ===== src/Store/Email/Claims.antt =====
-- What a claim of emails chooses and what it writes.
use rtk_account_manager.Common.{
  ℕ, String, ◌≡◌, true, some, List, map, Time, if◌then◌else◌, All, Bool-cases, inl, inr, arith,
}
use mathlib.Core.Option
use rtk_account_manager.Channel.Fields.{contains}
use rtk_account_manager.Model.Email.{EmailOutbox}
use rtk_account_manager.Store.Rows.{find_row}
use rtk_account_manager.Store.Rows.Distinct.{
  Distinct, All-both, All-filter_by, find_row_self, find_row-map, contains-All, Distinct-sort_by,
  Distinct-filter_by, Distinct-take, Distinct-map,
}
use rtk_account_manager.Store.Selection.Laws.{
  All-sort_by, All-take, All-map, All-imp, filter_by-All,
}
use rtk_account_manager.Store.Email.{
  email_key, is_due, available_before, leased, leased_rows, due_rows, claim_email_outbox_ready,
}

abbrev pub lease_chosen : Time → List String → EmailOutbox → EmailOutbox
lease_chosen lease_until ids m = if contains ids m.id then leased lease_until m else m

pub lease_chosen-id :
    (u : Time) (ids : List String) (m : EmailOutbox) → (lease_chosen u ids m).id ≡ m.id
lease_chosen-id u ids m = elim (Bool-cases (contains ids m.id)) [ inl e ↦ rw e | inr e ↦ rw e ]

module _ (rows : List EmailOutbox) (now : Time) (limit : ℕ) where
  abbrev pub chosen_ids : List String
  chosen_ids = map email_key (due_rows rows now limit)

  -- What a claim chooses is due, and in the table.
  pub due_rows-found :
      Distinct email_key rows
      → All
          (λ m. (is_due now m ≡ true) × (find_row email_key m.id rows ≡ some m))
          (due_rows rows now limit)
  unfolding due_rows
  due_rows-found d = All-take _ limit _ (
      All-sort_by _ available_before _ (
        All-both _ _ _ (filter_by-All (is_due now) rows)
          (All-filter_by _ (is_due now) rows (find_row_self email_key rows d))))

  pub due_rows-Distinct : Distinct email_key rows → Distinct email_key (due_rows rows now limit)
  unfolding due_rows
  due_rows-Distinct d = Distinct-take email_key limit _ (
      Distinct-sort_by email_key available_before _
        (Distinct-filter_by email_key (is_due now) rows d))

  -- A row whose id a claim has chosen is due.
  pub chosen-is_due :
      (m : EmailOutbox)
      → Distinct email_key rows
      → find_row email_key m.id rows ≡ some m
      → contains chosen_ids m.id ≡ true
      → is_due now m ≡ true
  chosen-is_due m d found c =
      let (x, (due, found'), same) =
        contains-All email_key _ m.id (due_rows rows now limit) (due_rows-found d) c in
      let is_m : x ≡ m = ground (arith, found, found', same) in ground (arith, due, is_m)

  -- Where the table's rows are after a claim.
  pub find_row-claim :
      (lease_until : Time) (id : String)
      → find_row email_key id (claim_email_outbox_ready rows now lease_until limit).1
        ≡ Option.map (lease_chosen lease_until chosen_ids) (find_row email_key id rows)
  unfolding claim_email_outbox_ready leased_rows
  find_row-claim lease_until id =
      find_row-map email_key (lease_chosen lease_until chosen_ids) id rows
        (lease_chosen-id lease_until chosen_ids)

  pub Distinct-claim :
      (lease_until : Time)
      → Distinct email_key rows
      → Distinct email_key (claim_email_outbox_ready rows now lease_until limit).1
  unfolding claim_email_outbox_ready leased_rows
  Distinct-claim lease_until d =
      Distinct-map email_key (lease_chosen lease_until chosen_ids) rows
        (lease_chosen-id lease_until chosen_ids) d

  -- A property of all rows stays if every due row has it once it is leased.
  pub All-claim :
      (P : EmailOutbox → Type 0) (lease_until : Time)
      → ((m : EmailOutbox) → is_due now m ≡ true → P m → P (leased lease_until m))
      → Distinct email_key rows
      → All P rows
      → All P (claim_email_outbox_ready rows now lease_until limit).1
  unfolding claim_email_outbox_ready leased_rows
  All-claim P lease_until step d h =
      All-map P (lease_chosen lease_until chosen_ids) rows
        (All-imp rows each (All-both _ _ rows h (find_row_self email_key rows d)))
    where
      each :
          (m : EmailOutbox)
          → P m × (find_row email_key m.id rows ≡ some m)
          → P (lease_chosen lease_until chosen_ids m)
      each m (p, found) = elim (Bool-cases (contains chosen_ids m.id)) [
        | inl e ↦ rw e (step m (chosen-is_due m d found e) p)
        | inr e ↦ rw e p
      ]
