-- ===== src/Worker/Email/Items.antt =====
-- The emails that a round claims, and a round without faults as a whole.
use rtk_account_manager.Common.{
  ◌≤◌, eq_iff, ◌≡◌, ◌≢◌, refl, sym, ap, ◌∙◌, true, false, none, some, Bool-cases, inl, inr, List,
  [], ◌∷◌, length, Time, utc, add_time, ok, err, All, arith,
}
use rtk_account_manager.Channel.Fields.{contains}
use rtk_account_manager.Model.Email.{EmailOutbox}
use rtk_account_manager.Store.Rows.{find_row}
use rtk_account_manager.Store.Rows.Distinct.{
  Distinct, All-both, find_row-All, Distinct-sort_by, Distinct-map,
}
use rtk_account_manager.Store.Selection.Laws.{All-imp, All-sort_by, All-map, length-map'}
use rtk_account_manager.Store.Selection.Members.{has_key, length-filter_by-le}
use rtk_account_manager.Store.Selection.Permutations.{
  Reorder, All-Reorder, Distinct-Reorder, has_key-Reorder,
}
use rtk_account_manager.Store.Email.{
  email_key, is_due, made_before, leased, leased_rows, due_rows, claim_email_outbox_ready,
}
use rtk_account_manager.Store.Email.Claims.{
  lease_chosen, chosen_ids, chosen-is_due, due_rows-found, due_rows-Distinct, find_row-claim,
}
use rtk_account_manager.Store.Email.Leases.{due_is_claimed}
use rtk_account_manager.Store.Email.Diagram.{IsTable, IsWellFormed}
use rtk_account_manager.Worker.Email.{Service, Mailer, Outcome, deliver_all}
use rtk_account_manager.Worker.Email.Loop.{
  Schedule, claimed_round, unless_failed, Stats, count, collect, run_once,
}
use rtk_account_manager.Worker.Email.Deliveries.{IsReliable}
use rtk_account_manager.Worker.Email.Settling.{
  IsClaimed, delivered, is_ok, deliver_all-settles, deliver_all-other, deliver_all-ok,
  length-deliver_all,
}

-- A schedule leaves no delivery and no result out.
pub record IsFair (schedule : Schedule) : Type 0 where
  pub starts : (ms : List EmailOutbox) → Reorder ms (schedule.start ms)
  pub arrives : (os : List Outcome) → Reorder os (schedule.arrive os)

has_key_self : (xs : List EmailOutbox) → All (λ x. has_key email_key x.id xs ≡ true) xs
has_key_self [] = tt
has_key_self (x ∷ xs) =
    (ground (arith, eq_iff x.id x.id), All-imp xs (λ y h. ground (arith, h)) (has_key_self xs))

collect-ok :
    (stats : Stats) (os : List Outcome)
    → All (λ o. is_ok o ≡ true) os
    → (collect stats none os).1 ≡ none
unfolding collect
collect-ok stats [] h = refl
collect-ok stats (ok o ∷ os) h = collect-ok (count stats o) os h.1
collect-ok stats (err x ∷ os) h = cc

module _ (s : Service) (rows : List EmailOutbox) (clock : Time) (table : IsTable rows) where
  abbrev pub until : Time
  until = add_time (utc clock) s.lease_duration

  abbrev pub items : List EmailOutbox
  items = (claim_email_outbox_ready rows (utc clock) until s.batch_size).0

  abbrev pub rows_leased : List EmailOutbox
  rows_leased = (claim_email_outbox_ready rows (utc clock) until s.batch_size).1

  -- A claim keeps the number of rows.
  pub length-claim : length rows_leased ≡ length rows
  unfolding claim_email_outbox_ready leased_rows
  length-claim = length-map' (lease_chosen until (chosen_ids rows (utc clock) s.batch_size)) rows

  -- What a claim returns stands in the table, with its payload, for this worker.
  pub items-IsClaimed : All (IsClaimed rows_leased) items
  unfolding claim_email_outbox_ready
  items-IsClaimed = All-sort_by _ made_before _ (
      All-map _ (leased until) (due_rows rows (utc clock) s.batch_size) (
        All-imp _ each (
          All-both _ _ _ (has_key_self (due_rows rows (utc clock) s.batch_size))
            (due_rows-found rows (utc clock) s.batch_size table.0))))
    where
      each :
          (m : EmailOutbox)
          → (has_key email_key m.id (due_rows rows (utc clock) s.batch_size) ≡ true)
            × ((is_due (utc clock) m ≡ true) × (find_row email_key m.id rows ≡ some m))
          → IsClaimed rows_leased (leased until m)
      each m (chosen, (due, found)) = (
        find_row-claim rows (utc clock) s.batch_size until m.id ∙ ground (arith, found, chosen),
        ground arith,
        ground (arith, due, (find_row-All email_key IsWellFormed m.id rows m table.1 found).0),
      )

  pub items-Distinct : Distinct email_key items
  unfolding claim_email_outbox_ready
  items-Distinct = Distinct-sort_by email_key made_before _ (
      Distinct-map email_key (leased until) _ (λ x. refl)
        (due_rows-Distinct rows (utc clock) s.batch_size table.0))

module _ (s : Service) (e : Mailer) (schedule : Schedule) (clock : Time) (rows : List EmailOutbox)
    (table : IsTable rows) (reliable : IsReliable e) (fair : IsFair schedule) where
  abbrev started : List EmailOutbox
  started = schedule.start (items s rows clock table)

  started-IsClaimed : All (IsClaimed (rows_leased s rows clock table)) started
  started-IsClaimed = All-Reorder _ (fair.starts _) (items-IsClaimed s rows clock table)

  started-Distinct : Distinct email_key started
  started-Distinct = Distinct-Reorder email_key (fair.starts _) (items-Distinct s rows clock table)

  after_deliveries :
      (run_once s e schedule clock rows).1
      ≡ (deliver_all s e (utc clock) started (rows_leased s rows clock table)).1
  unfolding run_once claimed_round
  after_deliveries =
      ap (λ c. (unless_failed c rows (claimed_round s e schedule (utc clock) rows)).1)
        reliable.no_claim_error

  -- A round without faults reports none.
  pub run_once-ok : (run_once s e schedule clock rows).0.1 ≡ none
  unfolding run_once claimed_round
  run_once-ok =
      ap (λ c. (unless_failed c rows (claimed_round s e schedule (utc clock) rows)).0.1)
        reliable.no_claim_error
      ∙ collect-ok _ _ (
          All-Reorder _ (fair.arrives _)
            (deliver_all-ok s e (utc clock) reliable started _ started-Distinct started-IsClaimed))

  pub length-run_once : length (run_once s e schedule clock rows).1 ≡ length rows
  length-run_once =
      ap length after_deliveries
      ∙ length-deliver_all s e (utc clock) started (rows_leased s rows clock table)
      ∙ length-claim s rows clock table

  -- A round without faults settles every email that is due, when the batch has room for all of them.
  pub run_once-settles :
      (m : EmailOutbox)
      → length rows ≤ s.batch_size
      → find_row email_key m.id rows ≡ some m
      → is_due (utc clock) m ≡ true
      → find_row email_key m.id (run_once s e schedule clock rows).1
        ≡ some (delivered s e (utc clock) (leased (until s rows clock table) m))
  run_once-settles m room found due =
      let (has, found') =
        due_is_claimed rows (utc clock) (until s rows clock table) s.batch_size m
          (omega (arith, room, length-filter_by-le (is_due (utc clock)) rows)) found due in
      ap (find_row email_key m.id) after_deliveries
      ∙ deliver_all-settles s e (utc clock) reliable (leased (until s rows clock table) m) started _
          started-Distinct started-IsClaimed found'
          (sym (has_key-Reorder email_key m.id (fair.starts _)) ∙ has)

  -- An email that is not due stays as it is.
  pub run_once-waits :
      (m : EmailOutbox)
      → find_row email_key m.id rows ≡ some m
      → is_due (utc clock) m ≡ false
      → find_row email_key m.id (run_once s e schedule clock rows).1 ≡ some m
  unfolding claim_email_outbox_ready
  run_once-waits m found waits =
      ap (find_row email_key m.id) after_deliveries
      ∙ deliver_all-other s e (utc clock) m.id started _ (All-Reorder _ (fair.starts _) apart)
      ∙ find_row-claim rows (utc clock) s.batch_size (until s rows clock table) m.id
      ∙ ground (arith, found, unchosen)
    where
      unchosen : contains (chosen_ids rows (utc clock) s.batch_size) m.id ≡ false
      unchosen = elim (Bool-cases (contains (chosen_ids rows (utc clock) s.batch_size) m.id)) [
        | inr b ↦ b
        | inl b ↦
            let due = chosen-is_due rows (utc clock) s.batch_size m table.0 found b in
            ground (arith, due, waits)
      ]

      apart : All (λ x. m.id ≢ x.id) (items s rows clock table)
      apart = All-sort_by _ made_before _ (
          All-map _ (leased (until s rows clock table)) _ (
            All-imp (due_rows rows (utc clock) s.batch_size)
              (λ x (due, found') q. ground (arith, found, found', q, due, waits))
              (due_rows-found rows (utc clock) s.batch_size table.0)))
