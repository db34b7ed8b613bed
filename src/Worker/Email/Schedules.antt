-- ===== src/Worker/Email/Schedules.antt =====
-- The deliveries of a round in any order: the goroutines of RunOnce do not depend on one another.
use rtk_account_manager.Common.{
  ◌≡◌, refl, ap, ◌∙◌, Option, none, some, GoError, ok, err, List, [], ◌∷◌, Time, utc, arith,
}
use rtk_account_manager.Model.Email.{EmailOutbox, EmailOutboxStatus}
use rtk_account_manager.Store.Selection.Permutations.{
  Reorder, Reorder-sym, Reorder-map, Distinct-Reorder,
}
use rtk_account_manager.Store.Email.{email_key}
use rtk_account_manager.Store.Email.Diagram.{IsTable}
use rtk_account_manager.Worker.Email.{Service, Mailer, Outcome, deliver_all}
use rtk_account_manager.Worker.Email.Loop.{
  Schedule, Stats, outcome_of, count, collect, claimed_round, unless_failed, run_once,
}
use rtk_account_manager.Worker.Email.Commuting.{deliver_all-Reorder}
use rtk_account_manager.Worker.Email.Items.{IsFair, items, rows_leased, items-Distinct}

count_comm :
    (stats : Stats) (a b : Option EmailOutboxStatus)
    → count (count stats a) b ≡ count (count stats b) a
unfolding count
count_comm stats a b = ground arith

collect-first :
    (stats : Stats) (first first' : Option GoError) (os : List Outcome)
    → (collect stats first os).0 ≡ (collect stats first' os).0
unfolding collect
collect-first stats first first' [] = refl
collect-first stats first first' (err x ∷ os) = collect-first stats _ _ os
collect-first stats first first' (ok o ∷ os) = collect-first (count stats o) first first' os

-- The counts do not depend on the order of the results.
collect-Reorder :
    {xs ys : List Outcome} (stats : Stats) (first first' : Option GoError)
    → Reorder xs ys
    → (collect stats first xs).0 ≡ (collect stats first' ys).0
unfolding collect
collect-Reorder stats first first' Reorder.empty = refl
collect-Reorder stats first first' (Reorder.keep (err x) p) = collect-Reorder stats _ _ p
collect-Reorder stats first first' (Reorder.keep (ok o) p) = collect-Reorder (count stats o) _ _ p
collect-Reorder stats first first' (Reorder.chain p q) =
    collect-Reorder stats first none p ∙ collect-Reorder stats none first' q
collect-Reorder stats first first' (Reorder.swap x y xs) = by_outcomes x y
  where
    by_outcomes :
        (x y : Outcome)
        → (collect stats first (x ∷ y ∷ xs)).0 ≡ (collect stats first' (y ∷ x ∷ xs)).0
    by_outcomes (err x) (err y) = collect-first stats _ _ xs
    by_outcomes (err x) (ok b) = collect-first (count stats b) _ _ xs
    by_outcomes (ok a) (err y) = collect-first (count stats a) _ _ xs
    by_outcomes (ok a) (ok b) =
        ap (λ c. (collect c first xs).0) (count_comm stats a b)
        ∙ collect-first (count (count stats b) a) first first' xs

-- Where the mail service, the database and the random draws answer each email in the same way, the
-- counts that a round over a well-formed table reports and the table that it leaves do not depend on
-- the order in which its goroutines reach the table, nor on the order in which their results arrive.
pub run_once-Reorder :
    (s : Service) (e : Mailer) (schedule schedule' : Schedule) (clock : Time)
    (rows : List EmailOutbox)
    → IsTable rows
    → IsFair schedule
    → IsFair schedule'
    → let ((stats, failure), after) = run_once s e schedule clock rows in
      let ((stats', failure'), after') = run_once s e schedule' clock rows in
      (stats ≡ stats') × (after ≡ after')
unfolding run_once claimed_round
run_once-Reorder s e schedule schedule' clock rows table fair fair' = by_error e.claim_error
  where
    ms : List EmailOutbox
    ms = items s rows clock table

    reordered :
        ((deliver_all s e (utc clock) (schedule.start ms) (rows_leased s rows clock table)).1
          ≡ (deliver_all s e (utc clock) (schedule'.start ms) (rows_leased s rows clock table)).1)
        × Reorder
            (deliver_all s e (utc clock) (schedule.start ms) (rows_leased s rows clock table)).0
            (deliver_all s e (utc clock) (schedule'.start ms) (rows_leased s rows clock table)).0
    reordered =
        deliver_all-Reorder s e (utc clock) (rows_leased s rows clock table)
          (Reorder.chain (Reorder-sym (fair.starts ms)) (fair'.starts ms))
          (Distinct-Reorder email_key (fair.starts ms) (items-Distinct s rows clock table))

    by_error :
        (c : Option GoError)
        → let ((stats, failure), after) =
            unless_failed c rows (claimed_round s e schedule (utc clock) rows) in
          let ((stats', failure'), after') =
            unless_failed c rows (claimed_round s e schedule' (utc clock) rows) in
          (stats ≡ stats') × (after ≡ after')
    by_error (some x) = (refl, refl)
    by_error none = (
      collect-Reorder _ none none (
          Reorder.chain (Reorder-sym (fair.arrives _))
            (Reorder.chain (Reorder-map outcome_of reordered.1) (fair'.arrives _))),
      reordered.0,
    )
