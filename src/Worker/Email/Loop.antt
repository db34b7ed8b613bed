-- ===== src/Worker/Email/Loop.antt =====
-- RunOnce and Run of internal/worker/emailoutbox/service.go.
use rtk_account_manager.Common.{
  ℕ, ◌+◌, Bool, Option, none, some, List, [], ◌∷◌, map, if◌then◌else◌, length, Time, utc, add_time,
  ok, err, GoError, is_canceled,
}
use rtk_account_manager.Email.{Message}
use rtk_account_manager.Model.Email.{EmailOutboxStatus, EmailOutbox}
use rtk_account_manager.Store.Email.{claim_email_outbox_ready}
use rtk_account_manager.Worker.Email.{Service, Mailer, Outcome, deliver_all}

pub record Stats : Type 0 where
  pub claimed : ℕ
  pub sent : ℕ
  pub retrying : ℕ
  pub dead_lettered : ℕ
  pub expired : ℕ

-- The switch on the outcome.
unfoldable pub count : Stats → Option EmailOutboxStatus → Stats
count stats (some EmailOutboxStatus.sent) = record stats { sent = stats.sent + 1 }
count stats (some EmailOutboxStatus.retrying) = record stats { retrying = stats.retrying + 1 }
count stats (some EmailOutboxStatus.dead_lettered) = record stats {
  dead_lettered = stats.dead_lettered + 1;
}
count stats (some EmailOutboxStatus.expired) = record stats { expired = stats.expired + 1 }
count stats _ = stats

abbrev first_of : Option GoError → GoError → Option GoError
first_of none x = some x
first_of (some y) x = some y

-- The loop that receives the results.
unfoldable pub collect : Stats → Option GoError → List Outcome → Stats × Option GoError
unfolding count
collect stats first [] = (stats, first)
collect stats first (err x ∷ results) = collect stats (first_of first x) results
collect stats first (ok outcome ∷ results) = collect (count stats outcome) first results

-- The order in which the goroutines reach the table, and that in which their results arrive.
pub record Schedule : Type 0 where
  pub start : List EmailOutbox → List EmailOutbox
  pub arrive : List Outcome → List Outcome

abbrev pub outcome_of : Outcome × Option Message → Outcome
outcome_of result = result.0

abbrev Round : Type 0
Round = (Stats × Option GoError) × List EmailOutbox

abbrev pub no_stats : ℕ → Stats
no_stats n = record { claimed = n; sent = 0; retrying = 0; dead_lettered = 0; expired = 0 }

-- A round whose claim has returned.
unfoldable pub claimed_round : Service → Mailer → Schedule → Time → List EmailOutbox → Round
unfolding deliver_all collect
claimed_round s e schedule now rows =
    let (items, rows') =
      claim_email_outbox_ready rows now (add_time now s.lease_duration) s.batch_size in
    let (results, rows'') = deliver_all s e now (schedule.start items) rows' in
    (collect (no_stats (length items)) none (schedule.arrive (map outcome_of results)), rows'')

abbrev pub unless_failed : Option GoError → List EmailOutbox → Round → Round
unless_failed (some x) rows round = ((no_stats 0, some x), rows)
unless_failed none rows round = round

unfoldable pub run_once : Service → Mailer → Schedule → Time → List EmailOutbox → Round
unfolding claimed_round
run_once s e schedule clock rows =
    unless_failed e.claim_error rows (claimed_round s e schedule (utc clock) rows)

-- One turn of Run's loop: what the round meets, and whether the context ends during the wait.
pub record Turn : Type 0 where
  pub mailer : Mailer
  pub schedule : Schedule
  pub clock : Time
  pub is_stopped : Bool

-- What Run returns, or `none` while it still runs.
abbrev pub Running : Type 0
Running = Option (Option GoError) × List EmailOutbox

-- After a round: Run returns nil for a context that is canceled, and any other error as it is.
abbrev pub after_round : Bool → Option GoError → List EmailOutbox → Running → Running
after_round is_stopped (some x) rows rest =
    (if is_canceled x then some none else some (some x), rows)
after_round is_stopped none rows rest = if is_stopped then (some none, rows) else rest

-- Run over the turns given.
unfoldable pub run : Service → List Turn → List EmailOutbox → Running
unfolding run_once
run s [] rows = (none, rows)
run s (t ∷ ts) rows =
    let ((stats, failure), rows') = run_once s t.mailer t.schedule t.clock rows in
    after_round t.is_stopped failure rows' (run s ts rows')
