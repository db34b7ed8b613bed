-- ===== src/Worker/Email/Rounds.antt =====
-- Whole rounds of the worker of emails, and its loop, as sequences of statements on the table.
use rtk_account_manager.Common.{
  ◌≡◌, Bool, true, false, Option, none, some, GoError, Option-cases, Result-cases, inl, inr, List,
  [], ◌∷◌, Time, utc, add_time,
}
use rtk_account_manager.Model.Email.{EmailOutbox}
use rtk_account_manager.Store.Email.{
  EmailOutboxTransitionInput, email_key, claim_email_outbox_ready, transition_email_outbox,
}
use rtk_account_manager.Store.Email.Diagram.{is_result, Change, Changes, Steps, IsTable}
use rtk_account_manager.Store.Email.Refinement.{Changes-IsTable, Changes-Steps}
use rtk_account_manager.Store.Rows.{find_row}
use rtk_account_manager.Worker.Email.{
  Service, Mailer, transition, choose_delivery, deliver, start_delivery, deliver_all,
}
use rtk_account_manager.Worker.Email.Loop.{
  Schedule, Turn, claimed_round, unless_failed, run_once, run, Running, after_round,
}
use rtk_account_manager.Worker.Email.Deliveries.{choose_delivery-IsFor}

pub trans : {a b c : List EmailOutbox} → Changes a b → Changes b c → Changes a c
trans before Changes.stay = before
trans before (Changes.go between last) = Changes.go (trans before between) last

module _ (s : Service) (e : Mailer) where
  transition-Changes :
      (inp : EmailOutboxTransitionInput) (rows : List EmailOutbox)
      → is_result inp.status ≡ true
      → Changes rows (transition s e inp rows).1
  unfolding transition
  transition-Changes inp rows result = elim (Option-cases (e.transition_error inp.id)) [
    | inr (x, h) ↦ rw (h, transition) Changes.stay
    | inl h ↦
        rw (h, transition)
          (elim (Result-cases (transition_email_outbox e.accepts rows inp)) [
            | inr (x, h') ↦ rw h' Changes.stay
            | inl ((true, rows'), h') ↦
                rw h' (Changes.go Changes.stay (Change.transition e.accepts inp true result h'))
            | inl ((false, rows'), h') ↦
                rw h' (Changes.go Changes.stay (Change.transition e.accepts inp false result h'))
          ])
  ]

  start_delivery-Changes :
      (now : Time) (m : EmailOutbox) (rows : List EmailOutbox)
      → Changes rows (start_delivery s e now m rows).1
  unfolding start_delivery deliver
  start_delivery-Changes now m rows = elim (Option-cases (e.context_error m.id)) [
    | inr (x, h) ↦ rw (h, start_delivery) Changes.stay
    | inl h ↦
        rw (h, start_delivery)
          (transition-Changes (choose_delivery s e m now).0 rows
            (choose_delivery-IsFor s e now m).2)
  ]

  deliver_all-Changes :
      (now : Time) (ms rows : List EmailOutbox) → Changes rows (deliver_all s e now ms rows).1
  unfolding deliver_all
  deliver_all-Changes now [] rows = Changes.stay
  deliver_all-Changes now (m ∷ ms) rows =
      trans (start_delivery-Changes now m rows) (deliver_all-Changes now ms _)

  abbrev claimed : Time → List EmailOutbox → List EmailOutbox × List EmailOutbox
  claimed clock rows =
      claim_email_outbox_ready rows (utc clock) (add_time (utc clock) s.lease_duration) s.batch_size

  pub run_once-Changes :
      (schedule : Schedule) (clock : Time) (rows : List EmailOutbox)
      → Changes rows (run_once s e schedule clock rows).1
  unfolding run_once claimed_round
  run_once-Changes schedule clock rows = by_error e.claim_error
    where
      by_error :
          (c : Option GoError)
          → Changes rows (unless_failed c rows (claimed_round s e schedule (utc clock) rows)).1
      by_error (some x) = Changes.stay
      by_error none =
          trans
            (Changes.go Changes.stay
              (Change.claim (utc clock) (add_time (utc clock) s.lease_duration) s.batch_size))
            (deliver_all-Changes (utc clock) (schedule.start (claimed clock rows).0)
              (claimed clock rows).1)

after_round-Changes :
    (is_stopped : Bool) (failure : Option GoError) {rows rows' : List EmailOutbox} (rest : Running)
    → Changes rows rows'
    → Changes rows' rest.1
    → Changes rows (after_round is_stopped failure rows' rest).1
after_round-Changes is_stopped (some x) rest round more = round
after_round-Changes true none rest round more = round
after_round-Changes false none rest round more = trans round more

pub run-Changes :
    (s : Service) (turns : List Turn) (rows : List EmailOutbox) → Changes rows (run s turns rows).1
unfolding run
run-Changes s [] rows = Changes.stay
run-Changes s (t ∷ ts) rows =
    after_round-Changes t.is_stopped (run_once s t.mailer t.schedule t.clock rows).0.1
      (run s ts (run_once s t.mailer t.schedule t.clock rows).1)
      (run_once-Changes s t.mailer t.schedule t.clock rows) (run-Changes s ts _)

-- Whatever the mail service, the database, the generator and the schedule do, any number of turns of
-- the worker's loop over a well-formed table leaves a well-formed table, in which every email is
-- still there and has gone through states along the diagram only.
pub run-Steps :
    (s : Service) (turns : List Turn) (rows : List EmailOutbox) (m : EmailOutbox)
    → IsTable rows
    → find_row email_key m.id rows ≡ some m
    → IsTable (run s turns rows).1
      × (m' : EmailOutbox) × (find_row email_key m.id (run s turns rows).1 ≡ some m')
      × Steps m.status m'.status
run-Steps s turns rows m table found =
    let changes = run-Changes s turns rows in
    let (m', found', steps) = Changes-Steps m table changes found in
    (Changes-IsTable table changes, m', found', steps)
