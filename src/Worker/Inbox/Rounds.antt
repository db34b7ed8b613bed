-- ===== src/Worker/Inbox/Rounds.antt =====
-- RunOnce of internal/worker/inbox/service.go over the store's transactions, as
-- cmd/inbox-worker/main.go puts them together.
pub mod Laws
use rtk_account_manager.Common.{
  ℕ, ◌+◌, suc, Bool, true, false, not, Option, none, some, List, [], ◌∷◌, length, if◌then◌else◌,
  Result, ok, err, GoError,
}
use rtk_account_manager.Model.{DeviceMessageInboxStatus}
use rtk_account_manager.Store.Tables.{Db}
use rtk_account_manager.Worker.Inbox.Messages.{Message, Settings, Clock, process_message}

pub record Stats : Type 0 where
  pub received : ℕ
  pub processed : ℕ
  pub retrying : ℕ
  pub dead_lettered : ℕ
  pub skipped : ℕ

-- The broker's Receive and Acknowledge, the clock and the context, as functions of a state `P`.
pub record Consumer (P : Type 0) : Type 0 where
  pub receive : P → ℕ → Result (List Message) × P
  pub acknowledge : P → Message → Option GoError × P
  pub clock : P → Clock
  pub context_error : P → Option GoError

unfoldable pub should_acknowledge_outcome : Option DeviceMessageInboxStatus → Bool
should_acknowledge_outcome (some DeviceMessageInboxStatus.retrying) = false
should_acknowledge_outcome _ = true

-- The switch on the outcome.
unfoldable pub count : Stats → Option DeviceMessageInboxStatus → Stats
count stats (some DeviceMessageInboxStatus.processed) = record stats {
  processed = stats.processed + 1;
}
count stats (some DeviceMessageInboxStatus.retrying) = record stats {
  retrying = stats.retrying + 1;
}
count stats (some DeviceMessageInboxStatus.dead_lettered) = record stats {
  dead_lettered = stats.dead_lettered + 1;
}
count stats (some DeviceMessageInboxStatus.failed) = stats
count stats none = record stats { skipped = stats.skipped + 1 }

module _ {P : Type 0} (c : Consumer P) (s : Settings) (batch_size : ℕ) where
  abbrev Round : Type 0
  Round = (Stats × Option GoError) × (Db × P)

  abbrev pub acknowledged : Stats → Db → Option GoError × P → (P → Round) → Round
  acknowledged stats db (some e, p) rest = ((stats, some e), (db, p))
  acknowledged stats db (none, p) rest = rest p

  abbrev pub after_process :
      Stats
      → P
      → Message
      → Result (Option DeviceMessageInboxStatus) × Db
      → (Db → P → Stats → Round)
      → Round
  after_process stats p msg (err e, db) rest = ((stats, some e), (db, p))
  after_process stats p msg (ok outcome, db) rest =
      if should_acknowledge_outcome outcome
      then acknowledged stats db (c.acknowledge p msg) (λ p'. rest db p' (count stats outcome))
      else rest db p (count stats outcome)

  -- The loop over the received messages.
  unfoldable pub process_all : Db → P → Stats → List Message → Round
  unfolding should_acknowledge_outcome count
  process_all db p stats [] = ((stats, none), (db, p))
  process_all db p stats (msg ∷ msgs) = elim (c.context_error p) [
    | some e ↦ ((stats, some e), (db, p))
    | none ↦
        after_process stats p msg (process_message s db (c.clock p) msg)
          (λ db' p' stats'. process_all db' p' stats' msgs)
  ]

  abbrev pub no_stats : Stats
  no_stats = record { received = 0; processed = 0; retrying = 0; dead_lettered = 0; skipped = 0 }

  abbrev pub after_receive : Db → Result (List Message) × P → Round
  after_receive db (err e, p) = ((no_stats, some e), (db, p))
  after_receive db (ok msgs, p) = process_all db p (record no_stats { received = length msgs }) msgs

  unfoldable pub run_once : Db × P → Round
  unfolding process_all
  run_once w = after_receive w.0 (c.receive w.1 batch_size)
