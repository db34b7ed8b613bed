-- ===== src/Worker/Inbox/Loop.antt =====
-- NewService and Run of internal/worker/inbox/service.go.
use rtk_account_manager.Common.{
  ℕ, String, str_eq, Bool, Option, none, some, List, [], ◌∷◌, if◌then◌else◌, ℤ, positive_or,
  GoError, is_canceled,
}
use rtk_account_manager.Broker.{is_transient}
use rtk_account_manager.Channel.Types.{stream_video_account_events}
use rtk_account_manager.Store.Tables.{Db}
use rtk_account_manager.Worker.Inbox.Messages.{Settings}
use rtk_account_manager.Worker.Inbox.Rounds.{Consumer, run_once}

-- The options that are no functions; durations are in nanoseconds.
pub record Options : Type 0 where
  pub stream : String
  pub consumer_group : String
  pub max_attempts : ℤ
  pub poll_interval : ℤ
  pub batch_size : ℤ

pub record Service : Type 0 where
  pub stream : String
  pub consumer_group : String
  pub max_attempts : ℕ
  pub poll_interval : ℕ
  pub batch_size : ℕ

unfoldable pub new_service : Options → Service
new_service opts = record {
  stream = if str_eq opts.stream "" then stream_video_account_events else opts.stream;
  consumer_group = opts.consumer_group;
  max_attempts = positive_or opts.max_attempts 5;
  poll_interval = positive_or opts.poll_interval 5000000000;
  batch_size = positive_or opts.batch_size 20;
}

module _ {P : Type 0} (c : Consumer P) (settings : Settings) (s : Service) where
  -- What Run returns after a round, or `none` while it still runs, and the state: nil for a context
  -- that is canceled, another error as it is; after a transient one the loop goes on.
  abbrev pub after_round :
      Bool
      → Option GoError
      → Db × P
      → Option (Option GoError) × (Db × P)
      → Option (Option GoError) × (Db × P)
  after_round is_stopped (some e) w rest =
      if is_canceled e
      then (some none, w)
      else if is_transient e
      then (if is_stopped then (some none, w) else rest)
      else (some (some e), w)
  after_round is_stopped none w rest = if is_stopped then (some none, w) else rest

  -- Run over as many rounds as the list has; an entry says whether the context ends in the wait
  -- after its round.
  unfoldable pub run : List Bool → Db × P → Option (Option GoError) × (Db × P)
  run [] w = (none, w)
  run (is_stopped ∷ waits) w =
      let ((stats, failure), w') = run_once c settings s.batch_size w in
      after_round is_stopped failure w' (run waits w')
