-- ===== src/Worker/Outbox.antt =====
-- internal/worker/outbox/service.go: the worker that publishes the outbox.
pub mod Deployment
pub mod Laws
pub mod Invariants
pub mod Outcomes
pub mod Loop
use rtk_account_manager.Common.{
  ℕ, ◌+◌, String, str_eq, Bool, true, false, ◌&&◌, Option, none, some, List, [], ◌∷◌, ltb, length,
  if◌then◌else◌, ℤ, positive_or, Time, utc, truncate, add_time, Result, ok, err, ◌>>=◌, ◌>>◌,
  GoError, wrapped, is_canceled, is_conflict,
}
use rtk_account_manager.Broker.{is_transient}
use rtk_account_manager.Channel.Types.{Codec, Envelope}
use rtk_account_manager.Channel.Routes.{Route, route_for_message_type}
use rtk_account_manager.Channel.Envelopes.{validate_envelope}
use rtk_account_manager.Model.{
  JsonMap, DeviceMessageOutbox, DeviceMessageOutboxStatus, DeviceOperationStatus,
}
use rtk_account_manager.Store.Outbox.{OutboxPublishTransitionInput}

-- Durations are in nanoseconds.
pub record Options : Type 0 where
  pub max_attempts : ℤ
  pub poll_interval : ℤ
  pub retry_delay : ℤ
  pub lease_duration : ℤ
  pub batch_size : ℤ

pub record Service : Type 0 where
  pub max_attempts : ℕ
  pub poll_interval : ℕ
  pub retry_delay : ℕ
  pub lease_duration : ℕ
  pub batch_size : ℕ

pub new_service : Options → Service
new_service opts = record {
  max_attempts = positive_or opts.max_attempts 5;
  poll_interval = positive_or opts.poll_interval 5000000000;
  retry_delay = positive_or opts.retry_delay (positive_or opts.poll_interval 5000000000);
  lease_duration = positive_or opts.lease_duration 30000000000;
  batch_size = positive_or opts.batch_size 20;
}

pub record Stats : Type 0 where
  pub claimed : ℕ
  pub published : ℕ
  pub retrying : ℕ
  pub dead_lettered : ℕ

-- What the worker uses: the two methods of its messageStore, the broker's Publish, the clock and
-- the context, as functions of the state `W` of the surroundings.
pub record Surroundings (W : Type 0) : Type 0 where
  pub claim : W → Time → Time → ℕ → Result (List DeviceMessageOutbox) × W
  pub record_transition : W → OutboxPublishTransitionInput → Result (Unit {0}) × W
  pub publish : W → String → Envelope → Option GoError × W
  pub now : W → Time
  pub context_error : W → Option GoError

-- encoding/json as the worker uses it, and the text of an error.
pub record Runtime : Type 0 where
  pub codec : Codec
  pub marshal : JsonMap → Result (List ℕ)
  pub error_text : GoError → String

abbrev text_or_empty : Option String → String
text_or_empty none = ""
text_or_empty (some s) = s

abbrev pub envelope_of : DeviceMessageOutbox → Route → List ℕ → Envelope
envelope_of m route raw = record {
  message_id = m.message_id;
  correlation_id = m.correlation_id;
  causation_id = text_or_empty m.causation_id;
  operation_id = m.operation_id;
  source_service = route.source_service;
  target_service = route.target_service;
  message_type = m.message_type;
  schema_version = m.schema_version;
  partition_key = m.partition_key;
  occurred_at = utc m.created_at;
  payload = raw;
}

unfoldable pub envelope_from_message : Runtime → DeviceMessageOutbox → Result Envelope
envelope_from_message rt m = do
  route ← route_for_message_type m.message_type
  raw ← rt.marshal m.payload
  validate_envelope rt.codec (envelope_of m route raw) m.stream
  ok (envelope_of m route raw)

-- The transitions without the message's identity, which recordTransition adds.
abbrev published_code : String
published_code = "publish_failed"

-- recordTransition fills in the row as the worker saw it.
unfoldable pub expecting :
    DeviceMessageOutbox → OutboxPublishTransitionInput → OutboxPublishTransitionInput
expecting m inp = record inp {
  message_id = m.message_id;
  expected_message_status = m.status;
  expected_attempt_count = m.attempt_count;
  expected_available_at = m.available_at;
}

abbrev blank_transition : DeviceMessageOutbox → ℕ → Time → OutboxPublishTransitionInput
blank_transition m attempts at_time = record {
  message_id = m.message_id;
  expected_message_status = m.status;
  expected_attempt_count = m.attempt_count;
  expected_available_at = m.available_at;
  message_status = DeviceMessageOutboxStatus.published;
  attempt_count = attempts;
  last_error = none;
  available_at = at_time;
  published_at = none;
  operation_status = DeviceOperationStatus.published;
  operation_error_code = none;
  operation_error_message = none;
  operation_retryable = none;
  operation_completed_at = none;
}

unfoldable pub published_transition : DeviceMessageOutbox → ℕ → Time → OutboxPublishTransitionInput
published_transition m attempts attempted_at = record (blank_transition m attempts attempted_at) {
  published_at = some attempted_at;
}

unfoldable pub retry_transition :
    Runtime → Service → DeviceMessageOutbox → ℕ → Time → GoError → OutboxPublishTransitionInput
retry_transition rt s m attempts attempted_at cause =
    record (blank_transition m attempts (add_time attempted_at s.retry_delay)) {
      message_status = DeviceMessageOutboxStatus.retrying;
      last_error = some (rt.error_text cause);
      operation_status = DeviceOperationStatus.retrying;
      operation_error_code = some published_code;
      operation_error_message = some (rt.error_text cause);
      operation_retryable = some true;
    }

unfoldable pub dead_letter_transition :
    Runtime → DeviceMessageOutbox → ℕ → Time → GoError → OutboxPublishTransitionInput
dead_letter_transition rt m attempts attempted_at cause =
    record (blank_transition m attempts attempted_at) {
      message_status = DeviceMessageOutboxStatus.dead_lettered;
      last_error = some (rt.error_text cause);
      operation_status = DeviceOperationStatus.dead_lettered;
      operation_error_code = some published_code;
      operation_error_message = some (rt.error_text cause);
      operation_retryable = some (is_transient cause);
      operation_completed_at = some attempted_at;
    }

module _ {W : Type 0} (env : Surroundings W) (rt : Runtime) (s : Service) where
  abbrev current_time : W → Time
  current_time w = truncate (utc (env.now w))

  -- The outcome "" of a transition that lost its race is `none`.
  abbrev applied :
      DeviceMessageOutboxStatus
      → Result (Unit {0}) × W
      → Result (Option DeviceMessageOutboxStatus) × W
  applied status (ok done, w) = (ok (some status), w)
  applied status (err e, w) = (if is_conflict e then ok none else err e, w)

  pub record_transition :
      W
      → DeviceMessageOutbox
      → OutboxPublishTransitionInput
      → Result (Option DeviceMessageOutboxStatus) × W
  unfolding expecting
  record_transition w m inp = applied inp.message_status (env.record_transition w (expecting m inp))

  -- What follows Publish, by the error that it returned.
  pub after_publish :
      DeviceMessageOutbox
      → Time
      → Option GoError × W
      → Result (Option DeviceMessageOutboxStatus) × W
  unfolding record_transition published_transition retry_transition dead_letter_transition
  after_publish m attempted_at (none, w) =
      record_transition w m (published_transition m (m.attempt_count + 1) attempted_at)
  after_publish m attempted_at (some e, w) =
      if is_canceled e
      then (err e, w)
      else if is_transient e && ltb (m.attempt_count + 1) s.max_attempts
      then record_transition w m (retry_transition rt s m (m.attempt_count + 1) attempted_at e)
      else record_transition w m (dead_letter_transition rt m (m.attempt_count + 1) attempted_at e)

  pub publish_message : W → DeviceMessageOutbox → Result (Option DeviceMessageOutboxStatus) × W
  unfolding after_publish
  publish_message w m = elim (envelope_from_message rt m) [
    | err e ↦ record_transition w m (
        dead_letter_transition rt m (m.attempt_count + 1) (current_time w)
          (wrapped "invalid outbox message: " e))
    | ok envelope ↦ after_publish m (current_time w) (env.publish w m.stream envelope)
  ]

  abbrev count : Stats → Option DeviceMessageOutboxStatus → Stats
  count stats (some DeviceMessageOutboxStatus.published) = record stats {
    published = stats.published + 1;
  }
  count stats (some DeviceMessageOutboxStatus.retrying) = record stats {
    retrying = stats.retrying + 1;
  }
  count stats (some DeviceMessageOutboxStatus.dead_lettered) = record stats {
    dead_lettered = stats.dead_lettered + 1;
  }
  count stats _ = stats

  abbrev proceed :
      Stats
      → Result (Option DeviceMessageOutboxStatus) × W
      → (W → Stats → (Stats × Option GoError) × W)
      → (Stats × Option GoError) × W
  proceed stats (err e, w) rest = ((stats, some e), w)
  proceed stats (ok outcome, w) rest = rest w (count stats outcome)

  -- The loop of RunOnce over the claimed messages.
  pub publish_all : W → Stats → List DeviceMessageOutbox → (Stats × Option GoError) × W
  publish_all w stats [] = ((stats, none), w)
  publish_all w stats (m ∷ ms) = elim (env.context_error w) [
    | some e ↦ ((stats, some e), w)
    | none ↦ proceed stats (publish_message w m) (λ w' stats'. publish_all w' stats' ms)
  ]

  abbrev no_stats : Stats
  no_stats = record { claimed = 0; published = 0; retrying = 0; dead_lettered = 0 }

  abbrev after_claim : Result (List DeviceMessageOutbox) × W → (Stats × Option GoError) × W
  after_claim (err e, w) = ((no_stats, some e), w)
  after_claim (ok claimed, w) = publish_all w (record no_stats { claimed = length claimed }) claimed

  pub run_once : W → (Stats × Option GoError) × W
  run_once w =
      after_claim
        (env.claim w (current_time w) (add_time (current_time w) s.lease_duration) s.batch_size)
