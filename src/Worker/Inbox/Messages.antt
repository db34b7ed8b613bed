-- ===== src/Worker/Inbox/Messages.antt =====
-- processMessage of internal/worker/inbox/service.go over the store's transactions.
use rtk_account_manager.Common.{
  ℕ, ◌+◌, String, str_eq, Bool, true, false, ◌&&◌, not, Option, none, some, List, [], ◌∷◌, ltb,
  if◌then◌else◌, Time, utc, truncate, is_zero, Result, ok, err, GoError, unexpected_stream,
  partition_key_mismatch,
}
use rtk_account_manager.Common.Json.{string}
use rtk_account_manager.Broker.{is_transient}
use rtk_account_manager.Channel.Types.{Codec, Envelope}
use rtk_account_manager.Channel.Text.{is_blank}
use rtk_account_manager.Channel.Envelopes.{validate_and_decode}
use rtk_account_manager.Model.{
  JsonMap, DeviceOperation, DeviceOperationType, provision, deactivate, unprovision,
  entitlement_update, DeviceMessageInbox, DeviceMessageInboxStatus, is_final,
}
use rtk_account_manager.Store.Rows.{find_row}
use rtk_account_manager.Store.Tables.{Db, operation_key}
use rtk_account_manager.Store.Projection.{put_json}
use rtk_account_manager.Store.Inbox.Create.{
  Encoding, DeviceMessageInboxCreateInput, create_or_get_inbox_message, raw_key, base64_key,
  error_key,
}
use rtk_account_manager.Store.Inbox.Process.{
  InboxProcessTransitionInput, InboxProcessTransitionResult, record_inbox_process_transition,
}
use rtk_account_manager.Worker.Inbox.Transitions.{
  build_transition_for_payload, projection_transition,
}

-- broker.Message without its acknowledgement, which is an operation of the surroundings
pub record Message : Type 0 where
  pub stream : String
  pub envelope : Envelope

-- What the worker is made with and what it reads of the libraries.
pub record Settings : Type 0 where
  pub stream : String
  pub max_attempts : ℕ
  pub codec : Codec
  pub encoding : Encoding

-- The readings of the clock on a message's arrival and on the record of its outcome, and that of
-- the database on the insertion of its row.
pub record Clock : Type 0 where
  pub received : Time
  pub inserted : Time
  pub recorded : Time

abbrev in_micros : Time → Time
in_micros t = truncate (utc t)

abbrev received_at : Clock → Envelope → Time
received_at clock e =
    if is_zero e.occurred_at then in_micros clock.received else in_micros e.occurred_at

abbrev causation_id_ptr : String → Option String
causation_id_ptr s = if str_eq s "" then none else some s

abbrev with_raw : Option String → JsonMap → JsonMap
with_raw none m = m
with_raw (some s) m = (raw_key, string s) ∷ m

abbrev pub is_lifecycle : DeviceOperationType → Bool
is_lifecycle provision = true
is_lifecycle deactivate = true
is_lifecycle unprovision = true
is_lifecycle entitlement_update = true

unfoldable pub is_completed_lifecycle_operation : DeviceOperation → Bool
is_completed_lifecycle_operation o = is_final o.status && is_lifecycle o.operation_type

abbrev pub is_settled : DeviceMessageInboxStatus → Bool
is_settled DeviceMessageInboxStatus.processed = true
is_settled DeviceMessageInboxStatus.dead_lettered = true
is_settled _ = false

unfoldable pub partition_key_matches_operation_device : String → String → Bool
partition_key_matches_operation_device partition_key device_id =
    not (is_blank partition_key) && str_eq partition_key device_id

-- withEnvelopePartitionKeySnapshot
abbrev with_partition_key_snapshot : JsonMap → String → String → JsonMap
with_partition_key_snapshot payload original persisted =
    if str_eq original persisted
    then payload
    else put_json "_envelope_partition_key" (string original) payload

abbrev pub normalized_for :
    DeviceMessageInboxCreateInput → Option DeviceOperation → DeviceMessageInboxCreateInput
normalized_for inp none = inp
normalized_for inp (some o) = record inp {
  partition_key = o.device_id;
  payload = with_partition_key_snapshot inp.payload inp.partition_key o.device_id;
}

-- The input that createInboxMessage passes on to the store.
unfoldable pub normalized : Db → DeviceMessageInboxCreateInput → DeviceMessageInboxCreateInput
normalized db inp =
    if is_blank inp.partition_key
    then normalized_for inp (find_row operation_key inp.operation_id db.operations)
    else inp

abbrev or_cause : Option GoError → GoError → GoError
or_cause none e = e
or_cause (some cause) e = cause

-- The pair that processMessage returns after it has recorded a transition.
abbrev pub with_outcome :
    Db
    → DeviceMessageInboxStatus
    → Result (InboxProcessTransitionResult × Db)
    → Result (Option DeviceMessageInboxStatus) × Db
with_outcome db outcome (err e) = (err e, db)
with_outcome db outcome (ok (r, db')) = (ok (some outcome), db')

module _ (s : Settings) where
  abbrev decode_error_snapshot : List ℕ → Result JsonMap → JsonMap × Option GoError
  decode_error_snapshot bytes (ok m) = (m, none)
  decode_error_snapshot bytes (err e) = (
    with_raw (s.encoding.valid_text bytes) (
        (base64_key, string (s.encoding.base64_encode bytes))
        ∷ (error_key, string (s.encoding.error_text e))
        ∷ []),
    some e,
  )

  -- payloadMapFromEnvelope
  unfoldable pub payload_map_from_envelope : List ℕ → JsonMap × Option GoError
  payload_map_from_envelope [] = ([], none)
  payload_map_from_envelope (b ∷ bs) =
      decode_error_snapshot (b ∷ bs) (s.encoding.unmarshal (b ∷ bs))

  unfoldable pub create_input : Clock → Message → DeviceMessageInboxCreateInput
  unfolding payload_map_from_envelope
  create_input clock msg = record {
    message_id = msg.envelope.message_id;
    operation_id = msg.envelope.operation_id;
    correlation_id = msg.envelope.correlation_id;
    causation_id = causation_id_ptr msg.envelope.causation_id;
    stream = msg.stream;
    message_type = msg.envelope.message_type;
    schema_version = msg.envelope.schema_version;
    partition_key = msg.envelope.partition_key;
    payload = (payload_map_from_envelope msg.envelope.payload).0;
    status = DeviceMessageInboxStatus.retrying;
    attempt_count = 0;
    last_error = none;
    received_at = received_at clock msg.envelope;
    processed_at = none;
  }

  unfoldable pub record_outcome :
      Db → InboxProcessTransitionInput → Result (Option DeviceMessageInboxStatus) × Db
  record_outcome db inp =
      with_outcome db inp.message_status (record_inbox_process_transition s.encoding db inp)

  -- recordRetry
  abbrev retry_input : DeviceMessageInbox → GoError → InboxProcessTransitionInput
  retry_input m cause = record (projection_transition "" "" none) {
    message_id = m.message_id;
    message_status = DeviceMessageInboxStatus.retrying;
    attempt_count = m.attempt_count + 1;
    last_error = some (s.encoding.error_text cause);
  }

  -- recordDeadLetter
  abbrev dead_letter_input : Clock → DeviceMessageInbox → GoError → InboxProcessTransitionInput
  dead_letter_input clock m cause = record (projection_transition "" "" none) {
    message_id = m.message_id;
    message_status = DeviceMessageInboxStatus.dead_lettered;
    attempt_count = m.attempt_count + 1;
    last_error = some (s.encoding.error_text cause);
    processed_at = some (in_micros clock.recorded);
  }

  -- A transition as processMessage completes it.
  abbrev processed_input :
      Clock → DeviceMessageInbox → InboxProcessTransitionInput → InboxProcessTransitionInput
  processed_input clock m t = record t {
    message_id = m.message_id;
    message_status = DeviceMessageInboxStatus.processed;
    attempt_count = m.attempt_count + 1;
    processed_at = some (in_micros clock.recorded);
  }

  -- The transition that is recorded when the message's operation is found.
  unfoldable pub choose_with_operation :
      Clock
      → DeviceMessageInbox
      → InboxProcessTransitionInput
      → DeviceOperation
      → InboxProcessTransitionInput
  unfolding partition_key_matches_operation_device is_completed_lifecycle_operation
      projection_transition
  choose_with_operation clock m t o =
      if not (partition_key_matches_operation_device m.partition_key o.device_id)
      then dead_letter_input clock m (partition_key_mismatch m.partition_key o.device_id)
      else if is_completed_lifecycle_operation o
      then processed_input clock m (projection_transition "" "" none)
      else processed_input clock m t

  -- By the operation's new status, if the payload has one, and the operation, if there is one.
  unfoldable pub choose_processed :
      Db → Clock → DeviceMessageInbox → InboxProcessTransitionInput → InboxProcessTransitionInput
  unfolding choose_with_operation
  choose_processed db clock m t = elim t.operation_status [
    | none ↦ processed_input clock m t
    | some status ↦ elim (find_row operation_key m.operation_id db.operations) [
      | none ↦ processed_input clock m t
      | some o ↦ choose_with_operation clock m t o
    ]
  ]

  unfoldable pub choose_for_payload :
      Db
      → Clock
      → DeviceMessageInbox
      → Result InboxProcessTransitionInput
      → InboxProcessTransitionInput
  unfolding choose_processed projection_transition
  choose_for_payload db clock m (ok t) = choose_processed db clock m t
  choose_for_payload db clock m (err e) =
      if is_transient e && ltb (m.attempt_count + 1) s.max_attempts
      then retry_input m e
      else dead_letter_input clock m e

  -- The transition that processMessage records for a message that is not settled.
  unfoldable pub choose_transition :
      Db → Clock → Message → DeviceMessageInbox → InboxProcessTransitionInput
  unfolding choose_for_payload payload_map_from_envelope projection_transition
  choose_transition db clock msg m =
      if not (str_eq msg.stream s.stream)
      then dead_letter_input clock m (unexpected_stream msg.stream)
      else elim (validate_and_decode s.codec msg.envelope s.stream) [
        | err e ↦
            dead_letter_input clock m
              (or_cause (payload_map_from_envelope msg.envelope.payload).1 e)
        | ok p ↦
            choose_for_payload db clock m
              (build_transition_for_payload msg.envelope.message_type p.kind p.body)
      ]

  -- The outcome "" of a message that is skipped is `none`.
  abbrev pub after_create :
      Db
      → Clock
      → Message
      → Result ((DeviceMessageInbox × Bool) × Db)
      → Result (Option DeviceMessageInboxStatus) × Db
  after_create db clock msg (err e) = (err e, db)
  after_create db clock msg (ok ((m, created), db')) =
      if not created && is_settled m.status
      then (ok none, db')
      else record_outcome db' (choose_transition db' clock msg m)

  unfoldable pub process_message :
      Db → Clock → Message → Result (Option DeviceMessageInboxStatus) × Db
  unfolding create_input normalized record_outcome choose_transition
  process_message db clock msg = after_create db clock msg (
      create_or_get_inbox_message s.encoding db clock.inserted
        (normalized db (create_input clock msg)))
