-- ===== src/Store/Outbox.antt =====
-- internal/store/outbox_worker.go: the transaction that records what came of publishing a message.
pub mod Laws
use rtk_account_manager.Common.{
  ℕ, String, str_eq, Bool, true, false, ◌&&◌, ◌||◌, not, Option, none, some, List, [], ◌∷◌, ltb,
  ◌==◌, if◌then◌else◌, Time, time_equal, Result, ok, err, ◌>>=◌, ◌>>◌, refuse_if, conflict,
}
use rtk_account_manager.Model.{
  DeviceOperation, DeviceOperationStatus, DeviceMessageOutbox, DeviceMessageOutboxStatus,
  same_outbox_status, is_published,
}
use rtk_account_manager.Store.Rows.{find_row, update_row}
use rtk_account_manager.Store.Tables.{Db, operation_key, outbox_key, or_not_found}

pub record OutboxPublishTransitionInput : Type 0 where
  pub message_id : String
  pub expected_message_status : DeviceMessageOutboxStatus
  pub expected_attempt_count : ℕ
  pub expected_available_at : Time
  pub message_status : DeviceMessageOutboxStatus
  pub attempt_count : ℕ
  pub last_error : Option String
  pub available_at : Time
  pub published_at : Option Time
  pub operation_status : DeviceOperationStatus
  pub operation_error_code : Option String
  pub operation_error_message : Option String
  pub operation_retryable : Option Bool
  pub operation_completed_at : Option Time

pub record OutboxPublishTransitionResult : Type 0 where
  pub message : DeviceMessageOutbox
  pub operation : DeviceOperation

unfoldable pub is_published_outcome_override :
    DeviceMessageOutbox → OutboxPublishTransitionInput → Bool
is_published_outcome_override current inp =
    is_published inp.message_status && not (is_published current.status)

-- The row is as the worker saw it when it claimed the message.
unfoldable pub is_as_expected : DeviceMessageOutbox → OutboxPublishTransitionInput → Bool
is_as_expected current inp =
    same_outbox_status current.status inp.expected_message_status
    && current.attempt_count == inp.expected_attempt_count
    && time_equal current.available_at inp.expected_available_at

unfoldable pub should_apply_outbox_publish_transition :
    DeviceMessageOutbox → OutboxPublishTransitionInput → Bool
unfolding is_published_outcome_override is_as_expected
should_apply_outbox_publish_transition current inp =
    if is_as_expected current inp then true else is_published_outcome_override current inp

unfoldable pub should_repair_operation_for_published_override : DeviceOperationStatus → Bool
should_repair_operation_for_published_override DeviceOperationStatus.pending = true
should_repair_operation_for_published_override DeviceOperationStatus.published = true
should_repair_operation_for_published_override DeviceOperationStatus.retrying = true
should_repair_operation_for_published_override DeviceOperationStatus.dead_lettered = true
should_repair_operation_for_published_override _ = false

-- A published outcome never lowers the attempt count.
unfoldable pub recorded_attempts : DeviceMessageOutbox → OutboxPublishTransitionInput → ℕ
recorded_attempts current inp =
    if is_published inp.message_status && ltb inp.attempt_count current.attempt_count
    then current.attempt_count
    else inp.attempt_count

-- UPDATE device_message_outbox
unfoldable pub transition_message :
    DeviceMessageOutbox → OutboxPublishTransitionInput → DeviceMessageOutbox → DeviceMessageOutbox
unfolding recorded_attempts
transition_message current inp row = record row {
  status = inp.message_status;
  attempt_count = recorded_attempts current inp;
  last_error = inp.last_error;
  available_at = inp.available_at;
  published_at = inp.published_at;
}

-- UPDATE device_operations
unfoldable pub transition_operation :
    OutboxPublishTransitionInput → DeviceOperation → DeviceOperation
transition_operation inp row = record row {
  status = inp.operation_status;
  result_payload = [];
  error_code = inp.operation_error_code;
  error_message = inp.operation_error_message;
  retryable = inp.operation_retryable;
  completed_at = inp.operation_completed_at;
}

-- !publishedOverride || shouldRepairOperationForPublishedOverride(operation.Status)
unfoldable pub moves_operation :
    DeviceMessageOutbox → OutboxPublishTransitionInput → DeviceOperation → Bool
unfolding is_published_outcome_override should_repair_operation_for_published_override
moves_operation current inp operation =
    not (is_published_outcome_override current inp)
    || should_repair_operation_for_published_override operation.status

-- The operation after the transaction, and the table of operations.
abbrev pub settle :
    Db
    → DeviceMessageOutbox
    → OutboxPublishTransitionInput
    → DeviceMessageOutbox
    → DeviceOperation
    → OutboxPublishTransitionResult × Db
settle db current inp message operation =
    let rows = update_row outbox_key inp.message_id (transition_message current inp) db.outbox in
    if moves_operation current inp operation
    then (
      record { message = message; operation = transition_operation inp operation },
      record db {
        outbox = rows;
        operations =
            update_row operation_key message.operation_id (transition_operation inp) db.operations;
      },
    )
    else (record { message = message; operation = operation }, record db { outbox = rows })

unfoldable pub record_outbox_publish_transition :
    Db → OutboxPublishTransitionInput → Result (OutboxPublishTransitionResult × Db)
unfolding should_apply_outbox_publish_transition
record_outbox_publish_transition db inp = do
  current ← or_not_found (find_row outbox_key inp.message_id db.outbox)
  refuse_if (not (should_apply_outbox_publish_transition current inp)) conflict
  let message = transition_message current inp current
  operation ← or_not_found (find_row operation_key message.operation_id db.operations)
  ok (settle db current inp message operation)
