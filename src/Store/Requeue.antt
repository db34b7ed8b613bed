-- ===== src/Store/Requeue.antt =====
-- RequeueOutboxMessage and RequeueInboxMessage of internal/store/lifecycle_admin.go, by which an
-- operator hands a message back to its worker.
pub mod Laws
use rtk_account_manager.Common.{
  String, Bool, true, false, ◌&&◌, Option, none, some, List, [], Time, utc, truncate, Result, ok,
  err, ◌>>=◌, ◌>>◌, refuse_if, conflict,
}
use rtk_account_manager.Model.{
  DeviceOperation, DeviceOperationStatus, DeviceOperationType, provision, deactivate, unprovision,
  entitlement_update, DeviceMessageOutbox, DeviceMessageOutboxStatus, DeviceMessageInbox,
  DeviceMessageInboxStatus, is_final,
}
use rtk_account_manager.Store.Rows.{find_row, update_row}
use rtk_account_manager.Store.Tables.{Db, operation_key, outbox_key, inbox_key, or_not_found}

abbrev has_lifecycle_type : DeviceOperationType → Bool
has_lifecycle_type provision = true
has_lifecycle_type deactivate = true
has_lifecycle_type entitlement_update = true
has_lifecycle_type unprovision = false

unfoldable pub is_completed_lifecycle_operation_status :
    DeviceOperationStatus → DeviceOperationType → Bool
is_completed_lifecycle_operation_status status type = has_lifecycle_type type && is_final status

-- The row's columns that the requeue resets.
abbrev pub reset_message : Time → DeviceMessageOutbox → DeviceMessageOutbox
reset_message available_at m = record m {
  status = DeviceMessageOutboxStatus.pending;
  attempt_count = 0;
  last_error = none;
  available_at = available_at;
  published_at = none;
}

abbrev pub reset_operation : DeviceOperation → DeviceOperation
reset_operation o = record o {
  status = DeviceOperationStatus.pending;
  result_payload = [];
  error_code = none;
  error_message = none;
  retryable = none;
  completed_at = none;
}

-- The message, its operation, and whether it was requeued.
abbrev pub OutboxRequeue : Type 0
OutboxRequeue = DeviceMessageOutbox × DeviceOperation × Bool

requeued : Db → Time → DeviceMessageOutbox → DeviceOperation → OutboxRequeue × Db
requeued db available_at m o = (
  (reset_message available_at m, reset_operation o, true),
  record db {
    outbox = update_row outbox_key m.message_id (reset_message available_at) db.outbox;
    operations = update_row operation_key o.operation_id reset_operation db.operations;
  },
)

-- The switch on the message's status.
requeue_by_status :
    Db
    → Time
    → DeviceMessageOutbox
    → DeviceOperation
    → DeviceMessageOutboxStatus
    → Result (OutboxRequeue × Db)
unfolding requeued
requeue_by_status db available_at m o DeviceMessageOutboxStatus.pending = ok ((m, o, false), db)
requeue_by_status db available_at m o DeviceMessageOutboxStatus.retrying =
    ok (requeued db available_at m o)
requeue_by_status db available_at m o DeviceMessageOutboxStatus.dead_lettered =
    ok (requeued db available_at m o)
requeue_by_status db available_at m o DeviceMessageOutboxStatus.published = err conflict

pub requeue_outbox_message : Db → String → Time → Result (OutboxRequeue × Db)
unfolding requeue_by_status is_completed_lifecycle_operation_status
requeue_outbox_message db message_id available_at = do
  m ← or_not_found (find_row outbox_key message_id db.outbox)
  o ← or_not_found (find_row operation_key m.operation_id db.operations)
  refuse_if (is_completed_lifecycle_operation_status o.status o.operation_type) conflict
  requeue_by_status db (truncate (utc available_at)) m o m.status

abbrev pub reset_inbox : DeviceMessageInbox → DeviceMessageInbox
reset_inbox m = record m {
  status = DeviceMessageInboxStatus.retrying;
  attempt_count = 0;
  last_error = none;
  processed_at = none;
}

abbrev pub InboxRequeue : Type 0
InboxRequeue = DeviceMessageInbox × Option DeviceOperation × Bool

requeue_inbox_by_status :
    Db
    → DeviceMessageInbox
    → Option DeviceOperation
    → DeviceMessageInboxStatus
    → Result (InboxRequeue × Db)
requeue_inbox_by_status db m o DeviceMessageInboxStatus.retrying = ok ((m, o, false), db)
requeue_inbox_by_status db m o DeviceMessageInboxStatus.dead_lettered = ok (
  (reset_inbox m, o, true),
  record db { inbox = update_row inbox_key m.message_id reset_inbox db.inbox },
)
requeue_inbox_by_status db m o DeviceMessageInboxStatus.processed = err conflict
requeue_inbox_by_status db m o DeviceMessageInboxStatus.failed = err conflict

pub requeue_inbox_message : Db → String → Result (InboxRequeue × Db)
unfolding requeue_inbox_by_status
requeue_inbox_message db message_id = do
  m ← or_not_found (find_row inbox_key message_id db.inbox)
  requeue_inbox_by_status db m (find_row operation_key m.operation_id db.operations) m.status
