-- ===== src/Store/Inbox/Process.antt =====
-- internal/store/inbox_worker.go: the transaction that records what came of a received message.
pub mod Laws
use rtk_account_manager.Common.{
  ℕ, String, str_eq, Bool, ◌&&◌, not, Option, none, some, Time, Result, ok, ◌>>=◌, ◌>>◌, refuse_if,
  conflict,
}
use rtk_account_manager.Model.{
  JsonMap, DeviceOperation, DeviceOperationStatus, DeviceMessageInbox, DeviceMessageInboxStatus,
  Device,
}
use rtk_account_manager.Store.Rows.{find_row, update_row}
use rtk_account_manager.Store.Tables.{Db, operation_key, inbox_key, or_not_found}
use rtk_account_manager.Store.Projection.{DeviceProjectionInput, project_device}
use rtk_account_manager.Store.Inbox.Create.{Encoding}

pub record InboxProcessTransitionInput : Type 0 where
  pub message_id : String
  pub message_status : DeviceMessageInboxStatus
  pub attempt_count : ℕ
  pub last_error : Option String
  pub processed_at : Option Time
  pub operation_status : Option DeviceOperationStatus
  pub operation_result : JsonMap
  pub operation_error_code : Option String
  pub operation_error_message : Option String
  pub operation_retryable : Option Bool
  pub operation_completed_at : Option Time
  pub organization_id : String
  pub device_id : String
  pub projection : Option DeviceProjectionInput

pub record InboxProcessTransitionResult : Type 0 where
  pub message : DeviceMessageInbox
  pub operation : Option DeviceOperation
  pub device : Option Device

-- UPDATE device_message_inbox
abbrev pub processed_row : InboxProcessTransitionInput → DeviceMessageInbox → DeviceMessageInbox
processed_row inp m = record m {
  status = inp.message_status;
  attempt_count = inp.attempt_count;
  last_error = inp.last_error;
  processed_at = inp.processed_at;
}

-- UPDATE device_operations
abbrev pub completed_row :
    InboxProcessTransitionInput → DeviceOperationStatus → DeviceOperation → DeviceOperation
completed_row inp status o = record o {
  status = status;
  result_payload = inp.operation_result;
  error_code = inp.operation_error_code;
  error_message = inp.operation_error_message;
  retryable = inp.operation_retryable;
  completed_at = inp.operation_completed_at;
}

abbrev pub is_of_device : InboxProcessTransitionInput → DeviceOperation → Bool
is_of_device inp o =
    str_eq o.organization_id inp.organization_id && str_eq o.device_id inp.device_id

unfoldable pub process_operation :
    Encoding
    → Db
    → String
    → InboxProcessTransitionInput
    → Option DeviceOperationStatus
    → Result (Option DeviceOperation × Db)
process_operation enc db operation_id inp none = ok (none, db)
process_operation enc db operation_id inp (some status) = do
  payload ← enc.marshal inp.operation_result
  o ← or_not_found (find_row operation_key operation_id db.operations)
  refuse_if (not (is_of_device inp o)) conflict
  ok (
    some (completed_row inp status o),
    record db {
      operations = update_row operation_key operation_id (completed_row inp status) db.operations;
    },
  )

unfoldable pub process_device :
    Db → InboxProcessTransitionInput → Option DeviceProjectionInput → Result (Option Device × Db)
process_device db inp none = ok (none, db)
process_device db inp (some projection) = do
  (device, db') ← project_device db inp.organization_id inp.device_id projection
  ok (some device, db')

unfoldable pub record_inbox_process_transition :
    Encoding → Db → InboxProcessTransitionInput → Result (InboxProcessTransitionResult × Db)
unfolding process_operation process_device
record_inbox_process_transition enc db inp = do
  current ← or_not_found (find_row inbox_key inp.message_id db.inbox)
  let updated : Db = record db {
    inbox = update_row inbox_key inp.message_id (processed_row inp) db.inbox;
  }
  (operation, settled) ← process_operation enc updated current.operation_id inp inp.operation_status
  (device, projected) ← process_device settled inp inp.projection
  ok (
    record { message = processed_row inp current; operation = operation; device = device },
    projected,
  )
