-- ===== src/Tests/Operations.antt =====
-- The creation of operations and messages on the sample tables.
use rtk_account_manager.Common.{◌≡◌, refl, true, false, none, some, [], ◌∷◌, ok}
use rtk_account_manager.Channel.Text.{is_blank}
use rtk_account_manager.Model.{
  DeviceOperationStatus, unprovision, DeviceMessageOutbox, DeviceMessageOutboxStatus,
}
use rtk_account_manager.Store.Rows.{find_row}
use rtk_account_manager.Store.Tables.{Db}
use rtk_account_manager.Store.Operations.{
  DeviceOperationCreateInput, new_operation, require_device_in_organization,
  insert_or_compare_operation, create_or_get_device_operation,
}
use rtk_account_manager.Store.Operations.Laws.{create_again}
use rtk_account_manager.Store.Messages.{
  DeviceMessageOutboxCreateInput, is_storable_command, create_outbox_message,
}
use rtk_account_manager.Store.Messages.Laws.{create_outbox_message_iff}
use rtk_account_manager.Tests.Samples.{after, operation, camera, db, encoding}

abbrev removal : DeviceOperationCreateInput
removal = record {
  operation_id = "op-2";
  correlation_id = "c-2";
  organization_id = camera.organization_id;
  device_id = camera.id;
  operation_type = unprovision;
  status = DeviceOperationStatus.pending;
  requested_by = some "admin";
  request_payload = [];
  result_payload = [];
  error_code = none;
  error_message = none;
  retryable = none;
  completed_at = none;
}

abbrev db_with_removal : Db
db_with_removal = record db { operations = new_operation (after 1) removal ∷ db.operations }

create_again_example :
    create_or_get_device_operation encoding db_with_removal (after 2) removal
    ≡ ok ((new_operation (after 1) removal, false), db_with_removal)
unfolding create_or_get_device_operation require_device_in_organization insert_or_compare_operation
    find_row
create_again_example =
    create_again encoding db db_with_removal (after 1) (after 2) removal
      (new_operation (after 1) removal) true refl

abbrev command : DeviceMessageOutboxCreateInput
command = record {
  message_id = "m-9";
  operation_id = operation.operation_id;
  correlation_id = "c-1";
  causation_id = none;
  stream = "account.video.commands";
  message_type = "DeviceDeactivateRequested";
  schema_version = "1.0";
  partition_key = camera.id;
  payload = [];
  status = DeviceMessageOutboxStatus.pending;
  attempt_count = 0;
  last_error = none;
  available_at = after 0;
  published_at = none;
}

create_outbox_message_iff_example :
    (m : DeviceMessageOutbox) × (db' : Db) × (create_outbox_message encoding db (after 1) command
      ≡ ok (m, db'))
unfolding is_blank is_storable_command find_row
create_outbox_message_iff_example =
    (create_outbox_message_iff encoding db (after 1) command (123 ∷ 125 ∷ []) refl refl).1
      (refl, refl, operation, refl, refl)
