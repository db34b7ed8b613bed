-- ===== src/Store/Operations.antt =====
-- The creation and update of device operations in internal/store/device_messages.go.
pub mod Laws
use rtk_account_manager.Common.{
  ℕ, ◌==◌, String, str_eq, Bool, true, false, ◌&&◌, not, Option, none, some, is_some, List, [], ◌∷◌,
  all, any, codes, take, if◌then◌else◌, Time, Result, ok, err, ◌>>=◌, ◌>>◌, refuse_if, GoError,
  plain, conflict, not_found, is_not_found,
}
use rtk_account_manager.Channel.Types.{
  provision_requested, deactivate_requested, unprovision_requested, snapshot_requested,
  schema_version_v1, stream_account_video_commands,
}
use rtk_account_manager.Channel.Routes.{message_type_of}
use rtk_account_manager.Channel.Text.{is_blank}
use rtk_account_manager.Channel.Fields.{contains}
use rtk_account_manager.Model.{
  JsonMap, DeviceOperation, DeviceOperationType, provision, deactivate, unprovision,
  entitlement_update, DeviceOperationStatus, DeviceMessageOutbox, DeviceMessageOutboxStatus,
  DeviceMessageInbox, DeviceMessageInboxStatus, Device,
}
use rtk_account_manager.Store.Rows.{find_row, update_row}
use rtk_account_manager.Store.Tables.{Db, operation_key, outbox_key, inbox_key, or_not_found}
use rtk_account_manager.Store.Claim.{candidates}
use rtk_account_manager.Store.Inbox.Create.{Encoding, same_bytes, check_violation}

pub record DeviceOperationCreateInput : Type 0 where
  pub operation_id : String
  pub correlation_id : String
  pub organization_id : String
  pub device_id : String
  pub operation_type : DeviceOperationType
  pub status : DeviceOperationStatus
  pub requested_by : Option String
  pub request_payload : JsonMap
  pub result_payload : JsonMap
  pub error_code : Option String
  pub error_message : Option String
  pub retryable : Option Bool
  pub completed_at : Option Time

pub record DeviceOperationUpdateInput : Type 0 where
  pub status : DeviceOperationStatus
  pub result_payload : JsonMap
  pub error_code : Option String
  pub error_message : Option String
  pub retryable : Option Bool
  pub completed_at : Option Time

-- SELECT EXISTS (… WHERE organization_id = $1 AND id = $2)
unfoldable pub require_device_in_organization : Db → String → String → Result (Unit {0})
require_device_in_organization db org_id device_id =
    refuse_if (not (any (λ d. str_eq d.organization_id org_id && str_eq d.id device_id) db.devices))
      not_found

abbrev pub new_operation : Time → DeviceOperationCreateInput → DeviceOperation
new_operation created_at inp = record {
  operation_id = inp.operation_id;
  correlation_id = inp.correlation_id;
  organization_id = inp.organization_id;
  device_id = inp.device_id;
  operation_type = inp.operation_type;
  status = inp.status;
  requested_by = inp.requested_by;
  request_payload = inp.request_payload;
  result_payload = inp.result_payload;
  error_code = inp.error_code;
  error_message = inp.error_message;
  retryable = inp.retryable;
  created_at = created_at;
  completed_at = inp.completed_at;
}

-- == on the operation types
abbrev pub same_operation_type : DeviceOperationType → DeviceOperationType → Bool
same_operation_type provision provision = true
same_operation_type deactivate deactivate = true
same_operation_type unprovision unprovision = true
same_operation_type entitlement_update entitlement_update = true
same_operation_type _ _ = false

-- The row that UPDATE device_operations writes.
abbrev pub updated_operation : DeviceOperationUpdateInput → DeviceOperation → DeviceOperation
updated_operation inp o = record o {
  status = inp.status;
  result_payload = inp.result_payload;
  error_code = inp.error_code;
  error_message = inp.error_message;
  retryable = inp.retryable;
  completed_at = inp.completed_at;
}

module _ (enc : Encoding) where
  -- compareOperationCreate finds no difference.
  unfoldable pub is_same_operation : DeviceOperation → DeviceOperationCreateInput → List ℕ → Bool
  is_same_operation existing inp payload =
      str_eq existing.correlation_id inp.correlation_id
      && str_eq existing.organization_id inp.organization_id
      && str_eq existing.device_id inp.device_id
      && same_operation_type existing.operation_type inp.operation_type
      && same_bytes enc (enc.marshal existing.request_payload) payload

  -- INSERT … ON CONFLICT (operation_id) DO NOTHING, then the row that is there.
  unfoldable pub insert_or_compare_operation :
      Db
      → Time
      → DeviceOperationCreateInput
      → List ℕ
      → Option DeviceOperation
      → Result ((DeviceOperation × Bool) × Db)
  unfolding is_same_operation
  insert_or_compare_operation db created_at inp payload none = ok (
    (new_operation created_at inp, true),
    record db { operations = new_operation created_at inp ∷ db.operations },
  )
  insert_or_compare_operation db created_at inp payload (some existing) = do
    refuse_if (not (is_same_operation existing inp payload)) conflict
    ok ((existing, false), db)

  unfoldable pub create_or_get_device_operation :
      Db → Time → DeviceOperationCreateInput → Result ((DeviceOperation × Bool) × Db)
  unfolding require_device_in_organization insert_or_compare_operation
  create_or_get_device_operation db created_at inp =
      require_device_in_organization db inp.organization_id inp.device_id
      >> (enc.marshal inp.request_payload >>= λ request_payload.
          enc.marshal inp.result_payload >>= λ result_payload.
          insert_or_compare_operation db created_at inp request_payload
            (find_row operation_key inp.operation_id db.operations))

  unfoldable pub update_device_operation :
      Db → String → DeviceOperationUpdateInput → Result (DeviceOperation × Db)
  update_device_operation db operation_id inp = do
    payload ← enc.marshal inp.result_payload
    o ← or_not_found (find_row operation_key operation_id db.operations)
    ok (
      updated_operation inp o,
      record db {
        operations = update_row operation_key operation_id (updated_operation inp) db.operations;
      },
    )
