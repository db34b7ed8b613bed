-- ===== src/Model.antt =====
-- internal/model/model.go: the rows of the device tables that the event channel reads and writes.
-- The primary keys and the updated_at columns, which the database keeps by itself, are left out, and
-- of a device the columns that no modelled operation reads.
pub mod Email
pub mod User
use rtk_account_manager.Common.{ℕ, String, Bool, true, false, List, Option, Time}
use rtk_account_manager.Common.Json.{Json}

pub data DeviceOperationType : Type 0 where
  provision deactivate unprovision entitlement_update : DeviceOperationType

pub data DeviceOperationStatus : Type 0 where
  pending published succeeded failed retrying dead_lettered : DeviceOperationStatus

pub data DeviceMessageOutboxStatus : Type 0 where
  pending published retrying dead_lettered : DeviceMessageOutboxStatus

pub data DeviceMessageInboxStatus : Type 0 where
  processed failed retrying dead_lettered : DeviceMessageInboxStatus

abbrev pub JsonMap : Type 0
JsonMap = List (String × Json)

pub record DeviceOperation : Type 0 where
  pub operation_id : String
  pub correlation_id : String
  pub organization_id : String
  pub device_id : String
  pub operation_type : DeviceOperationType
  pub status : DeviceOperationStatus
  pub requested_by : Option String
  pub request_payload : JsonMap
  pub result_payload : JsonMap
  pub error_code : Option String
  pub error_message : Option String
  pub retryable : Option Bool
  pub created_at : Time
  pub completed_at : Option Time

pub record DeviceMessageOutbox : Type 0 where
  pub message_id : String
  pub operation_id : String
  pub correlation_id : String
  pub causation_id : Option String
  pub stream : String
  pub message_type : String
  pub schema_version : String
  pub partition_key : String
  pub payload : JsonMap
  pub status : DeviceMessageOutboxStatus
  pub attempt_count : ℕ
  pub last_error : Option String
  pub available_at : Time
  pub published_at : Option Time
  pub created_at : Time

pub record DeviceMessageInbox : Type 0 where
  pub message_id : String
  pub operation_id : String
  pub correlation_id : String
  pub causation_id : Option String
  pub stream : String
  pub message_type : String
  pub schema_version : String
  pub partition_key : String
  pub payload : JsonMap
  pub status : DeviceMessageInboxStatus
  pub attempt_count : ℕ
  pub last_error : Option String
  pub received_at : Time
  pub processed_at : Option Time
  pub created_at : Time

-- The status column holds one of the values "unknown", "online", "offline" and "disabled".
pub record Device : Type 0 where
  pub id : String
  pub organization_id : String
  pub status : String
  pub last_seen_at : Option Time
  pub metadata : JsonMap
  pub disabled_at : Option Time

-- == on the status types
abbrev pub same_outbox_status : DeviceMessageOutboxStatus → DeviceMessageOutboxStatus → Bool
same_outbox_status pending pending = true
same_outbox_status published published = true
same_outbox_status retrying retrying = true
same_outbox_status dead_lettered dead_lettered = true
same_outbox_status _ _ = false

abbrev pub is_published : DeviceMessageOutboxStatus → Bool
is_published published = true
is_published _ = false

-- status IN ('pending', 'retrying')
abbrev pub is_waiting : DeviceMessageOutboxStatus → Bool
is_waiting pending = true
is_waiting retrying = true
is_waiting _ = false

abbrev pub is_final : DeviceOperationStatus → Bool
is_final succeeded = true
is_final failed = true
is_final _ = false
