-- ===== src/Store/Messages.antt =====
-- The creation, listing and updates of outbox and inbox messages in
-- internal/store/device_messages.go, with the keys and checks of the table device_message_outbox
-- (migrations/006_device_message_persistence.sql and
-- migrations/081_device_entitlement_snapshots.sql).
pub mod Laws
use rtk_account_manager.Common.{
  ℕ, ◌==◌, String, str_eq, Bool, true, false, ◌&&◌, not, Option, none, some, is_some, List, [], ◌∷◌,
  all, any, codes, take, if◌then◌else◌, Time, Result, ok, err, ◌>>=◌, ◌>>◌, refuse_if, GoError,
  plain, conflict, not_found, is_not_found,
}
use rtk_account_manager.Channel.Types.{
  provision_requested, deactivate_requested, unprovision_requested, snapshot_requested,
  schema_version_v1, stream_account_video_commands,
}
use rtk_account_manager.Channel.Routes.{message_type_of}
use rtk_account_manager.Channel.Text.{is_blank}
use rtk_account_manager.Channel.Fields.{contains}
use rtk_account_manager.Model.{
  JsonMap, DeviceOperation, DeviceOperationType, provision, deactivate, unprovision,
  entitlement_update, DeviceOperationStatus, DeviceMessageOutbox, DeviceMessageOutboxStatus,
  DeviceMessageInbox, DeviceMessageInboxStatus, Device,
}
use rtk_account_manager.Store.Rows.{find_row, update_row}
use rtk_account_manager.Store.Tables.{Db, operation_key, outbox_key, inbox_key, or_not_found}
use rtk_account_manager.Store.Claim.{candidates}
use rtk_account_manager.Store.Inbox.Create.{Encoding, same_bytes, check_violation}

pub record DeviceMessageOutboxCreateInput : Type 0 where
  pub message_id : String
  pub operation_id : String
  pub correlation_id : String
  pub causation_id : Option String
  pub stream : String
  pub message_type : String
  pub schema_version : String
  pub partition_key : String
  pub payload : JsonMap
  pub status : DeviceMessageOutboxStatus
  pub attempt_count : ℕ
  pub last_error : Option String
  pub available_at : Time
  pub published_at : Option Time

pub record DeviceMessageOutboxUpdateInput : Type 0 where
  pub status : DeviceMessageOutboxStatus
  pub attempt_count : ℕ
  pub last_error : Option String
  pub available_at : Time
  pub published_at : Option Time

pub record DeviceMessageInboxUpdateInput : Type 0 where
  pub status : DeviceMessageInboxStatus
  pub attempt_count : ℕ
  pub last_error : Option String
  pub processed_at : Option Time

-- validatePartitionKeyMatchesOperation
unfoldable pub validate_partition_key_matches_operation : Db → String → String → Result (Unit {0})
validate_partition_key_matches_operation db operation_id partition_key =
    if is_blank partition_key
    then ok tt
    else (or_not_found (find_row operation_key operation_id db.operations) >>= λ o.
        refuse_if (not (str_eq o.device_id partition_key)) conflict)

-- err != nil && !errors.Is(err, ErrNotFound)
abbrev pub ignore_not_found : Result (Unit {0}) → Result (Unit {0})
ignore_not_found (ok done) = ok done
ignore_not_found (err e) = if is_not_found e then ok tt else err e

abbrev command_types : List String
command_types =
    message_type_of provision_requested
    ∷ message_type_of deactivate_requested
    ∷ message_type_of unprovision_requested
    ∷ message_type_of snapshot_requested
    ∷ []

-- The CHECK clauses of device_message_outbox; btrim takes off spaces only.
unfoldable pub is_storable_command : DeviceMessageOutboxCreateInput → Bool
is_storable_command inp =
    str_eq inp.stream stream_account_video_commands
    && contains command_types inp.message_type
    && str_eq inp.schema_version schema_version_v1
    && not (all (λ c. c == 0x20) (codes inp.partition_key))

abbrev pub new_message : Time → DeviceMessageOutboxCreateInput → DeviceMessageOutbox
new_message created_at inp = record {
  message_id = inp.message_id;
  operation_id = inp.operation_id;
  correlation_id = inp.correlation_id;
  causation_id = inp.causation_id;
  stream = inp.stream;
  message_type = inp.message_type;
  schema_version = inp.schema_version;
  partition_key = inp.partition_key;
  payload = inp.payload;
  status = inp.status;
  attempt_count = inp.attempt_count;
  last_error = inp.last_error;
  available_at = inp.available_at;
  published_at = inp.published_at;
  created_at = created_at;
}

-- INSERT INTO device_message_outbox: the checks, the unique message_id, and the reference to the
-- operation.
unfoldable pub insert_message :
    Db → Time → DeviceMessageOutboxCreateInput → Result (DeviceMessageOutbox × Db)
unfolding is_storable_command
insert_message db created_at inp = do
  refuse_if (not (is_storable_command inp)) check_violation
  refuse_if (is_some (find_row outbox_key inp.message_id db.outbox)) (plain "duplicate key value")
  refuse_if (not (is_some (find_row operation_key inp.operation_id db.operations)))
      (plain "violates foreign key constraint")
  ok (new_message created_at inp, record db { outbox = new_message created_at inp ∷ db.outbox })

abbrev pub updated_message :
    DeviceMessageOutboxUpdateInput → DeviceMessageOutbox → DeviceMessageOutbox
updated_message inp m = record m {
  status = inp.status;
  attempt_count = inp.attempt_count;
  last_error = inp.last_error;
  available_at = inp.available_at;
  published_at = inp.published_at;
}

abbrev pub updated_inbox : DeviceMessageInboxUpdateInput → DeviceMessageInbox → DeviceMessageInbox
updated_inbox inp m = record m {
  status = inp.status;
  attempt_count = inp.attempt_count;
  last_error = inp.last_error;
  processed_at = inp.processed_at;
}

-- ListOutboxMessagesReady selects as ClaimOutboxMessagesReady does.
pub list_outbox_messages_ready : Db → Time → ℕ → List DeviceMessageOutbox
list_outbox_messages_ready = candidates

unfoldable pub update_outbox_message :
    Db → String → DeviceMessageOutboxUpdateInput → Result (DeviceMessageOutbox × Db)
update_outbox_message db message_id inp = do
  m ← or_not_found (find_row outbox_key message_id db.outbox)
  ok (
    updated_message inp m,
    record db { outbox = update_row outbox_key message_id (updated_message inp) db.outbox },
  )

unfoldable pub update_inbox_message :
    Db → String → DeviceMessageInboxUpdateInput → Result (DeviceMessageInbox × Db)
update_inbox_message db message_id inp = do
  m ← or_not_found (find_row inbox_key message_id db.inbox)
  ok (
    updated_inbox inp m,
    record db { inbox = update_row inbox_key message_id (updated_inbox inp) db.inbox },
  )

module _ (enc : Encoding) where
  unfoldable pub create_outbox_message :
      Db → Time → DeviceMessageOutboxCreateInput → Result (DeviceMessageOutbox × Db)
  unfolding validate_partition_key_matches_operation insert_message
  create_outbox_message db created_at inp = do
    payload ← enc.marshal inp.payload
    ignore_not_found
        (validate_partition_key_matches_operation db inp.operation_id inp.partition_key)
    insert_message db created_at inp
