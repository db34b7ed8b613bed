-- ===== src/Store/Tables.antt =====
-- The four tables, and how rows are found in them.
use rtk_account_manager.Common.{String, Option, none, some, List, Result, ok, err, not_found}
use rtk_account_manager.Model.{DeviceOperation, DeviceMessageOutbox, DeviceMessageInbox, Device}
use rtk_account_manager.Store.Rows.{find_row}

pub record Db : Type 0 where
  pub operations : List DeviceOperation
  pub outbox : List DeviceMessageOutbox
  pub inbox : List DeviceMessageInbox
  pub devices : List Device

abbrev pub operation_key : DeviceOperation → String
operation_key o = o.operation_id

abbrev pub outbox_key : DeviceMessageOutbox → String
outbox_key m = m.message_id

abbrev pub inbox_key : DeviceMessageInbox → String
inbox_key m = m.message_id

-- pgx.ErrNoRows becomes ErrNotFound
abbrev pub or_not_found {ℓ} : {A : Type ℓ} → Option A → Result A
or_not_found none = err not_found
or_not_found (some a) = ok a

-- GetDeviceOperation
pub get_device_operation : Db → String → Result DeviceOperation
get_device_operation db operation_id =
    or_not_found (find_row operation_key operation_id db.operations)

-- GetOutboxMessage
pub get_outbox_message : Db → String → Result DeviceMessageOutbox
get_outbox_message db message_id = or_not_found (find_row outbox_key message_id db.outbox)

-- GetInboxMessage
pub get_inbox_message : Db → String → Result DeviceMessageInbox
get_inbox_message db message_id = or_not_found (find_row inbox_key message_id db.inbox)
