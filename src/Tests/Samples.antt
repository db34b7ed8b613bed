-- ===== src/Tests/Samples.antt =====
-- An operation, its command in the outbox, a device, and the tables that hold them.
use rtk_account_manager.Common.{ℕ, ◌+◌, ◌*◌, none, some, [], ◌∷◌, pos, Time, ok}
use rtk_account_manager.Common.Json.{string}
use rtk_account_manager.Channel.Envelopes.Tests.{device_id, created}
use rtk_account_manager.Model.{
  DeviceOperation, DeviceOperationStatus, deactivate, DeviceMessageOutbox,
  DeviceMessageOutboxStatus, Device,
}
use rtk_account_manager.Store.Tables.{Db}
use rtk_account_manager.Store.Inbox.Create.{Encoding}

abbrev pub after : ℕ → Time
after n = record { nanos = 63900000000000000000 + n * 1000000000; offset = pos 0 }

abbrev pub operation : DeviceOperation
operation = record {
  operation_id = "op-1";
  correlation_id = "c-1";
  organization_id = "11111111-2222-4333-8444-555555555555";
  device_id = device_id;
  operation_type = deactivate;
  status = DeviceOperationStatus.pending;
  requested_by = some "admin";
  request_payload = [];
  result_payload = [];
  error_code = none;
  error_message = none;
  retryable = none;
  created_at = created;
  completed_at = none;
}

abbrev pub message : DeviceMessageOutbox
message = record {
  message_id = "m-1";
  operation_id = "op-1";
  correlation_id = "c-1";
  causation_id = none;
  stream = "account.video.commands";
  message_type = "DeviceDeactivateRequested";
  schema_version = "1.0";
  partition_key = device_id;
  payload = [];
  status = DeviceMessageOutboxStatus.pending;
  attempt_count = 0;
  last_error = none;
  available_at = created;
  published_at = none;
  created_at = created;
}

-- Another message, which waits for its second retry.
abbrev pub late : DeviceMessageOutbox
late = record message {
  message_id = "m-2";
  status = DeviceMessageOutboxStatus.retrying;
  attempt_count = 2;
  available_at = after 60;
}

-- Another message, which has been published.
abbrev pub done : DeviceMessageOutbox
done = record message {
  message_id = "m-3";
  status = DeviceMessageOutboxStatus.published;
  attempt_count = 1;
  published_at = some (after 1);
}

abbrev pub finished : DeviceOperation
finished = record operation {
  status = DeviceOperationStatus.succeeded;
  completed_at = some (after 9);
}

abbrev pub camera : Device
camera = record {
  id = device_id;
  organization_id = "11111111-2222-4333-8444-555555555555";
  status = "online";
  last_seen_at = some (after 5);
  metadata = ("video_cloud_devid", string "cam-7") ∷ ("label", string "door") ∷ [];
  disabled_at = none;
}

abbrev pub db : Db
db = record {
  operations = operation ∷ [];
  outbox = message ∷ late ∷ done ∷ [];
  inbox = [];
  devices = camera ∷ [];
}

abbrev pub finished_db : Db
finished_db = record db { operations = finished ∷ [] }

abbrev pub encoding : Encoding
encoding = record {
  marshal = λ m. ok (123 ∷ 125 ∷ []);
  unmarshal = λ bytes. ok [];
  base64_encode = λ bytes. "e30=";
  base64_decode = λ s. none;
  to_valid_utf8 = λ bytes. "{}";
  valid_text = λ bytes. some "{}";
  error_text = λ e. "failed";
}
