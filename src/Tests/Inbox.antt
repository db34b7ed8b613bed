-- ===== src/Tests/Inbox.antt =====
-- The inbox worker on the sample tables: the result of a deactivation is received, twice.
use rtk_account_manager.Common.{
  ℕ, ◌+◌, String, str_eq, ◌≡◌, refl, ap, inl, Bool, none, some, List, [], ◌∷◌, Result, ok, err,
  GoError, plain,
}
use rtk_account_manager.Channel.Types.{
  DeviceDeactivateSucceededPayload, deactivate_succeeded, PayloadKind, PayloadOf,
}
use rtk_account_manager.Channel.Text.{is_blank, is_uuid}
use rtk_account_manager.Channel.Routes.{message_specs}
use rtk_account_manager.Channel.Fields.{
  require_non_blank, require_uuid, require_utc_time, validate_required_strings,
  validate_lifecycle_payload_ids,
}
use rtk_account_manager.Channel.Payloads.{validate, partition_key_of}
use rtk_account_manager.Channel.Envelopes.{
  check_header, check_spec, require_json_fields, decode_payload, validate_and_decode,
}
use rtk_account_manager.Store.Projection.{
  project_device, decide_projection, deactivate_succeeded_projection, is_stale,
  is_refused_as_disabled, find_device, replace_device,
}
use rtk_account_manager.Channel.Envelopes.Tests.{device_id}
use rtk_account_manager.Model.{DeviceMessageInbox, DeviceMessageInboxStatus, DeviceOperationStatus}
use rtk_account_manager.Store.Rows.{find_row, update_row}
use rtk_account_manager.Store.Tables.{Db}
use rtk_account_manager.Store.Inbox.Create.{create_or_get_inbox_message, is_storable}
use rtk_account_manager.Store.Inbox.Process.{
  InboxProcessTransitionInput, InboxProcessTransitionResult, processed_row, completed_row,
  record_inbox_process_transition,
}
use rtk_account_manager.Worker.Inbox.Transitions.{
  success_transition, activity_projection, build_transition_for_payload,
}
use rtk_account_manager.Worker.Inbox.Messages.{
  Message, Settings, Clock, process_message, choose_transition, normalized, record_outcome,
  is_completed_lifecycle_operation,
}
use rtk_account_manager.Worker.Inbox.Laws.{redelivery_skips, foreign_message_fails}
use rtk_account_manager.Worker.Inbox.Finished.{finished_operation_kept}
use rtk_account_manager.Worker.Inbox.Rounds.{Consumer, run_once}
use rtk_account_manager.Worker.Inbox.Rounds.Laws.{total, run_once-total}
use rtk_account_manager.Tests.Samples.{encoding, after, operation, finished, db, finished_db}

abbrev report : DeviceDeactivateSucceededPayload
report = record {
  org_id = "11111111-2222-4333-8444-555555555555";
  account_device_id = device_id;
  video_cloud_devid = "cam-7";
  activity_id = "";
  deactivated_at = after 20;
}

abbrev decode : (k : PayloadKind) → List ℕ → Result (PayloadOf k)
decode deactivate_succeeded bytes = ok report
decode _ bytes = err (plain "cannot unmarshal")

abbrev settings : Settings
settings = record {
  stream = "video.account.events";
  max_attempts = 5;
  codec = record { decode = decode; object_keys = λ bytes. ok []; lower_rune = λ c. c };
  encoding = encoding;
}

abbrev result : Message
result = record {
  stream = "video.account.events";
  envelope = record {
    message_id = "e-1";
    correlation_id = "c-1";
    causation_id = "m-1";
    operation_id = "op-1";
    source_service = "realtek_video_server";
    target_service = "rtk_account_manager";
    message_type = "DeviceDeactivateSucceeded";
    schema_version = "1.0";
    partition_key = device_id;
    occurred_at = after 20;
    payload = 123 ∷ 125 ∷ [];
  };
}

abbrev clock : ℕ → Clock
clock n = record { received = after n; inserted = after n; recorded = after (n + 1) }

abbrev db_after : Db
db_after = (process_message settings db (clock 30) result).1

processed :
    (process_message settings db (clock 30) result).0 ≡ ok (some DeviceMessageInboxStatus.processed)
unfolding process_message create_or_get_inbox_message is_storable is_blank find_row update_row
    record_inbox_process_transition validate_and_decode check_header check_spec message_specs
    require_json_fields decode_payload validate require_non_blank require_uuid require_utc_time
    validate_required_strings validate_lifecycle_payload_ids partition_key_of is_uuid
    build_transition_for_payload choose_transition normalized record_outcome project_device
    decide_projection deactivate_succeeded_projection is_stale is_refused_as_disabled find_device
    replace_device success_transition activity_projection
processed = refl

redelivery_skips_example : process_message settings db_after (clock 90) result ≡ (ok none, db_after)
redelivery_skips_example =
    redelivery_skips settings db db_after (clock 30) (clock 90) result
      DeviceMessageInboxStatus.processed (ap (λ x. (x, db_after)) processed) refl

abbrev foreign : Message
foreign = record result { stream = "video.other.events" }

abbrev is_events : String → Bool
is_events t = str_eq t "video.account.events"

foreign_message_fails_example :
    (e : GoError) × (process_message settings db (clock 30) foreign ≡ (err e, db))
foreign_message_fails_example =
    foreign_message_fails settings db (clock 30) foreign (inl (λ e. cc (ap is_events e)))

abbrev finished_after : Db
finished_after = (process_message settings finished_db (clock 30) result).1

processed_late :
    (process_message settings finished_db (clock 30) result).0
    ≡ ok (some DeviceMessageInboxStatus.processed)
unfolding process_message create_or_get_inbox_message is_storable is_blank find_row update_row
    record_inbox_process_transition validate_and_decode check_header check_spec message_specs
    require_json_fields decode_payload validate require_non_blank require_uuid require_utc_time
    validate_required_strings validate_lifecycle_payload_ids partition_key_of is_uuid
    build_transition_for_payload choose_transition normalized record_outcome project_device
    decide_projection deactivate_succeeded_projection is_stale is_refused_as_disabled find_device
    replace_device success_transition activity_projection
processed_late = refl

finished_operation_kept_example : finished_after.operations ≡ finished_db.operations
unfolding is_completed_lifecycle_operation find_row
finished_operation_kept_example =
    finished_operation_kept settings finished_db finished_after (clock 30) result
      DeviceMessageInboxStatus.processed finished refl refl
      (ap (λ x. (x, finished_after)) processed_late)

-- A consumer that holds the one message.
abbrev consumer : Consumer ℕ
consumer = record {
  receive = λ p limit. (ok (result ∷ []), p);
  acknowledge = λ p msg. (none, p + 1);
  clock = λ p. clock 30;
  context_error = λ p. none;
}

without_error : (run_once consumer settings 20 (db, 0)).0.1 ≡ none
unfolding process_message create_or_get_inbox_message is_storable is_blank find_row update_row
    record_inbox_process_transition validate_and_decode check_header check_spec message_specs
    require_json_fields decode_payload validate require_non_blank require_uuid require_utc_time
    validate_required_strings validate_lifecycle_payload_ids partition_key_of is_uuid
    build_transition_for_payload choose_transition normalized record_outcome project_device
    decide_projection deactivate_succeeded_projection is_stale is_refused_as_disabled find_device
    replace_device success_transition activity_projection run_once
without_error = refl

run_once-total_example :
    total (run_once consumer settings 20 (db, 0)).0.0
    ≡ (run_once consumer settings 20 (db, 0)).0.0.received
run_once-total_example = run_once-total consumer settings 20 (db, 0) without_error

abbrev row : DeviceMessageInbox
row = record {
  message_id = "e-1";
  operation_id = "op-1";
  correlation_id = "c-1";
  causation_id = none;
  stream = "video.account.events";
  message_type = "DeviceDeactivateSucceeded";
  schema_version = "1.0";
  partition_key = device_id;
  payload = [];
  status = DeviceMessageInboxStatus.retrying;
  attempt_count = 0;
  last_error = none;
  received_at = after 20;
  processed_at = none;
  created_at = after 20;
}

abbrev received_db : Db
received_db = record db { inbox = row ∷ [] }

abbrev success : InboxProcessTransitionInput
success = record (success_transition operation.organization_id device_id (after 20) none []) {
  message_id = "e-1";
  attempt_count = 1;
}

abbrev settled_db : Db
settled_db = record db {
  inbox = processed_row success row ∷ [];
  operations = completed_row success DeviceOperationStatus.succeeded operation ∷ [];
}

abbrev settled : InboxProcessTransitionResult
settled = record {
  message = processed_row success row;
  operation = some (completed_row success DeviceOperationStatus.succeeded operation);
  device = none;
}
