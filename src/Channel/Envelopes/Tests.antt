-- ===== src/Channel/Envelopes/Tests.antt =====
-- A DeviceDeactivateRequested message that is accepted, and what ValidateAndDecode makes of it.
use rtk_account_manager.Common.{
  ℕ, String, ◌≡◌, refl, List, [], ◌∷◌, Result, ok, err, plain, pos, Time,
}
use rtk_account_manager.Channel.Types.{
  Envelope, DeviceDeactivateRequestedPayload, deactivate_requested, PayloadKind, PayloadOf, Payload,
  Codec,
}
use rtk_account_manager.Channel.Routes.Laws.{message_specs-message_type_of}
use rtk_account_manager.Channel.Fields.{
  require_non_blank, require_uuid, require_utc_time, validate_required_strings,
  validate_lifecycle_payload_ids,
}
use rtk_account_manager.Channel.Text.{is_blank, is_uuid}
use rtk_account_manager.Channel.Payloads.{validate, partition_key_of}
use rtk_account_manager.Channel.Envelopes.{
  check_header, check_spec, require_json_fields, decode_payload, validate_and_decode,
  validate_envelope,
}
use rtk_account_manager.Channel.Envelopes.Accepts.{Accepts, validate_and_decode_iff}

abbrev org : String
org = "11111111-2222-4333-8444-555555555555"

abbrev pub device_id : String
device_id = "aaaaaaaa-bbbb-4ccc-8ddd-eeeeeeeeeeee"

abbrev request : DeviceDeactivateRequestedPayload
request = record {
  org_id = org;
  account_device_id = device_id;
  video_cloud_devid = "cam-7";
  activity_id = "";
  requested_by = "admin";
  reason = "returned";
}

abbrev payload : Payload
payload = record { kind = deactivate_requested; body = request }

-- The two bytes of "{}" stand for the raw JSON of the request.
abbrev pub raw : List ℕ
raw = 123 ∷ 125 ∷ []

abbrev decode : (k : PayloadKind) → List ℕ → Result (PayloadOf k)
decode deactivate_requested bytes = ok request
decode _ bytes = err (plain "cannot unmarshal")

abbrev pub codec : Codec
codec = record { decode = decode; object_keys = λ bytes. ok []; lower_rune = λ c. c }

abbrev pub created : Time
created = record { nanos = 63900000000000000000; offset = pos 0 }

abbrev pub envelope : Envelope
envelope = record {
  message_id = "m-1";
  correlation_id = "c-1";
  causation_id = "";
  operation_id = "op-1";
  source_service = "rtk_account_manager";
  target_service = "realtek_video_server";
  message_type = "DeviceDeactivateRequested";
  schema_version = "1.0";
  partition_key = device_id;
  occurred_at = created;
  payload = raw;
}

decoded : validate_and_decode codec envelope "account.video.commands" ≡ ok payload
unfolding validate_and_decode check_header check_spec require_json_fields decode_payload validate
    require_non_blank require_uuid require_utc_time validate_required_strings is_blank is_uuid
    validate_lifecycle_payload_ids partition_key_of
decoded = rw (message_specs-message_type_of deactivate_requested) refl

pub validated : validate_envelope codec envelope "account.video.commands" ≡ ok tt
unfolding validate_envelope
validated = rw decoded refl

validate_and_decode_iff_example : Accepts codec envelope "account.video.commands" payload
validate_and_decode_iff_example =
    (validate_and_decode_iff codec envelope "account.video.commands" payload).0 decoded
