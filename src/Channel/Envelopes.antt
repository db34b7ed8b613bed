-- ===== src/Channel/Envelopes.antt =====
-- Envelope.ValidateAndDecode and Envelope.Validate of internal/channel/channel.go.
pub mod Accepts
pub mod Tests
use rtk_account_manager.Common.{
  ℕ, String, str_eq, Bool, true, false, ◌&&◌, not, Option, none, some, List, [], ◌∷◌, if◌then◌else◌,
  is_zero, Result, ok, err, ◌>>=◌, ◌>>◌, refuse_if, map_error, GoError, wrapped, field_error,
  must_be_set, unsupported_value, must_use, must_equal_account_device_id,
}
use rtk_account_manager.Channel.Types.{
  Envelope, PayloadKind, PayloadOf, Payload, Codec, schema_version_v1,
}
use rtk_account_manager.Channel.Routes.{MessageSpec, message_specs}
use rtk_account_manager.Channel.Fields.{require_non_blank, validate_utc, require_utc_time, contains}
use rtk_account_manager.Channel.Payloads.{validate, partition_key_of}

-- The tests on the envelope's own fields that come before the payload is looked at.
unfoldable pub check_header : Envelope → Result (Unit {0})
check_header e = do
  require_non_blank "message_id" e.message_id
  require_non_blank "correlation_id" e.correlation_id
  require_non_blank "operation_id" e.operation_id
  require_non_blank "source_service" e.source_service
  require_non_blank "target_service" e.target_service
  require_non_blank "message_type" e.message_type
  require_non_blank "schema_version" e.schema_version
  require_non_blank "partition_key" e.partition_key
  require_utc_time "occurred_at" e.occurred_at

abbrev is_nil_bytes : List ℕ → Bool
is_nil_bytes [] = true
is_nil_bytes (x ∷ xs) = false

abbrev or_fail {ℓ} : {A : Type ℓ} → Option A → GoError → Result A
or_fail none e = err e
or_fail (some a) e = ok a

-- The tests against the entry of messageSpecs.
unfoldable pub check_spec : Envelope → String → MessageSpec → Result (Unit {0})
check_spec e expected_stream spec = do
  refuse_if (not (str_eq e.schema_version schema_version_v1))
      (field_error "schema_version" (unsupported_value e.schema_version))
  refuse_if (not (str_eq expected_stream "") && not (str_eq expected_stream spec.stream))
      (field_error "stream" (must_use e.message_type spec.stream))
  refuse_if (not (str_eq e.source_service spec.source_service))
      (field_error "source_service" (must_use e.message_type spec.source_service))
  refuse_if (not (str_eq e.target_service spec.target_service))
      (field_error "target_service" (must_use e.message_type spec.target_service))

-- The loop of requireJSONFields; `field` is named with the prefix "payload.".
unfoldable pub require_keys : List String → List String → Result (Unit {0})
require_keys keys [] = ok tt
require_keys keys (f ∷ fs) = do
  refuse_if (not (contains keys f)) (field_error f must_be_set)
  require_keys keys fs

module _ (codec : Codec) where
  unfoldable pub require_json_fields : List ℕ → List String → Result (Unit {0})
  require_json_fields bytes [] = ok tt
  require_json_fields bytes (f ∷ fs) = do keys ← codec.object_keys bytes; require_keys keys (f ∷ fs)

  unfoldable pub decode_payload : Envelope → (k : PayloadKind) → Result Payload
  decode_payload e k = do
    body ← map_error (wrapped "payload: ") (codec.decode k e.payload)
    validate codec.lower_rune k body
    refuse_if (not (str_eq e.partition_key (partition_key_of k body)))
        (field_error "partition_key" must_equal_account_device_id)
    ok (record { kind = k; body = body })

  unfoldable pub validate_and_decode : Envelope → String → Result Payload
  validate_and_decode e expected_stream = do
    check_header e
    refuse_if (is_nil_bytes e.payload) (field_error "payload" must_be_set)
    spec ←
        or_fail (message_specs e.message_type)
          (field_error "message_type" (unsupported_value e.message_type))
    check_spec e expected_stream spec
    require_json_fields e.payload spec.required_json_fields
    decode_payload e spec.new_payload

  -- Envelope.Validate
  pub validate_envelope : Envelope → String → Result (Unit {0})
  validate_envelope e expected_stream = validate_and_decode e expected_stream >>= λ _. ok tt
