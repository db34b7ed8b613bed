-- ===== src/Store/Inbox/Create.antt =====
-- CreateOrGetInboxMessage of internal/store/device_messages.go, with the checks that the table
-- device_message_inbox makes (migrations/006_device_message_persistence.sql and
-- migrations/081_device_entitlement_snapshots.sql).
pub mod Laws
use rtk_account_manager.Common.{
  ℕ, ◌==◌, String, str_eq, Bool, true, false, ◌&&◌, ◌||◌, not, Option, none, some, List, [], ◌∷◌,
  length, all, codes, Time, Result, ok, err, ◌>>=◌, ◌>>◌, refuse_if, GoError, plain, conflict,
}
use rtk_account_manager.Common.Json.{Json, string}
use rtk_account_manager.Channel.Types.{
  provision_succeeded, provision_failed, deactivate_succeeded, deactivate_failed,
  unprovision_succeeded, unprovision_failed, snapshot_succeeded, snapshot_failed, online_changed,
  metadata_changed, schema_version_v1, stream_video_account_events,
}
use rtk_account_manager.Channel.Routes.{message_type_of}
use rtk_account_manager.Channel.Text.{same_codes}
use rtk_account_manager.Channel.Fields.{contains}
use rtk_account_manager.Model.{JsonMap, DeviceMessageInbox, DeviceMessageInboxStatus}
use rtk_account_manager.Store.Rows.{find_row}
use rtk_account_manager.Store.Tables.{Db, inbox_key}
use rtk_account_manager.Store.Projection.{lookup_json}

-- encoding/json on maps, encoding/base64 and unicode/utf8 as the inbox uses them, and the text of
-- an error. `valid_text` is the string of bytes that are valid UTF-8.
pub record Encoding : Type 0 where
  pub marshal : JsonMap → Result (List ℕ)
  pub unmarshal : List ℕ → Result JsonMap
  pub base64_encode : List ℕ → String
  pub base64_decode : String → Option (List ℕ)
  pub to_valid_utf8 : List ℕ → String
  pub valid_text : List ℕ → Option String
  pub error_text : GoError → String

pub record DeviceMessageInboxCreateInput : Type 0 where
  pub message_id : String
  pub operation_id : String
  pub correlation_id : String
  pub causation_id : Option String
  pub stream : String
  pub message_type : String
  pub schema_version : String
  pub partition_key : String
  pub payload : JsonMap
  pub status : DeviceMessageInboxStatus
  pub attempt_count : ℕ
  pub last_error : Option String
  pub received_at : Time
  pub processed_at : Option Time

abbrev pub event_types : List String
event_types =
    message_type_of provision_succeeded
    ∷ message_type_of provision_failed
    ∷ message_type_of deactivate_succeeded
    ∷ message_type_of deactivate_failed
    ∷ message_type_of unprovision_succeeded
    ∷ message_type_of unprovision_failed
    ∷ message_type_of snapshot_succeeded
    ∷ message_type_of snapshot_failed
    ∷ message_type_of online_changed
    ∷ message_type_of metadata_changed
    ∷ []

-- The table's CHECK clauses; btrim takes off spaces only.
unfoldable pub is_storable : DeviceMessageInboxCreateInput → Bool
is_storable inp =
    str_eq inp.stream stream_video_account_events
    && contains event_types inp.message_type
    && str_eq inp.schema_version schema_version_v1
    && not (all (λ c. c == 0x20) (codes inp.partition_key))

abbrev pub check_violation : GoError
check_violation = plain "violates check constraint"

abbrev pub new_row : Time → DeviceMessageInboxCreateInput → DeviceMessageInbox
new_row created_at inp = record {
  message_id = inp.message_id;
  operation_id = inp.operation_id;
  correlation_id = inp.correlation_id;
  causation_id = inp.causation_id;
  stream = inp.stream;
  message_type = inp.message_type;
  schema_version = inp.schema_version;
  partition_key = inp.partition_key;
  payload = inp.payload;
  status = inp.status;
  attempt_count = inp.attempt_count;
  last_error = inp.last_error;
  received_at = inp.received_at;
  processed_at = inp.processed_at;
  created_at = created_at;
}

abbrev pub same_string_ptr : Option String → Option String → Bool
same_string_ptr none none = true
same_string_ptr (some a) (some b) = str_eq a b
same_string_ptr _ _ = false

-- jsonStringValue
abbrev json_string : Option Json → Option String
json_string (some (string s)) = some s
json_string _ = none

abbrev keys_of : JsonMap → List String
keys_of [] = []
keys_of ((k, v) ∷ m) = k ∷ keys_of m

-- hasOnlyJSONKeys, for a map in which no key is repeated
abbrev has_only_keys : JsonMap → List String → Bool
has_only_keys m allowed = length m == length allowed && all (contains allowed) (keys_of m)

abbrev pub raw_key : String
raw_key = "_raw_payload"

abbrev pub base64_key : String
base64_key = "_raw_payload_base64"

abbrev pub error_key : String
error_key = "_payload_decode_error"

abbrev is_text : Option String → String → Bool
is_text none t = false
is_text (some s) t = str_eq s t

abbrev equal_texts : Option String → Option String → Bool
equal_texts none o = false
equal_texts (some s) o = is_text o s

module _ (enc : Encoding) where
  abbrev decoded_text : Option String → Option String
  decoded_text none = none
  decoded_text (some b) = elim (enc.base64_decode b) [
    | none ↦ none
    | some bytes ↦ some (enc.to_valid_utf8 bytes)
  ]

  -- The raw payload of a snapshot: kept as text, or in base64.
  abbrev snapshot_text : Option String → Option String → Option String
  snapshot_text (some raw) b = some raw
  snapshot_text none b = decoded_text b

  same_legacy_malformed_inbox_payload : JsonMap → JsonMap → Bool
  unfolding lookup_json
  same_legacy_malformed_inbox_payload existing want =
      has_only_keys existing (raw_key ∷ error_key ∷ [])
      && (has_only_keys want (raw_key ∷ base64_key ∷ error_key ∷ [])
          || has_only_keys want (base64_key ∷ error_key ∷ []))
      && equal_texts (json_string (lookup_json error_key existing))
          (json_string (lookup_json error_key want))
      && equal_texts (json_string (lookup_json raw_key existing)) (
          snapshot_text (json_string (lookup_json raw_key want))
            (json_string (lookup_json base64_key want)))

  -- bytes.Equal on the marshalled maps
  abbrev pub same_bytes : Result (List ℕ) → List ℕ → Bool
  same_bytes (err e) want = false
  same_bytes (ok got) want = same_codes got want

  abbrev same_unmarshalled : JsonMap → Result JsonMap → Bool
  same_unmarshalled existing (err e) = false
  same_unmarshalled existing (ok decoded) = same_legacy_malformed_inbox_payload existing decoded

  unfoldable pub same_inbox_payload : JsonMap → List ℕ → Bool
  unfolding same_legacy_malformed_inbox_payload
  same_inbox_payload existing want =
      same_bytes (enc.marshal existing) want || same_unmarshalled existing (enc.unmarshal want)

  -- compareInboxCreate finds no difference.
  unfoldable pub is_same_message :
      DeviceMessageInbox → DeviceMessageInboxCreateInput → List ℕ → Bool
  unfolding same_inbox_payload
  is_same_message existing inp payload =
      str_eq existing.operation_id inp.operation_id
      && str_eq existing.correlation_id inp.correlation_id
      && same_string_ptr existing.causation_id inp.causation_id
      && str_eq existing.stream inp.stream
      && str_eq existing.message_type inp.message_type
      && str_eq existing.schema_version inp.schema_version
      && str_eq existing.partition_key inp.partition_key
      && same_inbox_payload existing.payload payload

  -- INSERT … ON CONFLICT (message_id) DO NOTHING, then the row that is there.
  unfoldable pub insert_or_compare :
      Db
      → Time
      → DeviceMessageInboxCreateInput
      → List ℕ
      → Option DeviceMessageInbox
      → Result ((DeviceMessageInbox × Bool) × Db)
  unfolding is_same_message
  insert_or_compare db created_at inp payload none =
      ok ((new_row created_at inp, true), record db { inbox = new_row created_at inp ∷ db.inbox })
  insert_or_compare db created_at inp payload (some existing) = do
    refuse_if (not (is_same_message existing inp payload)) conflict
    ok ((existing, false), db)

  unfoldable pub create_or_get_inbox_message :
      Db → Time → DeviceMessageInboxCreateInput → Result ((DeviceMessageInbox × Bool) × Db)
  unfolding is_storable insert_or_compare
  create_or_get_inbox_message db created_at inp = do
    payload ← enc.marshal inp.payload
    refuse_if (not (is_storable inp)) check_violation
    insert_or_compare db created_at inp payload (find_row inbox_key inp.message_id db.inbox)
