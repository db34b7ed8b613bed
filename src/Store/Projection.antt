-- ===== src/Store/Projection.antt =====
-- internal/store/device_projection.go: what a message of the video cloud changes in a device's row.
pub mod Laws
use rtk_account_manager.Common.{
  ℕ, String, str_eq, starts_with, Bool, true, false, ◌&&◌, ◌||◌, not, Option, none, some, List, [],
  ◌∷◌, is_some, if◌then◌else◌, Time, utc, is_zero, time_before, time_equal, Result, ok, err, ◌>>=◌,
  ◌>>◌, refuse_if, not_found, disabled, conflict,
}
use rtk_account_manager.Common.Json.{Json, Fields, null, boolean, string, time, object, end, field}
use rtk_account_manager.Channel.Types.{
  DeviceProvisionSucceededPayload, DeviceProvisionFailedPayload, DeviceDeactivateSucceededPayload,
  DeviceDeactivateFailedPayload, DeviceOnlineChangedPayload, DeviceMetadataChangedPayload,
  PayloadKind, provision_failed, deactivate_failed, service_realtek_video_cloud,
}
use rtk_account_manager.Channel.Routes.{message_type_of}
use rtk_account_manager.Channel.Text.{trim_space, same_codes, is_blank}
use rtk_account_manager.Model.{JsonMap, Device}
use rtk_account_manager.Store.Tables.{Db}

pub record DeviceProjectionInput : Type 0 where
  pub metadata : JsonMap
  pub expected_activity_id : String
  pub status : Option String
  pub last_seen_at : Option Time
  pub reset_presence : Bool
  pub allow_disabled : Bool

-- The zero value of the struct with these metadata.
abbrev pub metadata_projection : JsonMap → DeviceProjectionInput
metadata_projection metadata = record {
  metadata = metadata;
  expected_activity_id = "";
  status = none;
  last_seen_at = none;
  reset_presence = false;
  allow_disabled = false;
}

abbrev pub key_devid : String
key_devid = "video_cloud_devid"

abbrev pub key_activation_status : String
key_activation_status = "video_cloud_activation_status"

abbrev pub key_activity_id : String
key_activity_id = "video_cloud_activity_id"

abbrev key_activated_at : String
key_activated_at = "video_cloud_activated_at"

abbrev key_deactivated_at : String
key_deactivated_at = "video_cloud_deactivated_at"

abbrev key_last_error : String
key_last_error = "video_cloud_last_error"

abbrev last_error : String → String → Bool → Time → PayloadKind → Json
last_error code message retryable failed_at operation = object (
    field "code" (string code) (
      field "message" (string message) (
        field "retryable" (boolean retryable) (
          field "failed_at" (time (utc failed_at)) (
            field "operation" (string (message_type_of operation)) (
              field "service" (string service_realtek_video_cloud)
                (field "updated_at" (time (utc failed_at)) end)))))))

pub provision_succeeded_projection : DeviceProvisionSucceededPayload → DeviceProjectionInput
provision_succeeded_projection p = metadata_projection (
    (key_devid, string p.video_cloud_devid)
    ∷ (key_activity_id, string p.activity_id)
    ∷ (key_activation_status, string "activated")
    ∷ (key_activated_at, time (utc p.activated_at))
    ∷ (key_last_error, null)
    ∷ [])

pub provision_failed_projection : DeviceProvisionFailedPayload → DeviceProjectionInput
provision_failed_projection p = metadata_projection (
    (key_devid, string p.video_cloud_devid)
    ∷ (key_activity_id, string p.activity_id)
    ∷ (key_activation_status, string "failed")
    ∷ (
      key_last_error,
      last_error p.error_code p.error_message p.retryable p.failed_at provision_failed,
    )
    ∷ [])

unfoldable pub deactivate_succeeded_projection :
    DeviceDeactivateSucceededPayload → DeviceProjectionInput
deactivate_succeeded_projection p =
    let changes : DeviceProjectionInput = metadata_projection (
      (key_devid, string p.video_cloud_devid)
      ∷ (key_activation_status, string "deactivated")
      ∷ (key_deactivated_at, time (utc p.deactivated_at))
      ∷ (key_last_error, null)
      ∷ []) in
    record changes { allow_disabled = true }

pub deactivate_failed_projection : DeviceDeactivateFailedPayload → DeviceProjectionInput
deactivate_failed_projection p =
    let changes : DeviceProjectionInput = metadata_projection (
      (key_devid, string p.video_cloud_devid)
      ∷ (
        key_last_error,
        last_error p.error_code p.error_message p.retryable p.failed_at deactivate_failed,
      )
      ∷ []) in
    record changes { allow_disabled = true }

unfoldable pub online_changed_projection : DeviceOnlineChangedPayload → DeviceProjectionInput
online_changed_projection p =
    let changes : DeviceProjectionInput =
      metadata_projection ((key_devid, string p.video_cloud_devid) ∷ []) in
    record changes { status = some p.status; last_seen_at = some (utc p.last_seen_at) }

-- selectProjectionMetadata
pub select_projection_metadata : JsonMap → JsonMap
select_projection_metadata [] = []
select_projection_metadata ((k, v) ∷ m) =
    let rest = select_projection_metadata m in
    if starts_with k "video_cloud_" then (k, v) ∷ rest else rest

abbrev or_empty : Option JsonMap → JsonMap
or_empty none = []
or_empty (some m) = m

pub metadata_changed_projection : DeviceMetadataChangedPayload → DeviceProjectionInput
unfolding select_projection_metadata
metadata_changed_projection p =
    metadata_projection (select_projection_metadata (or_empty p.metadata))

-- m[key], `none` where there is none
unfoldable pub lookup_json : String → JsonMap → Option Json
lookup_json key [] = none
lookup_json key ((k, v) ∷ m) = if str_eq k key then some v else lookup_json key m

-- delete(m, key)
unfoldable pub delete_json : String → JsonMap → JsonMap
delete_json key [] = []
delete_json key ((k, v) ∷ m) =
    let rest = delete_json key m in if str_eq k key then rest else (k, v) ∷ rest

-- m[key] = value
unfoldable pub put_json : String → Json → JsonMap → JsonMap
unfolding delete_json
put_json key value m = (key, value) ∷ delete_json key m

abbrev is_null : Json → Bool
is_null null = true
is_null _ = false

-- The second loop of applyProjectionMetadata.
pub merge_json : JsonMap → JsonMap → JsonMap
unfolding put_json delete_json
merge_json merged [] = merged
merge_json merged ((k, v) ∷ patch) =
    merge_json (if is_null v then delete_json k merged else put_json k v merged) patch

pub apply_projection_metadata : JsonMap → JsonMap → JsonMap
unfolding merge_json select_projection_metadata
apply_projection_metadata existing patch = merge_json existing (select_projection_metadata patch)

-- value, _ := m[key].(string)
abbrev text_of : Option Json → String
text_of (some (string s)) = s
text_of _ = ""

unfoldable pub string_at : String → JsonMap → String
unfolding lookup_json
string_at key m = text_of (lookup_json key m)

-- An expected activity that is not the device's current one.
unfoldable pub is_stale : Device → DeviceProjectionInput → Bool
unfolding string_at
is_stale device inp =
    not (is_blank inp.expected_activity_id)
    && not (
        same_codes (trim_space (string_at key_activity_id device.metadata))
          (trim_space inp.expected_activity_id))

unfoldable pub is_refused_as_disabled : Device → DeviceProjectionInput → Bool
is_refused_as_disabled device inp =
    is_some device.disabled_at
    && (not inp.allow_disabled || is_some inp.status || is_some inp.last_seen_at)

abbrev is_unset : Option Time → Bool
is_unset none = true
is_unset (some t) = is_zero t

-- A presence report for another device, or without a time.
unfoldable pub is_presence_conflict : Device → DeviceProjectionInput → Bool
unfolding string_at
is_presence_conflict device inp =
    is_blank (string_at key_devid device.metadata)
    || not (str_eq (string_at key_devid device.metadata) (string_at key_devid inp.metadata))
    || is_unset inp.last_seen_at

-- A report that is older than the last one, or of the same time and not a change to offline.
unfoldable pub is_superseded : Device → String → Time → Option Time → Bool
is_superseded device status seen none = false
is_superseded device status seen (some last) =
    time_before seen last
    || (time_equal seen last && (str_eq device.status status || not (str_eq status "offline")))

abbrev or_else {ℓ} : {A : Type ℓ} → Option A → A → A
or_else none d = d
or_else (some a) d = a

abbrev or_also {ℓ} : {A : Type ℓ} → Option A → Option A → Option A
or_also none d = d
or_also (some a) d = some a

-- UPDATE devices
unfoldable pub projected : Device → DeviceProjectionInput → Device
projected device inp = record device {
  status = or_else inp.status (if inp.reset_presence then "unknown" else device.status);
  last_seen_at =
      or_also inp.last_seen_at (if inp.reset_presence then none else device.last_seen_at);
  metadata = apply_projection_metadata device.metadata inp.metadata;
}

-- What projectDeviceTx decides for the row: to leave it (`none`), to write it, or to fail.
decide_presence :
    Device → DeviceProjectionInput → Option String → Option Time → Result (Option Device)
unfolding is_presence_conflict is_superseded projected
decide_presence device inp (some status) (some seen) = do
  refuse_if (is_presence_conflict device inp) conflict
  ok (
      if is_superseded device status seen device.last_seen_at
      then none
      else some (projected device inp))
decide_presence device inp (some status) none = err conflict
decide_presence device inp none seen = ok (some (projected device inp))

unfoldable pub decide_projection : Device → DeviceProjectionInput → Result (Option Device)
unfolding is_stale is_refused_as_disabled decide_presence
decide_projection device inp =
    let fresh : Result (Option Device) = do
      refuse_if (is_refused_as_disabled device inp) disabled
      decide_presence device inp inp.status inp.last_seen_at
    in if is_stale device inp then ok none else fresh

-- WHERE organization_id = $1 AND id = $2
abbrev pub is_device : String → String → Device → Bool
is_device org_id device_id d = str_eq d.organization_id org_id && str_eq d.id device_id

unfoldable pub find_device : String → String → List Device → Option Device
find_device org_id device_id [] = none
find_device org_id device_id (d ∷ ds) =
    if is_device org_id device_id d then some d else find_device org_id device_id ds

unfoldable pub replace_device : String → String → Device → List Device → List Device
replace_device org_id device_id new [] = []
replace_device org_id device_id new (d ∷ ds) =
    (if is_device org_id device_id d then new else d) ∷ replace_device org_id device_id new ds

abbrev pub or_missing : Option Device → Result Device
or_missing none = err not_found
or_missing (some d) = ok d

abbrev pub write_device : Db → String → String → Device → Option Device → Device × Db
write_device db org_id device_id device none = (device, db)
write_device db org_id device_id device (some new) =
    (new, record db { devices = replace_device org_id device_id new db.devices })

-- projectDeviceTx; ProjectDevice is the same in a transaction of its own.
unfoldable pub project_device : Db → String → String → DeviceProjectionInput → Result (Device × Db)
unfolding decide_projection find_device replace_device
project_device db org_id device_id inp = do
  device ← or_missing (find_device org_id device_id db.devices)
  change ← decide_projection device inp
  ok (write_device db org_id device_id device change)
