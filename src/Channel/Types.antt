-- ===== src/Channel/Types.antt =====
-- The constants, the payloads and the envelope of internal/channel/channel.go.
use rtk_account_manager.Common.{ℕ, String, Bool, List, Option, ℤ, Time, Result}
use rtk_account_manager.Common.Json.{Json}

abbrev pub schema_version_v1 : String
schema_version_v1 = "1.0"

abbrev pub stream_account_video_commands : String
stream_account_video_commands = "account.video.commands"

abbrev pub stream_video_account_events : String
stream_video_account_events = "video.account.events"

abbrev pub service_account_manager : String
service_account_manager = "rtk_account_manager"

abbrev pub service_realtek_video_cloud : String
service_realtek_video_cloud = "realtek_video_server"

pub record Envelope : Type 0 where
  pub message_id : String
  pub correlation_id : String
  pub causation_id : String
  pub operation_id : String
  pub source_service : String
  pub target_service : String
  pub message_type : String
  pub schema_version : String
  pub partition_key : String
  pub occurred_at : Time
  pub payload : List ℕ  -- the bytes of the raw JSON

pub record DeviceProvisionRequestedPayload : Type 0 where
  pub org_id : String
  pub account_device_id : String
  pub video_cloud_devid : String
  pub activity_id : String
  pub clip_public_key : String
  pub service_options : List String
  pub product_id : String
  pub product_service_revision : Option ℤ
  pub service_grant_sha256 : String
  pub log_retention_days : Option ℤ
  pub transfer_reservation_id : String
  pub requested_by : String

pub record DeviceProvisionSucceededPayload : Type 0 where
  pub org_id : String
  pub account_device_id : String
  pub video_cloud_devid : String
  pub activity_id : String
  pub activated_at : Time

pub record DeviceProvisionFailedPayload : Type 0 where
  pub org_id : String
  pub account_device_id : String
  pub video_cloud_devid : String
  pub activity_id : String
  pub error_code : String
  pub error_message : String
  pub retryable : Bool
  pub failed_at : Time

pub record DeviceDeactivateRequestedPayload : Type 0 where
  pub org_id : String
  pub account_device_id : String
  pub video_cloud_devid : String
  pub activity_id : String
  pub requested_by : String
  pub reason : String

pub record DeviceDeactivateSucceededPayload : Type 0 where
  pub org_id : String
  pub account_device_id : String
  pub video_cloud_devid : String
  pub activity_id : String
  pub deactivated_at : Time

pub record DeviceDeactivateFailedPayload : Type 0 where
  pub org_id : String
  pub account_device_id : String
  pub video_cloud_devid : String
  pub activity_id : String
  pub error_code : String
  pub error_message : String
  pub retryable : Bool
  pub failed_at : Time

pub record DeviceUnprovisionRequestedPayload : Type 0 where
  pub org_id : String
  pub account_device_id : String
  pub video_cloud_devid : String
  pub requested_by : String
  pub reason : String
  pub platform_override : Bool
  pub unprovisioned_at : Time

pub record DeviceUnprovisionSucceededPayload : Type 0 where
  pub org_id : String
  pub account_device_id : String
  pub video_cloud_devid : String
  pub unprovisioned_at : Time

pub record DeviceUnprovisionFailedPayload : Type 0 where
  pub org_id : String
  pub account_device_id : String
  pub video_cloud_devid : String
  pub error_code : String
  pub error_message : String
  pub retryable : Bool
  pub failed_at : Time

pub record DeviceEntitlementSnapshotRequestedPayload : Type 0 where
  pub org_id : String
  pub account_device_id : String
  pub video_cloud_devid : String
  pub product_id : String
  pub product_service_revision : ℤ
  pub service_grant_sha256 : String
  pub platform_entitlement_revision : ℤ
  pub service_options : List String
  pub log_retention_days : Option ℤ
  pub state : String
  pub requested_by : String

pub record DeviceEntitlementSnapshotSucceededPayload : Type 0 where
  pub org_id : String
  pub account_device_id : String
  pub video_cloud_devid : String
  pub platform_entitlement_revision : ℤ
  pub applied_at : Time

pub record DeviceEntitlementSnapshotFailedPayload : Type 0 where
  pub org_id : String
  pub account_device_id : String
  pub video_cloud_devid : String
  pub platform_entitlement_revision : ℤ
  pub error_code : String
  pub error_message : String
  pub retryable : Bool
  pub failed_at : Time

pub record DeviceOnlineChangedPayload : Type 0 where
  pub org_id : String
  pub account_device_id : String
  pub video_cloud_devid : String
  pub status : String
  pub last_seen_at : Time

-- A nil map is `none`.
pub record DeviceMetadataChangedPayload : Type 0 where
  pub org_id : String
  pub account_device_id : String
  pub video_cloud_devid : String
  pub metadata : Option (List (String × Json))

-- The dynamic types of the interface Payload.
pub data PayloadKind : Type 0 where
  provision_requested provision_succeeded provision_failed : PayloadKind
  deactivate_requested deactivate_succeeded deactivate_failed : PayloadKind
  unprovision_requested unprovision_succeeded unprovision_failed : PayloadKind
  snapshot_requested snapshot_succeeded snapshot_failed : PayloadKind
  online_changed metadata_changed : PayloadKind

abbrev pub PayloadOf : PayloadKind → Type 0
PayloadOf provision_requested = DeviceProvisionRequestedPayload
PayloadOf provision_succeeded = DeviceProvisionSucceededPayload
PayloadOf provision_failed = DeviceProvisionFailedPayload
PayloadOf deactivate_requested = DeviceDeactivateRequestedPayload
PayloadOf deactivate_succeeded = DeviceDeactivateSucceededPayload
PayloadOf deactivate_failed = DeviceDeactivateFailedPayload
PayloadOf unprovision_requested = DeviceUnprovisionRequestedPayload
PayloadOf unprovision_succeeded = DeviceUnprovisionSucceededPayload
PayloadOf unprovision_failed = DeviceUnprovisionFailedPayload
PayloadOf snapshot_requested = DeviceEntitlementSnapshotRequestedPayload
PayloadOf snapshot_succeeded = DeviceEntitlementSnapshotSucceededPayload
PayloadOf snapshot_failed = DeviceEntitlementSnapshotFailedPayload
PayloadOf online_changed = DeviceOnlineChangedPayload
PayloadOf metadata_changed = DeviceMetadataChangedPayload

-- A value of the interface Payload.
pub record Payload : Type 0 where
  pub kind : PayloadKind
  pub body : PayloadOf kind

-- What encoding/json and package unicode do for this package: `decode k` is the strict decoding of
-- bytes into a fresh payload of kind `k`, `object_keys` that into a map, of which only the keys are
-- read, and `lower_rune` is unicode.ToLower beyond ASCII.
pub record Codec : Type 0 where
  pub decode : (k : PayloadKind) → List ℕ → Result (PayloadOf k)
  pub object_keys : List ℕ → Result (List String)
  pub lower_rune : ℕ → ℕ
