-- ===== src/Channel/Routes.antt =====
-- messageSpecs and RouteForMessageType of internal/channel/channel.go.
pub mod Laws
use rtk_account_manager.Common.{
  String, str_eq, ◌≡◌, Bool, Option, none, some, List, [], ◌∷◌, if◌then◌else◌, Result, ok, err,
  unsupported_message_type,
}
use rtk_account_manager.Channel.Types.{
  PayloadKind, provision_requested, provision_succeeded, provision_failed, deactivate_requested,
  deactivate_succeeded, deactivate_failed, unprovision_requested, unprovision_succeeded,
  unprovision_failed, snapshot_requested, snapshot_succeeded, snapshot_failed, online_changed,
  metadata_changed, stream_account_video_commands, stream_video_account_events,
  service_account_manager, service_realtek_video_cloud,
}

-- `new_payload` is the kind of the payload that newPayload makes.
pub record MessageSpec : Type 0 where
  pub stream : String
  pub source_service : String
  pub target_service : String
  pub required_json_fields : List String
  pub new_payload : PayloadKind

pub record Route : Type 0 where
  pub stream : String
  pub source_service : String
  pub target_service : String

-- The value of the constant MessageTypeDevice… for each kind.
abbrev pub message_type_of : PayloadKind → String
message_type_of provision_requested = "DeviceProvisionRequested"
message_type_of provision_succeeded = "DeviceProvisionSucceeded"
message_type_of provision_failed = "DeviceProvisionFailed"
message_type_of deactivate_requested = "DeviceDeactivateRequested"
message_type_of deactivate_succeeded = "DeviceDeactivateSucceeded"
message_type_of deactivate_failed = "DeviceDeactivateFailed"
message_type_of unprovision_requested = "DeviceUnprovisionRequested"
message_type_of unprovision_succeeded = "DeviceUnprovisionSucceeded"
message_type_of unprovision_failed = "DeviceUnprovisionFailed"
message_type_of snapshot_requested = "DeviceEntitlementSnapshotRequested"
message_type_of snapshot_succeeded = "DeviceEntitlementSnapshotSucceeded"
message_type_of snapshot_failed = "DeviceEntitlementSnapshotFailed"
message_type_of online_changed = "DeviceOnlineChanged"
message_type_of metadata_changed = "DeviceMetadataChanged"

-- The two shapes of the map's entries.
abbrev pub command : PayloadKind → List String → MessageSpec
command k required = record {
  stream = stream_account_video_commands;
  source_service = service_account_manager;
  target_service = service_realtek_video_cloud;
  required_json_fields = required;
  new_payload = k;
}

abbrev pub event : PayloadKind → List String → MessageSpec
event k required = record {
  stream = stream_video_account_events;
  source_service = service_realtek_video_cloud;
  target_service = service_account_manager;
  required_json_fields = required;
  new_payload = k;
}

abbrev pub spec_of : PayloadKind → MessageSpec
spec_of provision_requested = command provision_requested []
spec_of provision_succeeded = event provision_succeeded []
spec_of provision_failed = event provision_failed ("retryable" ∷ [])
spec_of deactivate_requested = command deactivate_requested []
spec_of deactivate_succeeded = event deactivate_succeeded []
spec_of deactivate_failed = event deactivate_failed ("retryable" ∷ [])
spec_of unprovision_requested = command unprovision_requested ("platform_override" ∷ [])
spec_of unprovision_succeeded = event unprovision_succeeded []
spec_of unprovision_failed = event unprovision_failed ("retryable" ∷ [])
spec_of snapshot_requested = command snapshot_requested []
spec_of snapshot_succeeded = event snapshot_succeeded []
spec_of snapshot_failed = event snapshot_failed ("retryable" ∷ [])
spec_of online_changed = event online_changed []
spec_of metadata_changed = event metadata_changed []

abbrev kinds : List PayloadKind
kinds =
    provision_requested ∷ provision_succeeded ∷ provision_failed ∷ deactivate_requested
    ∷ deactivate_succeeded ∷ deactivate_failed ∷ unprovision_requested ∷ unprovision_succeeded
    ∷ unprovision_failed ∷ snapshot_requested ∷ snapshot_succeeded ∷ snapshot_failed
    ∷ online_changed ∷ metadata_changed ∷ []

find_spec : String → List PayloadKind → Option MessageSpec
find_spec t [] = none
find_spec t (k ∷ ks) = if str_eq (message_type_of k) t then some (spec_of k) else find_spec t ks

-- messageSpecs[t]
unfoldable pub message_specs : String → Option MessageSpec
unfolding find_spec
message_specs t = find_spec t kinds

pub route_of : MessageSpec → Route
route_of s = record {
  stream = s.stream;
  source_service = s.source_service;
  target_service = s.target_service;
}

pub route_for_message_type : String → Result Route
unfolding route_of
route_for_message_type t = elim (message_specs t) [
  | none ↦ err (unsupported_message_type t)
  | some s ↦ ok (route_of s)
]
