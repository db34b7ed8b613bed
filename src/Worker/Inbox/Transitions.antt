-- ===== src/Worker/Inbox/Transitions.antt =====
-- What each payload changes: buildTransitionForPayload of internal/worker/inbox/service.go.
use rtk_account_manager.Common.{
  String, Bool, Option, none, some, [], ◌∷◌, Time, utc, Result, ok, err, unsupported_message_type,
}
use rtk_account_manager.Common.Json.{boolean, integer, string, time}
use rtk_account_manager.Channel.Types.{
  DeviceProvisionSucceededPayload, DeviceProvisionFailedPayload, DeviceDeactivateSucceededPayload,
  DeviceDeactivateFailedPayload, DeviceUnprovisionSucceededPayload, DeviceUnprovisionFailedPayload,
  DeviceEntitlementSnapshotSucceededPayload, DeviceEntitlementSnapshotFailedPayload, PayloadKind,
  provision_requested, provision_succeeded, provision_failed, deactivate_requested,
  deactivate_succeeded, deactivate_failed, unprovision_requested, unprovision_succeeded,
  unprovision_failed, snapshot_requested, snapshot_succeeded, snapshot_failed, online_changed,
  metadata_changed, PayloadOf,
}
use rtk_account_manager.Model.{JsonMap, DeviceOperationStatus, DeviceMessageInboxStatus}
use rtk_account_manager.Store.Projection.{
  DeviceProjectionInput, provision_succeeded_projection, provision_failed_projection,
  deactivate_succeeded_projection, deactivate_failed_projection, online_changed_projection,
  metadata_changed_projection,
}
use rtk_account_manager.Store.Inbox.Process.{InboxProcessTransitionInput}

-- The struct with only the device and the projection set. The message's identity and status are
-- filled in by processMessage.
unfoldable pub projection_transition :
    String → String → Option DeviceProjectionInput → InboxProcessTransitionInput
projection_transition org_id device_id projection = record {
  message_id = "";
  message_status = DeviceMessageInboxStatus.processed;
  attempt_count = 0;
  last_error = none;
  processed_at = none;
  operation_status = none;
  operation_result = [];
  operation_error_code = none;
  operation_error_message = none;
  operation_retryable = none;
  operation_completed_at = none;
  organization_id = org_id;
  device_id = device_id;
  projection = projection;
}

-- successTransition and successTransitionWithoutProjection
unfoldable pub success_transition :
    String → String → Time → Option DeviceProjectionInput → JsonMap → InboxProcessTransitionInput
unfolding projection_transition
success_transition org_id device_id completed_at projection result =
    record (projection_transition org_id device_id projection) {
      operation_status = some DeviceOperationStatus.succeeded;
      operation_result = result;
      operation_completed_at = some completed_at;
    }

-- failureTransition and failureTransitionWithoutProjection
unfoldable pub failure_transition :
    String
    → String
    → Time
    → Option DeviceProjectionInput
    → JsonMap
    → String
    → String
    → Bool
    → InboxProcessTransitionInput
unfolding projection_transition
failure_transition org_id device_id completed_at projection result code message retryable =
    record (projection_transition org_id device_id projection) {
      operation_status = some DeviceOperationStatus.failed;
      operation_result = result;
      operation_error_code = some code;
      operation_error_message = some message;
      operation_retryable = some retryable;
      operation_completed_at = some completed_at;
    }

unfoldable pub activity_projection : DeviceProjectionInput → String → Option DeviceProjectionInput
activity_projection projection activity_id =
    some (record projection { expected_activity_id = activity_id })

-- The entries that the results of failed operations end in.
abbrev error_entries : String → String → Bool → Time → JsonMap
error_entries code message retryable failed_at =
    ("error_code", string code)
    ∷ ("error_message", string message)
    ∷ ("retryable", boolean retryable)
    ∷ ("failed_at", time (utc failed_at))
    ∷ []

provision_succeeded_transition : DeviceProvisionSucceededPayload → InboxProcessTransitionInput
unfolding success_transition activity_projection
provision_succeeded_transition p =
    success_transition p.org_id p.account_device_id (utc p.activated_at)
      (activity_projection (provision_succeeded_projection p) p.activity_id)
      (("video_cloud_devid", string p.video_cloud_devid)
        ∷ ("activity_id", string p.activity_id)
        ∷ ("activated_at", time (utc p.activated_at))
        ∷ [])

provision_failed_transition : DeviceProvisionFailedPayload → InboxProcessTransitionInput
unfolding failure_transition activity_projection
provision_failed_transition p =
    failure_transition p.org_id p.account_device_id (utc p.failed_at)
      (activity_projection (provision_failed_projection p) p.activity_id)
      (("video_cloud_devid", string p.video_cloud_devid)
        ∷ ("activity_id", string p.activity_id)
        ∷ error_entries p.error_code p.error_message p.retryable p.failed_at)
      p.error_code p.error_message p.retryable

deactivate_succeeded_transition : DeviceDeactivateSucceededPayload → InboxProcessTransitionInput
unfolding success_transition activity_projection
deactivate_succeeded_transition p =
    success_transition p.org_id p.account_device_id (utc p.deactivated_at)
      (activity_projection (deactivate_succeeded_projection p) p.activity_id)
      (("video_cloud_devid", string p.video_cloud_devid)
        ∷ ("activity_id", string p.activity_id)
        ∷ ("deactivated_at", time (utc p.deactivated_at))
        ∷ [])

deactivate_failed_transition : DeviceDeactivateFailedPayload → InboxProcessTransitionInput
unfolding failure_transition activity_projection
deactivate_failed_transition p =
    failure_transition p.org_id p.account_device_id (utc p.failed_at)
      (activity_projection (deactivate_failed_projection p) p.activity_id)
      (("video_cloud_devid", string p.video_cloud_devid)
        ∷ ("activity_id", string p.activity_id)
        ∷ error_entries p.error_code p.error_message p.retryable p.failed_at)
      p.error_code p.error_message p.retryable

unprovision_succeeded_transition : DeviceUnprovisionSucceededPayload → InboxProcessTransitionInput
unfolding success_transition
unprovision_succeeded_transition p =
    success_transition p.org_id p.account_device_id (utc p.unprovisioned_at) none (
      ("video_cloud_devid", string p.video_cloud_devid)
      ∷ ("unprovisioned_at", time (utc p.unprovisioned_at))
      ∷ [])

unprovision_failed_transition : DeviceUnprovisionFailedPayload → InboxProcessTransitionInput
unfolding failure_transition
unprovision_failed_transition p =
    failure_transition p.org_id p.account_device_id (utc p.failed_at) none
      (("video_cloud_devid", string p.video_cloud_devid)
        ∷ error_entries p.error_code p.error_message p.retryable p.failed_at)
      p.error_code p.error_message p.retryable

snapshot_succeeded_transition :
    DeviceEntitlementSnapshotSucceededPayload → InboxProcessTransitionInput
unfolding success_transition
snapshot_succeeded_transition p =
    success_transition p.org_id p.account_device_id (utc p.applied_at) none (
      ("video_cloud_devid", string p.video_cloud_devid)
      ∷ ("platform_entitlement_revision", integer p.platform_entitlement_revision)
      ∷ ("applied_at", time (utc p.applied_at))
      ∷ [])

snapshot_failed_transition : DeviceEntitlementSnapshotFailedPayload → InboxProcessTransitionInput
unfolding failure_transition
snapshot_failed_transition p =
    failure_transition p.org_id p.account_device_id (utc p.failed_at) none
      (("video_cloud_devid", string p.video_cloud_devid)
        ∷ ("platform_entitlement_revision", integer p.platform_entitlement_revision)
        ∷ error_entries p.error_code p.error_message p.retryable p.failed_at)
      p.error_code p.error_message p.retryable

unfoldable pub build_transition_for_payload :
    String → (k : PayloadKind) → PayloadOf k → Result InboxProcessTransitionInput
unfolding projection_transition provision_succeeded_transition provision_failed_transition
    deactivate_succeeded_transition deactivate_failed_transition unprovision_succeeded_transition
    unprovision_failed_transition snapshot_succeeded_transition snapshot_failed_transition
build_transition_for_payload t provision_succeeded p = ok (provision_succeeded_transition p)
build_transition_for_payload t provision_failed p = ok (provision_failed_transition p)
build_transition_for_payload t deactivate_succeeded p = ok (deactivate_succeeded_transition p)
build_transition_for_payload t deactivate_failed p = ok (deactivate_failed_transition p)
build_transition_for_payload t unprovision_succeeded p = ok (unprovision_succeeded_transition p)
build_transition_for_payload t unprovision_failed p = ok (unprovision_failed_transition p)
build_transition_for_payload t snapshot_succeeded p = ok (snapshot_succeeded_transition p)
build_transition_for_payload t snapshot_failed p = ok (snapshot_failed_transition p)
build_transition_for_payload t online_changed p =
    ok (projection_transition p.org_id p.account_device_id (some (online_changed_projection p)))
build_transition_for_payload t metadata_changed p =
    ok (projection_transition p.org_id p.account_device_id (some (metadata_changed_projection p)))
build_transition_for_payload t provision_requested p = err (unsupported_message_type t)
build_transition_for_payload t deactivate_requested p = err (unsupported_message_type t)
build_transition_for_payload t unprovision_requested p = err (unsupported_message_type t)
build_transition_for_payload t snapshot_requested p = err (unsupported_message_type t)
