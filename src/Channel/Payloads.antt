-- ===== src/Channel/Payloads.antt =====
-- Validate and PartitionKey of the fourteen payloads of internal/channel/channel.go.
use rtk_account_manager.Common.{
  ℕ, String, str_eq, Bool, true, false, ◌&&◌, ◌||◌, not, Option, none, some, List, [], ◌∷◌, ◌==◌,
  if◌then◌else◌, ℤ, is_below_one, is_some, is_zero, codes, utf8, Result, ok, ◌>>◌, refuse_if,
  field_error, must_be_set, must_be_lowercase_sha256, must_be_positive,
  requires_services_and_digest, must_be_sha256, unsupported_value, unsupported_entitlement_state,
  revisions_must_be_positive, revision_and_time_required,
}
use rtk_account_manager.Channel.Types.{
  DeviceProvisionRequestedPayload, DeviceProvisionSucceededPayload, DeviceProvisionFailedPayload,
  DeviceDeactivateRequestedPayload, DeviceDeactivateSucceededPayload, DeviceDeactivateFailedPayload,
  DeviceUnprovisionRequestedPayload, DeviceUnprovisionSucceededPayload,
  DeviceUnprovisionFailedPayload, DeviceEntitlementSnapshotRequestedPayload,
  DeviceEntitlementSnapshotSucceededPayload, DeviceEntitlementSnapshotFailedPayload,
  DeviceOnlineChangedPayload, DeviceMetadataChangedPayload, PayloadKind, provision_requested,
  provision_succeeded, provision_failed, deactivate_requested, deactivate_succeeded,
  deactivate_failed, unprovision_requested, unprovision_succeeded, unprovision_failed,
  snapshot_requested, snapshot_succeeded, snapshot_failed, online_changed, metadata_changed,
  PayloadOf,
}
use rtk_account_manager.Channel.Text.{is_lowercase, byte_length, hex_decodes}
use rtk_account_manager.Channel.Fields.{
  require_non_blank, require_uuid, validate_utc, require_utc_time, validate_required_strings,
  validate_lifecycle_payload_ids, validate_service_options, validate_log_retention_days,
}

abbrev is_empty_text : String → Bool
is_empty_text s = str_eq s ""

-- *revision == nil || *revision < 1
abbrev is_not_positive : Option ℤ → Bool
is_not_positive none = true
is_not_positive (some i) = is_below_one i

abbrev is_nil : List String → Bool
is_nil [] = true
is_nil (x ∷ xs) = false

-- Every digest of the payloads: 64 bytes that ToLower leaves alone.
abbrev has_digest_shape : (ℕ → ℕ) → String → Bool
has_digest_shape lower s = byte_length s == 64 && is_lowercase lower s

validate_transfer_reservation : (ℕ → ℕ) → String → Result (Unit {0})
validate_transfer_reservation lower id =
    let check : Result (Unit {0}) = do
      refuse_if (not (has_digest_shape lower id))
          (field_error "payload.transfer_reservation_id" must_be_lowercase_sha256)
      refuse_if (not (hex_decodes (utf8 (codes id))))
          (field_error "payload.transfer_reservation_id" must_be_lowercase_sha256)
    in if is_empty_text id then ok tt else check

validate_product_grant : (ℕ → ℕ) → DeviceProvisionRequestedPayload → Result (Unit {0})
validate_product_grant lower p =
    let check : Result (Unit {0}) = do
      require_uuid "payload.product_id" p.product_id
      refuse_if (is_not_positive p.product_service_revision)
          (field_error "payload.product_service_revision" must_be_positive)
      refuse_if (is_nil p.service_options || not (has_digest_shape lower p.service_grant_sha256))
          (field_error "payload.service_grant_sha256" requires_services_and_digest)
      refuse_if (not (hex_decodes (utf8 (codes p.service_grant_sha256))))
          (field_error "payload.service_grant_sha256" must_be_sha256)
    in if not (is_empty_text p.product_id)
        || is_some p.product_service_revision
        || not (is_empty_text p.service_grant_sha256)
      then check
      else ok tt

validate_provision_requested : (ℕ → ℕ) → DeviceProvisionRequestedPayload → Result (Unit {0})
unfolding validate_transfer_reservation validate_product_grant
validate_provision_requested lower p = do
  validate_lifecycle_payload_ids p.org_id p.account_device_id
  validate_transfer_reservation lower p.transfer_reservation_id
  validate_service_options "payload.service_options" p.service_options
  validate_log_retention_days p.service_options p.log_retention_days
  validate_product_grant lower p
  validate_required_strings (
      ("payload.video_cloud_devid", p.video_cloud_devid)
      ∷ ("payload.activity_id", p.activity_id)
      ∷ ("payload.clip_public_key", p.clip_public_key)
      ∷ ("payload.requested_by", p.requested_by)
      ∷ [])

validate_provision_succeeded : DeviceProvisionSucceededPayload → Result (Unit {0})
validate_provision_succeeded p = do
  validate_lifecycle_payload_ids p.org_id p.account_device_id
  validate_required_strings (
      ("payload.video_cloud_devid", p.video_cloud_devid)
      ∷ ("payload.activity_id", p.activity_id)
      ∷ [])
  require_utc_time "payload.activated_at" p.activated_at

validate_provision_failed : DeviceProvisionFailedPayload → Result (Unit {0})
validate_provision_failed p = do
  validate_lifecycle_payload_ids p.org_id p.account_device_id
  validate_required_strings (
      ("payload.video_cloud_devid", p.video_cloud_devid)
      ∷ ("payload.activity_id", p.activity_id)
      ∷ ("payload.error_code", p.error_code)
      ∷ ("payload.error_message", p.error_message)
      ∷ [])
  require_utc_time "payload.failed_at" p.failed_at

validate_deactivate_requested : DeviceDeactivateRequestedPayload → Result (Unit {0})
validate_deactivate_requested p = do
  validate_lifecycle_payload_ids p.org_id p.account_device_id
  validate_required_strings (
      ("payload.video_cloud_devid", p.video_cloud_devid)
      ∷ ("payload.requested_by", p.requested_by)
      ∷ ("payload.reason", p.reason)
      ∷ [])

validate_deactivate_succeeded : DeviceDeactivateSucceededPayload → Result (Unit {0})
validate_deactivate_succeeded p = do
  validate_lifecycle_payload_ids p.org_id p.account_device_id
  validate_required_strings (("payload.video_cloud_devid", p.video_cloud_devid) ∷ [])
  require_utc_time "payload.deactivated_at" p.deactivated_at

validate_deactivate_failed : DeviceDeactivateFailedPayload → Result (Unit {0})
validate_deactivate_failed p = do
  validate_lifecycle_payload_ids p.org_id p.account_device_id
  validate_required_strings (
      ("payload.video_cloud_devid", p.video_cloud_devid)
      ∷ ("payload.error_code", p.error_code)
      ∷ ("payload.error_message", p.error_message)
      ∷ [])
  require_utc_time "payload.failed_at" p.failed_at

validate_unprovision_requested : DeviceUnprovisionRequestedPayload → Result (Unit {0})
validate_unprovision_requested p = do
  validate_lifecycle_payload_ids p.org_id p.account_device_id
  validate_required_strings (
      ("payload.video_cloud_devid", p.video_cloud_devid)
      ∷ ("payload.requested_by", p.requested_by)
      ∷ ("payload.reason", p.reason)
      ∷ [])
  require_utc_time "payload.unprovisioned_at" p.unprovisioned_at

validate_unprovision_succeeded : DeviceUnprovisionSucceededPayload → Result (Unit {0})
validate_unprovision_succeeded p = do
  validate_lifecycle_payload_ids p.org_id p.account_device_id
  validate_required_strings (("payload.video_cloud_devid", p.video_cloud_devid) ∷ [])
  require_utc_time "payload.unprovisioned_at" p.unprovisioned_at

validate_unprovision_failed : DeviceUnprovisionFailedPayload → Result (Unit {0})
validate_unprovision_failed p = do
  validate_lifecycle_payload_ids p.org_id p.account_device_id
  validate_required_strings (
      ("payload.video_cloud_devid", p.video_cloud_devid)
      ∷ ("payload.error_code", p.error_code)
      ∷ ("payload.error_message", p.error_message)
      ∷ [])
  require_utc_time "payload.failed_at" p.failed_at

validate_snapshot_requested :
    (ℕ → ℕ) → DeviceEntitlementSnapshotRequestedPayload → Result (Unit {0})
validate_snapshot_requested lower p = do
  validate_lifecycle_payload_ids p.org_id p.account_device_id
  require_uuid "payload.product_id" p.product_id
  validate_required_strings (
      ("payload.video_cloud_devid", p.video_cloud_devid)
      ∷ ("payload.requested_by", p.requested_by)
      ∷ [])
  refuse_if
      (is_below_one p.product_service_revision || is_below_one p.platform_entitlement_revision)
      (field_error "payload.platform_entitlement_revision" revisions_must_be_positive)
  refuse_if (not (has_digest_shape lower p.service_grant_sha256))
      (field_error "payload.service_grant_sha256" must_be_sha256)
  refuse_if (not (hex_decodes (utf8 (codes p.service_grant_sha256))))
      (field_error "payload.service_grant_sha256" must_be_sha256)
  refuse_if (is_nil p.service_options) (field_error "payload.service_options" must_be_set)
  validate_service_options "payload.service_options" p.service_options
  validate_log_retention_days p.service_options p.log_retention_days
  refuse_if
      (not (str_eq p.state "active")
        && not (str_eq p.state "suspended")
        && not (str_eq p.state "revoked"))
      (field_error "payload.state" unsupported_entitlement_state)

validate_snapshot_succeeded : DeviceEntitlementSnapshotSucceededPayload → Result (Unit {0})
validate_snapshot_succeeded p = do
  validate_lifecycle_payload_ids p.org_id p.account_device_id
  require_non_blank "payload.video_cloud_devid" p.video_cloud_devid
  refuse_if (is_below_one p.platform_entitlement_revision || is_zero p.applied_at)
      (field_error "payload.platform_entitlement_revision" revision_and_time_required)
  validate_utc "payload.applied_at" p.applied_at

validate_snapshot_failed : DeviceEntitlementSnapshotFailedPayload → Result (Unit {0})
validate_snapshot_failed p = do
  validate_lifecycle_payload_ids p.org_id p.account_device_id
  validate_required_strings (
      ("payload.video_cloud_devid", p.video_cloud_devid)
      ∷ ("payload.error_code", p.error_code)
      ∷ ("payload.error_message", p.error_message)
      ∷ [])
  refuse_if (is_below_one p.platform_entitlement_revision || is_zero p.failed_at)
      (field_error "payload.platform_entitlement_revision" revision_and_time_required)
  validate_utc "payload.failed_at" p.failed_at

validate_online_changed : DeviceOnlineChangedPayload → Result (Unit {0})
validate_online_changed p = do
  validate_lifecycle_payload_ids p.org_id p.account_device_id
  validate_required_strings (("payload.video_cloud_devid", p.video_cloud_devid) ∷ [])
  refuse_if (not (str_eq p.status "online") && not (str_eq p.status "offline"))
      (field_error "payload.status" (unsupported_value p.status))
  require_utc_time "payload.last_seen_at" p.last_seen_at

validate_metadata_changed : DeviceMetadataChangedPayload → Result (Unit {0})
validate_metadata_changed p = do
  validate_lifecycle_payload_ids p.org_id p.account_device_id
  validate_required_strings (("payload.video_cloud_devid", p.video_cloud_devid) ∷ [])
  refuse_if (not (is_some p.metadata)) (field_error "payload.metadata" must_be_set)

-- payload.Validate(), dispatched on the payload's type
unfoldable pub validate : (ℕ → ℕ) → (k : PayloadKind) → PayloadOf k → Result (Unit {0})
unfolding validate_provision_requested validate_provision_succeeded validate_provision_failed
    validate_deactivate_requested validate_deactivate_succeeded validate_deactivate_failed
    validate_unprovision_requested validate_unprovision_succeeded validate_unprovision_failed
    validate_snapshot_requested validate_snapshot_succeeded validate_snapshot_failed
    validate_online_changed validate_metadata_changed
validate lower provision_requested p = validate_provision_requested lower p
validate lower provision_succeeded p = validate_provision_succeeded p
validate lower provision_failed p = validate_provision_failed p
validate lower deactivate_requested p = validate_deactivate_requested p
validate lower deactivate_succeeded p = validate_deactivate_succeeded p
validate lower deactivate_failed p = validate_deactivate_failed p
validate lower unprovision_requested p = validate_unprovision_requested p
validate lower unprovision_succeeded p = validate_unprovision_succeeded p
validate lower unprovision_failed p = validate_unprovision_failed p
validate lower snapshot_requested p = validate_snapshot_requested lower p
validate lower snapshot_succeeded p = validate_snapshot_succeeded p
validate lower snapshot_failed p = validate_snapshot_failed p
validate lower online_changed p = validate_online_changed p
validate lower metadata_changed p = validate_metadata_changed p

-- payload.OrgID and payload.AccountDeviceID
abbrev pub org_id_of : (k : PayloadKind) → PayloadOf k → String
org_id_of provision_requested p = p.org_id
org_id_of provision_succeeded p = p.org_id
org_id_of provision_failed p = p.org_id
org_id_of deactivate_requested p = p.org_id
org_id_of deactivate_succeeded p = p.org_id
org_id_of deactivate_failed p = p.org_id
org_id_of unprovision_requested p = p.org_id
org_id_of unprovision_succeeded p = p.org_id
org_id_of unprovision_failed p = p.org_id
org_id_of snapshot_requested p = p.org_id
org_id_of snapshot_succeeded p = p.org_id
org_id_of snapshot_failed p = p.org_id
org_id_of online_changed p = p.org_id
org_id_of metadata_changed p = p.org_id

-- payload.PartitionKey(), which is the account_device_id for every kind
unfoldable pub partition_key_of : (k : PayloadKind) → PayloadOf k → String
partition_key_of provision_requested p = p.account_device_id
partition_key_of provision_succeeded p = p.account_device_id
partition_key_of provision_failed p = p.account_device_id
partition_key_of deactivate_requested p = p.account_device_id
partition_key_of deactivate_succeeded p = p.account_device_id
partition_key_of deactivate_failed p = p.account_device_id
partition_key_of unprovision_requested p = p.account_device_id
partition_key_of unprovision_succeeded p = p.account_device_id
partition_key_of unprovision_failed p = p.account_device_id
partition_key_of snapshot_requested p = p.account_device_id
partition_key_of snapshot_succeeded p = p.account_device_id
partition_key_of snapshot_failed p = p.account_device_id
partition_key_of online_changed p = p.account_device_id
partition_key_of metadata_changed p = p.account_device_id
