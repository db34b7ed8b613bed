-- ===== src/Tests/Projection.antt =====
-- A presence report and a change of metadata on the sample device.
use rtk_account_manager.Common.{◌≡◌, refl, some, [], ◌∷◌, Time}
use rtk_account_manager.Common.Json.{string, null}
use rtk_account_manager.Channel.Types.{DeviceOnlineChangedPayload}
use rtk_account_manager.Channel.Text.{is_blank}
use rtk_account_manager.Channel.Envelopes.Tests.{device_id}
use rtk_account_manager.Model.{JsonMap, Device}
use rtk_account_manager.Store.Projection.{
  DeviceProjectionInput, online_changed_projection, decide_projection, projected, lookup_json,
  is_stale, metadata_projection, find_device, replace_device, project_device,
  is_refused_as_disabled, is_presence_conflict, is_superseded, string_at,
}
use rtk_account_manager.Store.Projection.Laws.{
  presence_monotone, project_device-metadata, Supersedes,
}
use rtk_account_manager.Tests.Samples.{after, camera, db}

abbrev report : DeviceOnlineChangedPayload
report = record {
  org_id = "11111111-2222-4333-8444-555555555555";
  account_device_id = device_id;
  video_cloud_devid = "cam-7";
  status = "offline";
  last_seen_at = after 5;
}

abbrev presence : DeviceProjectionInput
presence = online_changed_projection report

-- The report has the time of the last one and takes the device offline.
presence_monotone_example :
    (seen : Time) × (presence.last_seen_at ≡ some seen)
    × ((projected camera presence).last_seen_at ≡ some seen)
    × ((projected camera presence).status ≡ "offline")
    × Supersedes camera "offline" (after 5) seen
unfolding online_changed_projection decide_projection is_stale is_refused_as_disabled
    is_presence_conflict is_superseded projected string_at lookup_json is_blank
presence_monotone_example =
    presence_monotone camera (projected camera presence) presence "offline" (after 5) refl refl refl

abbrev patch : JsonMap
patch = ("label", string "gate") ∷ ("video_cloud_devid", null) ∷ []

abbrev relabel : DeviceProjectionInput
relabel = metadata_projection patch

abbrev relabelled : Device
relabelled = projected camera relabel

project_device-metadata_example :
    (device : Device) × (find_device camera.organization_id camera.id db.devices ≡ some device)
    × (find_device camera.organization_id camera.id (relabelled ∷ []) ≡ some relabelled)
    × (lookup_json "label" relabelled.metadata ≡ lookup_json "label" device.metadata)
unfolding project_device find_device replace_device decide_projection is_stale
    is_refused_as_disabled projected lookup_json string_at is_blank
project_device-metadata_example =
    project_device-metadata db (record db { devices = relabelled ∷ [] }) camera.organization_id
      camera.id "label" relabel relabelled refl refl
