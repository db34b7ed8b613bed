-- ===== src/Store/Projection/Laws.antt =====
-- What a projection may change.
use rtk_account_manager.Common.{
  ◌<◌, String, str_eq, eq_iff, starts_with, ◌≡◌, refl, sym, ap, ◌∙◌, ◌⊎◌, inl, inr, ◌≢◌, Bool,
  false, Bool-cases, Option, none, some, Option-cases, List, [], ◌∷◌, Result, subst, true,
  >>=-eq-ok, if◌then◌else◌, Time, ok, arith,
}
use rtk_account_manager.Common.Json.{Json}
use rtk_account_manager.Model.{JsonMap, Device}
use rtk_account_manager.Store.Projection.{
  DeviceProjectionInput, select_projection_metadata, lookup_json, delete_json, put_json, merge_json,
  apply_projection_metadata, is_null, is_stale, is_refused_as_disabled, is_presence_conflict,
  is_superseded, projected, decide_presence, decide_projection, is_device, find_device,
  replace_device, or_missing, write_device, project_device,
}
use rtk_account_manager.Store.Tables.{Db}

lookup_json-delete_json :
    (k j : String) (m : JsonMap)
    → lookup_json j (delete_json k m) ≡ (if str_eq k j then none else lookup_json j m)
unfolding lookup_json delete_json
lookup_json-delete_json k j [] = ground arith
lookup_json-delete_json k j ((i, v) ∷ m) =
    ground (arith, eq_iff k j, eq_iff i k, eq_iff i j, lookup_json-delete_json k j m)

lookup_json-put_json :
    (k j : String) (v : Json) (m : JsonMap)
    → lookup_json j (put_json k v m) ≡ (if str_eq k j then some v else lookup_json j m)
unfolding lookup_json put_json
lookup_json-put_json k j v m = ground (arith, eq_iff k j, lookup_json-delete_json k j m)

abbrev selected : String → Bool
selected k = starts_with k "video_cloud_"

change_elsewhere :
    (j k : String) (v : Json) (m : JsonMap)
    → j ≢ k
    → lookup_json k (if is_null v then delete_json j m else put_json j v m) ≡ lookup_json k m
change_elsewhere j k v m h =
    ground (arith, eq_iff j k, h, lookup_json-delete_json j k m, lookup_json-put_json j k v m)

merge_unselected :
    (k : String) (patch m : JsonMap)
    → starts_with k "video_cloud_" ≡ false
    → lookup_json k (merge_json m (select_projection_metadata patch)) ≡ lookup_json k m
unfolding merge_json select_projection_metadata
merge_unselected k [] m h = refl
merge_unselected k ((j, v) ∷ patch) m h = elim (Bool-cases (starts_with j "video_cloud_")) [
  | inr e ↦ rw e (merge_unselected k patch m h)
  | inl e ↦ rw e (
      merge_unselected k patch (if is_null v then delete_json j m else put_json j v m) h
      ∙ change_elsewhere j k v m (λ same. cc (ap selected same)))
]

lookup_json-apply_projection_metadata :
    (k : String) (existing patch : JsonMap)
    → starts_with k "video_cloud_" ≡ false
    → lookup_json k (apply_projection_metadata existing patch) ≡ lookup_json k existing
unfolding apply_projection_metadata
lookup_json-apply_projection_metadata k existing patch h = merge_unselected k patch existing h

-- A later report, or one that takes the device offline at the same instant.
abbrev pub Supersedes : Device → String → Time → Time → Type 0
Supersedes device status last seen =
    (last.nanos < seen.nanos)
    ⊎ ((last.nanos ≡ seen.nanos) × (status ≡ "offline") × (device.status ≢ "offline"))

abbrev seen_at : Device → Option Time
seen_at d = d.last_seen_at

abbrev status_of : Device → String
status_of d = d.status

written_presence :
    (device new : Device) (inp : DeviceProjectionInput) (status : String) (last seen : Time)
    → inp.status ≡ some status
    → inp.last_seen_at ≡ some seen
    → device.last_seen_at ≡ some last
    → decide_presence device inp (some status) (some seen) ≡ ok (some new)
    → (new.last_seen_at ≡ some seen) × (new.status ≡ status) × Supersedes device status last seen
unfolding decide_presence
written_presence device new inp status last seen p l q h =
    elim (Bool-cases (is_presence_conflict device inp)) [
      | inl c ↦ absurd (ground arith)
      | inr c ↦ elim (Bool-cases (is_superseded device status seen device.last_seen_at)) [
        | inl o ↦ absurd (ground arith)
        | inr o ↦
            let made : projected device inp ≡ new = ground arith in
            (
              sym (ap seen_at made) ∙ seen_at_projected,
              sym (ap status_of made) ∙ status_projected,
              later o,
            )
      ]
    ]
  where
    seen_at_projected : (projected device inp).last_seen_at ≡ some seen
    seen_at_projected = ground arith

    status_projected : (projected device inp).status ≡ status
    status_projected = ground arith

    later :
        is_superseded device status seen device.last_seen_at ≡ false
        → Supersedes device status last seen
    later o = ground (
      arith,
      eq_iff device.status status,
      eq_iff status "offline",
      eq_iff device.status "offline",
    )

decided :
    (device new : Device) (inp : DeviceProjectionInput) (status : String) (seen : Time)
    → inp.status ≡ some status
    → inp.last_seen_at ≡ some seen
    → decide_projection device inp ≡ ok (some new)
    → decide_presence device inp (some status) (some seen) ≡ ok (some new)
unfolding decide_projection
decided device new inp status seen p e h = elim (Bool-cases (is_stale device inp)) [
  | inl s ↦ absurd (ground arith)
  | inr s ↦ elim (Bool-cases (is_refused_as_disabled device inp)) [
    | inl r ↦ absurd (ground arith)
    | inr r ↦
        sym (
          ap (λ o. decide_presence device inp o inp.last_seen_at) p
          ∙ ap (λ o. decide_presence device inp (some status) o) e)
        ∙ ground arith
  ]
]

-- A presence report that is written to a device which has reported before carries the report's time
-- and status into the row, and is later than the last report or takes the device offline at the
-- same instant.
pub presence_monotone :
    (device new : Device) (inp : DeviceProjectionInput) (status : String) (last : Time)
    → inp.status ≡ some status
    → device.last_seen_at ≡ some last
    → decide_projection device inp ≡ ok (some new)
    → (seen : Time) × (inp.last_seen_at ≡ some seen)
      × (new.last_seen_at ≡ some seen)
      × (new.status ≡ status)
      × Supersedes device status last seen
unfolding decide_projection
presence_monotone device new inp status last p q h = elim (Option-cases inp.last_seen_at) [
  | inl e ↦ absurd (ground arith)
  | inr (seen, e) ↦
      let (at_seen, of_status, later) =
        written_presence device new inp status last seen p e q
          (decided device new inp status seen p e h) in
      (seen, e, at_seen, of_status, later)
]

decide_presence-projected :
    (device new : Device) (inp : DeviceProjectionInput) (status : Option String)
    (seen : Option Time)
    → decide_presence device inp status seen ≡ ok (some new)
    → projected device inp ≡ new
unfolding decide_presence
decide_presence-projected device new inp none seen h = ground arith
decide_presence-projected device new inp (some status) none h = absurd (ground arith)
decide_presence-projected device new inp (some status) (some seen) h =
    elim (Bool-cases (is_presence_conflict device inp)) [
      | inl c ↦ absurd (ground arith)
      | inr c ↦ elim (Bool-cases (is_superseded device status seen device.last_seen_at)) [
        | inl o ↦ absurd (ground arith)
        | inr o ↦ ground arith
      ]
    ]

-- A row that is written is the projected one.
decide_projection-projected :
    (device new : Device) (inp : DeviceProjectionInput)
    → decide_projection device inp ≡ ok (some new)
    → projected device inp ≡ new
unfolding decide_projection
decide_projection-projected device new inp h = elim (Bool-cases (is_stale device inp)) [
  | inl s ↦ absurd (ground arith)
  | inr s ↦ elim (Bool-cases (is_refused_as_disabled device inp)) [
    | inl r ↦ absurd (ground arith)
    | inr r ↦ decide_presence-projected device new inp inp.status inp.last_seen_at (ground arith)
  ]
]

is_device-find_device :
    (org_id id : String) (ds : List Device) (d : Device)
    → find_device org_id id ds ≡ some d
    → is_device org_id id d ≡ true
unfolding find_device
is_device-find_device org_id id [] d h = cc
is_device-find_device org_id id (x ∷ ds) d h = elim (Bool-cases (is_device org_id id x)) [
  | inl e ↦ let same : x ≡ d = ground arith in subst (λ y. is_device org_id id y ≡ true) same e
  | inr e ↦ is_device-find_device org_id id ds d (ground arith)
]

find_device-replace_device :
    (org_id id : String) (ds : List Device) (d new : Device)
    → find_device org_id id ds ≡ some d
    → is_device org_id id new ≡ true
    → find_device org_id id (replace_device org_id id new ds) ≡ some new
unfolding find_device replace_device
find_device-replace_device org_id id [] d new h own = cc
find_device-replace_device org_id id (x ∷ ds) d new h own =
    elim (Bool-cases (is_device org_id id x)) [
      | inl e ↦ rw (e, own)
      | inr e ↦ rw (e, e) (find_device-replace_device org_id id ds d new (ground arith) own)
    ]

-- After a projection that succeeds, the row of the device holds under every key that does not begin
-- with "video_cloud_" what it held before, and it is the row that is returned.
pub project_device-metadata :
    (db db' : Db) (org_id id k : String) (inp : DeviceProjectionInput) (new : Device)
    → starts_with k "video_cloud_" ≡ false
    → project_device db org_id id inp ≡ ok (new, db')
    → (device : Device) × (find_device org_id id db.devices ≡ some device)
      × (find_device org_id id db'.devices ≡ some new)
      × (lookup_json k new.metadata ≡ lookup_json k device.metadata)
unfolding project_device projected
project_device-metadata db db' org_id id k inp new other h =
    let (device, was, rest) = >>=-eq-ok (or_missing (find_device org_id id db.devices)) _ h in
    let (change, decided_as, last) = >>=-eq-ok (decide_projection device inp) _ rest in
    let there = or_missing-eq-ok (find_device org_id id db.devices) device was in
    let (found, same) = by_change device there change decided_as last in
    (device, there, found, same)
  where
    or_missing-eq-ok : (o : Option Device) (d : Device) → or_missing o ≡ ok d → o ≡ some d
    or_missing-eq-ok none d e = cc
    or_missing-eq-ok (some x) d e = ap some (ground arith)

    by_change :
        (device : Device)
        → find_device org_id id db.devices ≡ some device
        → (change : Option Device) → decide_projection device inp ≡ ok change
        → ◌≡◌ {A = Result (Device × Db)}
            (ok (write_device db org_id id device change))
            (ok (new, db'))
        → (find_device org_id id db'.devices ≡ some new)
          × (lookup_json k new.metadata ≡ lookup_json k device.metadata)
    by_change device there none decided_as last =
        let same : device ≡ new = cc (last) in
        let same_db : db ≡ db' = cc (last) in
        (
          ap (λ (b : Db). find_device org_id id b.devices) (sym same_db) ∙ there ∙ ap some same,
          ap (λ (d : Device). lookup_json k d.metadata) (sym same),
        )
    by_change device there (some made) decided_as last =
        let same : made ≡ new = cc (last) in
        let same_db : (write_device db org_id id device (some made)).1 ≡ db' = cc (last) in
        let is_projected = decide_projection-projected device made inp decided_as in
        (
          ap (λ (b : Db). find_device org_id id b.devices) (sym same_db)
              ∙ find_device-replace_device org_id id db.devices device made there (
                  subst (λ d. is_device org_id id d ≡ true) is_projected
                    (is_device-find_device org_id id db.devices device there))
              ∙ ap some same,
          ap (λ (d : Device). lookup_json k d.metadata) (sym same)
              ∙ ap (λ (d : Device). lookup_json k d.metadata) (sym is_projected)
              ∙ lookup_json-apply_projection_metadata k device.metadata inp.metadata other,
        )
