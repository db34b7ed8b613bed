-- ===== src/Channel/Routes/Laws.antt =====
-- The table of message types: what it finds, and where its messages go.
use rtk_account_manager.Common.{
  String, str_eq, eq_iff, ◌≡◌, refl, sym, ◌⊎◌, inl, inr, ◌↔◌, Bool-cases, Option, none, some, List,
  [], err, unsupported_message_type, ap, ◌∷◌, ok, arith,
}
use rtk_account_manager.Channel.Types.{
  PayloadKind, provision_requested, deactivate_requested, unprovision_requested, snapshot_requested,
  stream_account_video_commands, stream_video_account_events, service_account_manager,
  service_realtek_video_cloud,
}
use rtk_account_manager.Channel.Routes.{
  MessageSpec, Route, message_type_of, spec_of, kinds, find_spec, message_specs, route_of,
  route_for_message_type,
}

find_spec-some :
    (t : String) (ks : List PayloadKind) (s : MessageSpec)
    → find_spec t ks ≡ some s
    → (k : PayloadKind) × (t ≡ message_type_of k) × (s ≡ spec_of k)
unfolding find_spec
find_spec-some t [] s h = cc
find_spec-some t (k ∷ ks) s h = elim (Bool-cases (str_eq (message_type_of k) t)) [
  | inl hit ↦ (k, sym ((eq_iff (message_type_of k) t).0 hit), ground arith)
  | inr miss ↦ find_spec-some t ks s (ground arith)
]

pub message_specs-some :
    (t : String) (s : MessageSpec)
    → message_specs t ≡ some s
    → (k : PayloadKind) × (t ≡ message_type_of k) × (s ≡ spec_of k)
unfolding message_specs
message_specs-some t s h = find_spec-some t kinds s h

pub message_specs-message_type_of :
    (k : PayloadKind) → message_specs (message_type_of k) ≡ some (spec_of k)
unfolding message_specs
message_specs-message_type_of provision_requested = refl
message_specs-message_type_of _ = refl

-- The messages that the account manager sends; the others it receives.
abbrev pub IsCommand : PayloadKind → Type 0
IsCommand provision_requested = Unit
IsCommand deactivate_requested = Unit
IsCommand unprovision_requested = Unit
IsCommand snapshot_requested = Unit
IsCommand _ = ⊥

abbrev pub command_route : Route
command_route = record {
  stream = stream_account_video_commands;
  source_service = service_account_manager;
  target_service = service_realtek_video_cloud;
}

abbrev pub event_route : Route
event_route = record {
  stream = stream_video_account_events;
  source_service = service_realtek_video_cloud;
  target_service = service_account_manager;
}

route_by_kind :
    (k : PayloadKind) (r : Route)
    → (IsCommand k × (r ≡ command_route)) ⊎ ((¬ IsCommand k) × (r ≡ event_route))
    → route_of (spec_of k) ≡ r
unfolding route_of
route_by_kind provision_requested r (inl (c, e)) = sym e
route_by_kind provision_requested r (inr (c, e)) = absurd (c tt)
route_by_kind deactivate_requested r (inr (c, e)) = absurd (c tt)
route_by_kind unprovision_requested r (inr (c, e)) = absurd (c tt)
route_by_kind snapshot_requested r (inr (c, e)) = absurd (c tt)
route_by_kind _ r (inl (c, e)) = ground arith
route_by_kind _ r (inr (c, e)) = sym e

kind_of_route :
    (k : PayloadKind) (r : Route)
    → route_of (spec_of k) ≡ r
    → (IsCommand k × (r ≡ command_route)) ⊎ ((¬ IsCommand k) × (r ≡ event_route))
unfolding route_of
kind_of_route provision_requested r e = inl (tt, sym e)
kind_of_route deactivate_requested r e = inl (tt, sym e)
kind_of_route unprovision_requested r e = inl (tt, sym e)
kind_of_route snapshot_requested r e = inl (tt, sym e)
kind_of_route _ r e = inr (λ c. c, sym e)

-- A message type has a route exactly when it is the name of one of the fourteen payload kinds. The
-- four requests go from the account manager to the video cloud on the command stream, and the other
-- ten kinds go the opposite way on the event stream.
pub route_for_message_type_iff :
    (t : String) (r : Route)
    → (route_for_message_type t ≡ ok r) ↔ (
        (k : PayloadKind) × (t ≡ message_type_of k)
        × ((IsCommand k × (r ≡ command_route)) ⊎ ((¬ IsCommand k) × (r ≡ event_route))))
unfolding route_for_message_type
route_for_message_type_iff t r = (
  λ h. routed (message_specs t) h refl,
  λ (k, e, d).
      rw (e, message_specs-message_type_of k, route_for_message_type) (ap ok (route_by_kind k r d)),
)
  where
    routed :
        (o : Option MessageSpec)
        → (elim o [ none ↦ err (unsupported_message_type t) | some s ↦ ok (route_of s) ]) ≡ ok r
        → message_specs t ≡ o
        → (k : PayloadKind) × (t ≡ message_type_of k)
          × ((IsCommand k × (r ≡ command_route)) ⊎ ((¬ IsCommand k) × (r ≡ event_route)))
    routed none h e = cc
    routed (some s) h e =
        let (k, name, spec) = message_specs-some t s e in
        (k, name, kind_of_route k r (ground arith))
