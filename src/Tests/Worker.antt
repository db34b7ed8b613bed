-- ===== src/Tests/Worker.antt =====
-- A round of the outbox worker over the sample tables, with a broker that takes every message, or
-- one that is out of reach.
use rtk_account_manager.Common.{
  ℕ, ◌+◌, ◌≤◌, ◌≡◌, refl, inl, true, false, [], ◌∷◌, none, some, All, ok, plain, publish_error,
  arith,
}
use rtk_account_manager.Broker.{is_transient}
use rtk_account_manager.Channel.Types.{deactivate_requested}
use rtk_account_manager.Channel.Routes.Laws.{command_route, route_for_message_type_iff}
use rtk_account_manager.Channel.Envelopes.Tests.{codec, envelope, raw, validated}
use rtk_account_manager.Model.{DeviceMessageOutbox, DeviceMessageOutboxStatus}
use rtk_account_manager.Store.Rows.{find_row}
use rtk_account_manager.Store.Tables.{outbox_key}
use rtk_account_manager.Worker.Outbox.{
  Service, Runtime, envelope_from_message, run_once, publish_message,
}
use rtk_account_manager.Worker.Outbox.Deployment.{Deployment, deploy}
use rtk_account_manager.Worker.Outbox.Invariants.{IsPublishedAs, IsBounded, run_once-IsBounded}
use rtk_account_manager.Worker.Outbox.Loop.{run, run-IsPublishedAs}
use rtk_account_manager.Worker.Outbox.Outcomes.{run_once-outcomes, publish_message_lem}
use rtk_account_manager.Tests.Samples.{after, operation, message, done, db}

abbrev service : Service
service = record {
  max_attempts = 5;
  poll_interval = 5000000000;
  retry_delay = 5000000000;
  lease_duration = 30000000000;
  batch_size = 20;
}

abbrev rt : Runtime
rt = record { codec = codec; marshal = λ m. ok raw; error_text = λ e. "publish failed" }

-- The state counts the calls of Publish.
abbrev reachable : Deployment ℕ
reachable = record {
  publish = λ p stream e. (none, p + 1);
  now = λ p. after 10;
  context_error = λ p. none;
}

abbrev unreachable : Deployment ℕ
unreachable = record {
  publish = λ p stream e. (some (publish_error (plain "no route to host") true), p + 1);
  now = λ p. after 10;
  context_error = λ p. none;
}

built : envelope_from_message rt message ≡ ok envelope
unfolding envelope_from_message
built =
    rw
      (
        (route_for_message_type_iff "DeviceDeactivateRequested" command_route).1
            (deactivate_requested, refl, inl (tt, refl)),
        validated,
      )
      refl

run_once-outcomes_example :
    let st = (run_once (deploy unreachable) rt service (db, 0)).0.0 in
    st.published + st.retrying + st.dead_lettered ≤ st.claimed
run_once-outcomes_example = run_once-outcomes (deploy unreachable) rt service (db, 0)

run-IsPublishedAs_example :
    IsPublishedAs "m-3" 1
      (some (after 1))
      (run (deploy unreachable) rt service (false ∷ true ∷ []) (db, 0)).1.0.outbox
unfolding find_row
run-IsPublishedAs_example =
    run-IsPublishedAs unreachable rt service (false ∷ true ∷ []) db 0 "m-3" 1 (some (after 1))
      (done, refl, refl, refl, refl)

run_once-IsBounded_example :
    All (IsBounded 5) (run_once (deploy unreachable) rt service (db, 0)).1.0.outbox
run_once-IsBounded_example =
    run_once-IsBounded unreachable rt service db 0 (λ e. cc, (λ e. omega arith, (λ e. cc, tt)))

-- The row that an attempt to reach the broker leaves behind.
abbrev waiting : DeviceMessageOutbox
waiting = record message {
  status = DeviceMessageOutboxStatus.retrying;
  attempt_count = 1;
  last_error = some "publish failed";
  available_at = after 15;
}

publish_message_lem_example :
    ((publish_message (deploy unreachable) rt service (db, 0) message).0
      ≡ ok (some DeviceMessageOutboxStatus.retrying))
    × (find_row outbox_key "m-1"
          (publish_message (deploy unreachable) rt service (db, 0) message).1.0.outbox
        ≡ some waiting)
unfolding find_row is_transient
publish_message_lem_example =
    (publish_message_lem unreachable rt service db 0 1 message operation envelope refl refl built).1
      (publish_error (plain "no route to host") true) refl refl refl (omega arith)
