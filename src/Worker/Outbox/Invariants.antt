-- ===== src/Worker/Outbox/Invariants.antt =====
-- What no round of the outbox worker breaks, whatever the broker, the clock and the context do.
use rtk_account_manager.Common.{
  ℕ, ◌<◌, String, str_eq, eq_iff, ◌≡◌, refl, sym, ap, ◌∙◌, inl, inr, true, false, Bool-cases,
  Option, some, List, [], ◌∷◌, if◌then◌else◌, All, Time, arith,
}
use mathlib.Core.Option
use rtk_account_manager.Channel.Fields.{contains}
use rtk_account_manager.Model.{DeviceMessageOutbox, DeviceMessageOutboxStatus, is_waiting}
use rtk_account_manager.Store.Rows.{find_row, update_row, find_row-update_row, All-update_row}
use rtk_account_manager.Store.Tables.{Db, outbox_key}
use rtk_account_manager.Store.Claim.{lease, lease_rows}
use rtk_account_manager.Store.Outbox.{
  OutboxPublishTransitionInput, should_apply_outbox_publish_transition, transition_message,
}
use rtk_account_manager.Worker.Outbox.{Service, Runtime, run_once}
use rtk_account_manager.Worker.Outbox.Deployment.{Deployment, deploy}
use rtk_account_manager.Worker.Outbox.Laws.{IsKept, run_once-keeps}

-- The row of `id` says that the message was published, after so many attempts, at that time.
abbrev pub IsPublishedAs : String → ℕ → Option Time → List DeviceMessageOutbox → Type 0
IsPublishedAs id attempts published_at rows =
    (m : DeviceMessageOutbox) × (find_row outbox_key id rows ≡ some m)
    × (m.status ≡ DeviceMessageOutboxStatus.published)
    × (m.attempt_count ≡ attempts)
    × (m.published_at ≡ published_at)

find_row-lease_rows :
    (until : Time) (ids : List String) (id : String) (rows : List DeviceMessageOutbox)
    → find_row outbox_key id (lease_rows until ids rows)
      ≡ Option.map
          (λ m. if contains ids m.message_id then lease until m else m)
          (find_row outbox_key id rows)
unfolding find_row lease_rows
find_row-lease_rows until ids id [] = refl
find_row-lease_rows until ids id (m ∷ rows) = elim (Bool-cases (contains ids m.message_id)) [
  | inl e ↦ rw e (ground (arith, e, find_row-lease_rows until ids id rows))
  | inr e ↦ rw e (ground (arith, e, find_row-lease_rows until ids id rows))
]

-- A transition that expects a waiting row does not apply to a published one.
not_applied :
    (current : DeviceMessageOutbox) (inp : OutboxPublishTransitionInput)
    → is_waiting inp.expected_message_status ≡ true
    → current.status ≡ DeviceMessageOutboxStatus.published
    → should_apply_outbox_publish_transition current inp ≡ false
unfolding should_apply_outbox_publish_transition
not_applied current inp waiting done = ground arith

abbrev status_of : DeviceMessageOutbox → DeviceMessageOutboxStatus
status_of m = m.status

published-IsKept :
    (max_attempts : ℕ) (id : String) (attempts : ℕ) (published_at : Option Time)
    → IsKept max_attempts (IsPublishedAs id attempts published_at)
unfolding transition_message
published-IsKept max_attempts id attempts published_at = record {
  on_lease = λ until ids rows (m, found, done, same, when). (
    if contains ids m.message_id then lease until m else m,
    find_row-lease_rows until ids id rows ∙ ap (Option.map _) found,
    ground arith,
    ground arith,
    ground arith,
  );
  on_transition = λ rows inp current waiting bound found apply (m, has, done, same, when).
      (m, untouched rows inp current m waiting found apply has done, done, same, when);
}
  where
    untouched :
        (rows : List DeviceMessageOutbox) (inp : OutboxPublishTransitionInput)
        (current m : DeviceMessageOutbox)
        → is_waiting inp.expected_message_status ≡ true
        → find_row outbox_key inp.message_id rows ≡ some current
        → should_apply_outbox_publish_transition current inp ≡ true
        → find_row outbox_key id rows ≡ some m
        → m.status ≡ DeviceMessageOutboxStatus.published
        → find_row outbox_key id
            (update_row outbox_key inp.message_id (transition_message current inp) rows)
          ≡ some m
    untouched rows inp current m waiting found apply has done =
        elim (Bool-cases (str_eq inp.message_id id)) [
          | inl e ↦
              let one : some current ≡ some m =
                sym found
                ∙ ap (λ k. find_row outbox_key k rows) ((eq_iff inp.message_id id).0 e)
                ∙ has in
              let as_m : current ≡ m = cc one in
              absurd (ground (arith, not_applied current inp waiting (ap status_of as_m ∙ done)))
          | inr e ↦
              find_row-update_row outbox_key inp.message_id id (transition_message current inp) rows
                (λ r. refl)
              ∙ rw e has
        ]

-- A message that has been published stays published, with its attempt count and its time of
-- publication, through every round of the outbox worker.
pub run_once-IsPublishedAs :
    {P : Type 0} (d : Deployment P) (rt : Runtime) (s : Service) (db : Db) (p : P) (id : String)
    (attempts : ℕ) (published_at : Option Time)
    → IsPublishedAs id attempts published_at db.outbox
    → IsPublishedAs id attempts published_at (run_once (deploy d) rt s (db, p)).1.0.outbox
run_once-IsPublishedAs d rt s db p id attempts published_at =
    run_once-keeps d rt s (IsPublishedAs id attempts published_at)
      (published-IsKept s.max_attempts id attempts published_at) db p

-- A message waits for a retry only after fewer attempts than the limit.
abbrev pub IsBounded : ℕ → DeviceMessageOutbox → Type 0
IsBounded max_attempts m =
    m.status ≡ DeviceMessageOutboxStatus.retrying → m.attempt_count < max_attempts

All-lease_rows :
    (max_attempts : ℕ) (until : Time) (ids : List String) (rows : List DeviceMessageOutbox)
    → All (IsBounded max_attempts) rows
    → All (IsBounded max_attempts) (lease_rows until ids rows)
unfolding lease_rows
All-lease_rows max_attempts until ids [] h = tt
All-lease_rows max_attempts until ids (m ∷ rows) h = elim (Bool-cases (contains ids m.message_id)) [
  | inl e ↦ rw e (h.0, All-lease_rows max_attempts until ids rows h.1)
  | inr e ↦ rw e (h.0, All-lease_rows max_attempts until ids rows h.1)
]

IsBounded-transition :
    (max_attempts : ℕ) (inp : OutboxPublishTransitionInput) (current row : DeviceMessageOutbox)
    → (inp.message_status ≡ DeviceMessageOutboxStatus.retrying → inp.attempt_count < max_attempts)
    → IsBounded max_attempts (transition_message current inp row)
unfolding transition_message
IsBounded-transition max_attempts inp current row bound e = ground (arith, bound e)

-- In every round of the worker, if each message that waits for a retry has had fewer attempts than
-- the limit, then so it is afterwards: the worker never schedules a retry beyond the limit.
pub run_once-IsBounded :
    {P : Type 0} (d : Deployment P) (rt : Runtime) (s : Service) (db : Db) (p : P)
    → All (IsBounded s.max_attempts) db.outbox
    → All (IsBounded s.max_attempts) (run_once (deploy d) rt s (db, p)).1.0.outbox
run_once-IsBounded d rt s db p =
    run_once-keeps d rt s (All (IsBounded s.max_attempts))
      (record {
        on_lease = All-lease_rows s.max_attempts;
        on_transition = λ rows inp current waiting bound found apply h.
            All-update_row (IsBounded s.max_attempts) outbox_key inp.message_id
              (transition_message current inp) rows
              (λ m. IsBounded-transition s.max_attempts inp current m bound) h;
      })
      db p
