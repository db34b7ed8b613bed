-- ===== src/Worker/Outbox/Loop.antt =====
-- Run of internal/worker/outbox/service.go.
use rtk_account_manager.Common.{
  ℕ, String, Bool, true, false, Option, none, some, List, [], ◌∷◌, if◌then◌else◌, Time, GoError,
  is_canceled,
}
use rtk_account_manager.Store.Tables.{Db}
use rtk_account_manager.Worker.Outbox.{Runtime, Service, Surroundings, run_once}
use rtk_account_manager.Worker.Outbox.Deployment.{Deployment, deploy}
use rtk_account_manager.Worker.Outbox.Invariants.{IsPublishedAs, run_once-IsPublishedAs}

module _ {W : Type 0} where
  -- What Run returns after a round, or `none` while it still runs, and the state: nil for a context
  -- that is canceled, any other error as it is.
  abbrev pub after_round :
      Bool → Option GoError → W → Option (Option GoError) × W → Option (Option GoError) × W
  after_round is_stopped (some e) w rest = (if is_canceled e then some none else some (some e), w)
  after_round is_stopped none w rest = if is_stopped then (some none, w) else rest

  -- Run over as many rounds as the list has; an entry says whether the context ends in the wait
  -- after its round.
  unfoldable pub run :
      Surroundings W → Runtime → Service → List Bool → W → Option (Option GoError) × W
  run env rt s [] w = (none, w)
  run env rt s (is_stopped ∷ waits) w =
      let ((stats, failure), w') = run_once env rt s w in
      after_round is_stopped failure w' (run env rt s waits w')

-- A message that has been published stays published, with its attempt count and its time of
-- publication, however many rounds the loop of the outbox worker makes.
pub run-IsPublishedAs :
    {P : Type 0} (d : Deployment P) (rt : Runtime) (s : Service) (waits : List Bool) (db : Db)
    (p : P) (id : String) (attempts : ℕ) (published_at : Option Time)
    → IsPublishedAs id attempts published_at db.outbox
    → IsPublishedAs id attempts published_at (run (deploy d) rt s waits (db, p)).1.0.outbox
unfolding run
run-IsPublishedAs d rt s [] db p id attempts published_at h = h
run-IsPublishedAs {P} d rt s (is_stopped ∷ waits) db p id attempts published_at h =
    after_either is_stopped (run_once (deploy d) rt s (db, p)).0.1 now
      (run-IsPublishedAs d rt s waits w'.0 w'.1 id attempts published_at now)
  where
    w' : Db × P
    w' = (run_once (deploy d) rt s (db, p)).1

    now : IsPublishedAs id attempts published_at w'.0.outbox
    now = run_once-IsPublishedAs d rt s db p id attempts published_at h

    after_either :
        (b : Bool) (failure : Option GoError)
        → IsPublishedAs id attempts published_at w'.0.outbox
        → IsPublishedAs id attempts published_at (run (deploy d) rt s waits w').1.0.outbox
        → IsPublishedAs id attempts published_at
            (after_round b failure w' (run (deploy d) rt s waits w')).1.0.outbox
    after_either b (some e) first rest = first
    after_either true none first rest = first
    after_either false none first rest = rest
