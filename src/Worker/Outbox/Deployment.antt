-- ===== src/Worker/Outbox/Deployment.antt =====
-- The outbox worker over the tables of internal/store, as cmd/outbox-worker/main.go puts them
-- together. What is left open is the broker, the clock and the context, with a state `P`.
use rtk_account_manager.Common.{String, Option, List, Result, ok, err, Time, GoError}
use rtk_account_manager.Channel.Types.{Envelope}
use rtk_account_manager.Store.Tables.{Db}
use rtk_account_manager.Store.Claim.{claim_outbox_messages_ready}
use rtk_account_manager.Store.Outbox.{
  OutboxPublishTransitionResult, record_outbox_publish_transition,
}
use rtk_account_manager.Worker.Outbox.{Surroundings}
use rtk_account_manager.Model.{DeviceMessageOutbox}

pub record Deployment (P : Type 0) : Type 0 where
  pub publish : P → String → Envelope → Option GoError × P
  pub now : P → Time
  pub context_error : P → Option GoError

module _ {P : Type 0} where
  abbrev pub claimed :
      P → List DeviceMessageOutbox × Db → Result (List DeviceMessageOutbox) × (Db × P)
  claimed p (ms, db) = (ok ms, (db, p))

  -- A transaction that fails leaves the tables as they were.
  abbrev pub committed :
      Db → P → Result (OutboxPublishTransitionResult × Db) → Result (Unit {0}) × (Db × P)
  committed db p (err e) = (err e, (db, p))
  committed db p (ok (r, db')) = (ok tt, (db', p))

  abbrev pub delivered : Db → Option GoError × P → Option GoError × (Db × P)
  delivered db (e, p) = (e, (db, p))

  abbrev pub deploy : Deployment P → Surroundings (Db × P)
  deploy d = record {
    claim = λ w ready_before claim_until limit.
        claimed w.1 (claim_outbox_messages_ready w.0 ready_before claim_until limit);
    record_transition = λ w inp. committed w.0 w.1 (record_outbox_publish_transition w.0 inp);
    publish = λ w stream envelope. delivered w.0 (d.publish w.1 stream envelope);
    now = λ w. d.now w.1;
    context_error = λ w. d.context_error w.1;
  }
