-- ===== src/Worker/Outbox/Laws.antt =====
-- What the outbox worker does to the tables, whatever the broker answers.
use rtk_account_manager.Common.{
  ℕ, ◌+◌, ◌<◌, String, ◌≡◌, sym, subst, inl, inr, true, Bool-cases, Option, none, some,
  Option-cases, List, [], ◌∷◌, All, Result, ok, err, Result-cases, GoError, is_canceled, wrapped,
  Time, add_time, ◌&&◌, ltb, arith,
}
use rtk_account_manager.Broker.{is_transient}
use rtk_account_manager.Model.{DeviceMessageOutbox, DeviceMessageOutboxStatus, is_waiting}
use rtk_account_manager.Store.Rows.{find_row, update_row}
use rtk_account_manager.Store.Tables.{Db, outbox_key, operation_key}
use rtk_account_manager.Store.Claim.{claim_outbox_messages_ready, lease_rows}
use rtk_account_manager.Store.Claim.Laws.{claim_leases}
use rtk_account_manager.Store.Selection.Laws.{All-imp}
use rtk_account_manager.Store.Outbox.{
  OutboxPublishTransitionInput, OutboxPublishTransitionResult,
  should_apply_outbox_publish_transition, transition_message, record_outbox_publish_transition,
}
use rtk_account_manager.Store.Outbox.Laws.{outbox-settle}
use rtk_account_manager.Worker.Outbox.{
  Service, Runtime, Stats, envelope_from_message, expecting, published_transition, retry_transition,
  dead_letter_transition, record_transition, after_publish, publish_message, publish_all, run_once,
  proceed, count, current_time,
}
use rtk_account_manager.Worker.Outbox.Deployment.{Deployment, deploy}

-- A predicate on the table of outbox messages that every applied transition of the worker keeps,
-- and so does a claim.
pub record IsKept (max_attempts : ℕ) (Q : List DeviceMessageOutbox → Type 0) : Type 0 where
  pub on_lease :
      (until : Time) (ids : List String) (rows : List DeviceMessageOutbox)
      → Q rows
      → Q (lease_rows until ids rows)
  pub on_transition :
      (rows : List DeviceMessageOutbox) (inp : OutboxPublishTransitionInput)
      (current : DeviceMessageOutbox)
      → is_waiting inp.expected_message_status ≡ true
      → (inp.message_status ≡ DeviceMessageOutboxStatus.retrying → inp.attempt_count < max_attempts)
      → find_row outbox_key inp.message_id rows ≡ some current
      → should_apply_outbox_publish_transition current inp ≡ true
      → Q rows
      → Q (update_row outbox_key inp.message_id (transition_message current inp) rows)

-- The table of outbox messages after a transaction, whether it was applied or not.
abbrev outbox_after : Db → Result (OutboxPublishTransitionResult × Db) → List DeviceMessageOutbox
outbox_after db (ok (r, db')) = db'.outbox
outbox_after db (err e) = db.outbox

module _ {P : Type 0} (d : Deployment P) (rt : Runtime) (s : Service)
    (Q : List DeviceMessageOutbox → Type 0) (kept : IsKept s.max_attempts Q) where
  transaction-keeps :
      (db : Db) (inp : OutboxPublishTransitionInput)
      → is_waiting inp.expected_message_status ≡ true
      → (inp.message_status ≡ DeviceMessageOutboxStatus.retrying
          → inp.attempt_count < s.max_attempts)
      → Q db.outbox
      → Q (outbox_after db (record_outbox_publish_transition db inp))
  unfolding record_outbox_publish_transition
  transaction-keeps db inp waiting bound q =
      elim (Option-cases (find_row outbox_key inp.message_id db.outbox)) [
        | inl e ↦ rw e q
        | inr (current, e) ↦
            rw e (elim (Bool-cases (should_apply_outbox_publish_transition current inp)) [
              | inr no_match ↦ rw no_match q
              | inl apply ↦
                  rw apply
                    (elim (Option-cases (
                      find_row operation_key (transition_message current inp current).operation_id
                        db.operations)) [
                          | inl missing ↦ rw missing q
                          | inr (operation, found) ↦ rw found (
                              subst Q
                                (sym (
                                  outbox-settle db current inp
                                    (transition_message current inp current) operation))
                                (kept.on_transition db.outbox inp current waiting bound e apply q))
                        ])
            ])
      ]

  claim-keeps :
      (db : Db) (now until : Time) (limit : ℕ)
      → Q db.outbox
      → Q (claim_outbox_messages_ready db now until limit).1.outbox
  unfolding claim_outbox_messages_ready
  claim-keeps db now until limit q = kept.on_lease until _ db.outbox q

  record_transition-keeps :
      (db : Db) (p : P) (m : DeviceMessageOutbox) (inp : OutboxPublishTransitionInput)
      → is_waiting m.status ≡ true
      → (inp.message_status ≡ DeviceMessageOutboxStatus.retrying
          → inp.attempt_count < s.max_attempts)
      → Q db.outbox
      → Q (record_transition (deploy d) rt s (db, p) m inp).1.0.outbox
  unfolding record_transition expecting
  record_transition-keeps db p m inp waiting bound q =
      let t = transaction-keeps db (expecting m inp) waiting bound q in
      elim (Result-cases (record_outbox_publish_transition db (expecting m inp))) [
        | inl ((r, db'), e) ↦ rw e (rw e at t)
        | inr (x, e) ↦ rw e (rw e at t)
      ]

  after_publish-keeps :
      (db : Db) (m : DeviceMessageOutbox) (at_time : Time) (e : Option GoError) (p : P)
      → is_waiting m.status ≡ true
      → Q db.outbox
      → Q (after_publish (deploy d) rt s m at_time (e, (db, p))).1.0.outbox
  unfolding after_publish published_transition retry_transition dead_letter_transition
  after_publish-keeps db m at_time none p waiting q =
      record_transition-keeps db p m (published_transition m (m.attempt_count + 1) at_time) waiting
        (λ c. cc c) q
  after_publish-keeps db m at_time (some x) p waiting q = elim (Bool-cases (is_canceled x)) [
    | inl c ↦ rw c q
    | inr c ↦ rw c (elim (Bool-cases (is_transient x && ltb (m.attempt_count + 1) s.max_attempts)) [
      | inl r ↦ rw r (
          record_transition-keeps db p m (retry_transition rt s m (m.attempt_count + 1) at_time x)
            waiting (λ c. ground arith) q)
      | inr r ↦ rw r (
          record_transition-keeps db p m
            (dead_letter_transition rt m (m.attempt_count + 1) at_time x) waiting (λ c. cc c) q)
    ])
  ]

  publish_message-keeps :
      (db : Db) (p : P) (m : DeviceMessageOutbox)
      → is_waiting m.status ≡ true
      → Q db.outbox
      → Q (publish_message (deploy d) rt s (db, p) m).1.0.outbox
  unfolding publish_message dead_letter_transition
  publish_message-keeps db p m waiting q = elim (Result-cases (envelope_from_message rt m)) [
    | inl (envelope, e) ↦
        rw (e, publish_message)
          (after_publish-keeps db m _ (d.publish p m.stream envelope).0
            (d.publish p m.stream envelope).1 waiting q)
    | inr (x, e) ↦
        rw (e, publish_message)
          (record_transition-keeps db p m
            (dead_letter_transition rt m (m.attempt_count + 1)
              (current_time (deploy d) rt s (db, p)) (wrapped "invalid outbox message: " x))
            waiting (λ c. cc c) q)
  ]

  proceed-keeps :
      (stats : Stats) (r : Result (Option DeviceMessageOutboxStatus) × (Db × P))
      (rest : Db × P → Stats → (Stats × Option GoError) × (Db × P))
      → Q r.1.0.outbox
      → ((w : Db × P) (st : Stats) → Q w.0.outbox → Q (rest w st).1.0.outbox)
      → Q (proceed (deploy d) rt s stats r rest).1.0.outbox
  proceed-keeps stats (ok outcome, w) rest q h = h w (count (deploy d) rt s stats outcome) q
  proceed-keeps stats (err e, w) rest q h = q

  publish_all-keeps :
      (w : Db × P) (stats : Stats) (ms : List DeviceMessageOutbox)
      → All (λ m. is_waiting m.status ≡ true) ms
      → Q w.0.outbox
      → Q (publish_all (deploy d) rt s w stats ms).1.0.outbox
  unfolding publish_all
  publish_all-keeps w stats [] h q = q
  publish_all-keeps (db, p) stats (m ∷ ms) h q = elim (Option-cases (d.context_error p)) [
    | inr (e, c) ↦ rw (c, publish_all) q
    | inl c ↦
        rw (c, publish_all)
          (proceed-keeps stats (publish_message (deploy d) rt s (db, p) m) _
            (publish_message-keeps db p m h.0 q) (λ w st q'. publish_all-keeps w st ms h.1 q'))
  ]

  -- One round of the worker keeps the predicate.
  pub run_once-keeps :
      (db : Db) (p : P) → Q db.outbox → Q (run_once (deploy d) rt s (db, p)).1.0.outbox
  unfolding run_once
  run_once-keeps db p q =
      let now = current_time (deploy d) rt s (db, p) in
      let until = add_time now s.lease_duration in
      publish_all-keeps _ _ (claim_outbox_messages_ready db now until s.batch_size).0
        (All-imp _ (λ m h. h.0) (claim_leases db now until s.batch_size).1)
        (claim-keeps db now until s.batch_size q)
