-- ===== src/Worker/Outbox/Outcomes.antt =====
-- What becomes of one message, and how a round counts them.
use rtk_account_manager.Common.{
  ℕ, ◌+◌, ◌≤◌, ◌<◌, String, eq_iff, ◌≡◌, refl, ap, suc, truncate, ◌∙◌, ◌⊎◌, inl, inr, true, false,
  ◌&&◌, ltb, Option, none, some, Option-cases, List, [], ◌∷◌, length, Result, ok, err, GoError,
  is_canceled, Time, utc, add_time, arith,
}
use rtk_account_manager.Broker.{is_transient}
use rtk_account_manager.Channel.Types.{Envelope, Payload}
use rtk_account_manager.Channel.Envelopes.Accepts.{Accepts}
use rtk_account_manager.Model.{DeviceOperation, DeviceMessageOutbox, DeviceMessageOutboxStatus}
use rtk_account_manager.Store.Rows.{find_row, update_row, find_row-update_row}
use rtk_account_manager.Store.Tables.{Db, operation_key, outbox_key}
use rtk_account_manager.Store.Outbox.{
  OutboxPublishTransitionInput, should_apply_outbox_publish_transition, transition_message,
}
use rtk_account_manager.Store.Outbox.Laws.{applied, outbox-settle}
use rtk_account_manager.Worker.Outbox.{
  Service, Runtime, Stats, Surroundings, current_time, envelope_from_message, expecting,
  published_transition, retry_transition, dead_letter_transition, record_transition, after_publish,
  publish_message, publish_all, run_once, proceed, count, no_stats, after_claim,
}
use rtk_account_manager.Worker.Outbox.Deployment.{Deployment, deploy}

-- The envelope is one that ValidateAndDecode accepts on the message's stream, and carries what the
-- row holds.
pub record Carries (rt : Runtime) (m : DeviceMessageOutbox) (e : Envelope) : Type 0 where
  pub payload : Payload
  pub accepted : Accepts rt.codec e m.stream payload
  pub marshalled : rt.marshal m.payload ≡ ok e.payload
  pub same_message : e.message_id ≡ m.message_id
  pub same_operation : e.operation_id ≡ m.operation_id
  pub same_correlation : e.correlation_id ≡ m.correlation_id
  pub same_type : e.message_type ≡ m.message_type
  pub same_partition : e.partition_key ≡ m.partition_key

module _ {W : Type 0} (env : Surroundings W) (rt : Runtime) (s : Service) where
  abbrev outcomes : Stats → ℕ
  outcomes st = st.published + st.retrying + st.dead_lettered

  publish_all-outcomes :
      (w : W) (st : Stats) (ms : List DeviceMessageOutbox)
      → (outcomes (publish_all env rt s w st ms).0.0 ≤ outcomes st + length ms)
        × ((publish_all env rt s w st ms).0.0.claimed ≡ st.claimed)
  unfolding publish_all
  publish_all-outcomes w st [] = (omega arith, refl)
  publish_all-outcomes w st (m ∷ ms) = elim (Option-cases (env.context_error w)) [
    | inr (e, c) ↦ rw (c, publish_all) (omega arith, refl)
    | inl c ↦
        rw (c, publish_all)
          (proceeds (publish_message env rt s w m) st ms (λ w' st'. publish_all-outcomes w' st' ms))
  ]
    where
      counted :
          (st : Stats) (o : Option DeviceMessageOutboxStatus)
          → (outcomes (count env rt s st o) ≤ outcomes st + 1)
            × ((count env rt s st o).claimed ≡ st.claimed)
      counted st (some DeviceMessageOutboxStatus.published) = (omega arith, refl)
      counted st (some DeviceMessageOutboxStatus.retrying) = (omega arith, refl)
      counted st (some DeviceMessageOutboxStatus.dead_lettered) = (omega arith, refl)
      counted st (some DeviceMessageOutboxStatus.pending) = (omega arith, refl)
      counted st none = (omega arith, refl)

      proceeds :
          (r : Result (Option DeviceMessageOutboxStatus) × W) (st : Stats)
          (ms : List DeviceMessageOutbox)
          → ((w' : W) (st' : Stats)
              → (outcomes (publish_all env rt s w' st' ms).0.0 ≤ outcomes st' + length ms)
                × ((publish_all env rt s w' st' ms).0.0.claimed ≡ st'.claimed))
          → (outcomes (proceed env rt s st r (λ w' st'. publish_all env rt s w' st' ms)).0.0
              ≤ outcomes st + suc (length ms))
            × ((proceed env rt s st r (λ w' st'. publish_all env rt s w' st' ms)).0.0.claimed
                ≡ st.claimed)
      proceeds (err e, w') st ms ih = (omega arith, refl)
      proceeds (ok o, w') st ms ih =
          let (more, same) = ih w' (count env rt s st o) in
          let (one, still) = counted st o in (omega arith, same ∙ still)

  -- The counts of a round's published, retried and dead-lettered messages add up to at most the
  -- number claimed, whatever the surroundings do.
  pub run_once-outcomes :
      (w : W)
      → let st = (run_once env rt s w).0.0 in
        st.published + st.retrying + st.dead_lettered ≤ st.claimed
  unfolding run_once
  run_once-outcomes w = counts (
      env.claim w (current_time env rt s w) (add_time (current_time env rt s w) s.lease_duration)
        s.batch_size)
    where
      counts :
          (r : Result (List DeviceMessageOutbox) × W)
          → let st = (after_claim env rt s r).0.0 in
            st.published + st.retrying + st.dead_lettered ≤ st.claimed
      counts (err e, w') = omega arith
      counts (ok ms, w') =
          omega
            (arith, publish_all-outcomes w' (record (no_stats env rt s) { claimed = length ms }) ms)

module _ {P : Type 0} (d : Deployment P) (rt : Runtime) (s : Service) (db : Db) (p p' : P)
    (m : DeviceMessageOutbox) (operation : DeviceOperation) (envelope : Envelope)
    (has_message : find_row outbox_key m.message_id db.outbox ≡ some m)
    (has_operation : find_row operation_key m.operation_id db.operations ≡ some operation)
    (built : envelope_from_message rt m ≡ ok envelope) where
  abbrev attempts : ℕ
  attempts = m.attempt_count + 1

  abbrev at_time : Time
  at_time = truncate (utc (d.now p))

  recorded :
      (inp : OutboxPublishTransitionInput)
      → ((record_transition (deploy d) rt s (db, p') m inp).0 ≡ ok (some inp.message_status))
        × (find_row outbox_key m.message_id
              (record_transition (deploy d) rt s (db, p') m inp).1.0.outbox
            ≡ some (transition_message m (expecting m inp) m))
  unfolding record_transition expecting transition_message should_apply_outbox_publish_transition
  recorded inp =
      rw
        (
          applied db (expecting m inp) m operation has_message has_operation as_seen,
          record_transition,
        )
        (
          refl,
          ap (find_row outbox_key m.message_id) (
                outbox-settle db m (expecting m inp) (transition_message m (expecting m inp) m)
                  operation)
              ∙ found_after,
        )
    where
      as_seen : should_apply_outbox_publish_transition m (expecting m inp) ≡ true
      as_seen = ground arith

      found_after :
          find_row outbox_key m.message_id
            (update_row outbox_key m.message_id (transition_message m (expecting m inp)) db.outbox)
          ≡ some (transition_message m (expecting m inp) m)
      found_after = ground (
        arith,
        find_row-update_row outbox_key m.message_id m.message_id
            (transition_message m (expecting m inp)) db.outbox (λ r. refl),
        has_message,
        eq_iff m.message_id m.message_id,
      )

  -- The message's row after an attempt that ended in `status` and is to be looked at again at `due`.
  abbrev pub row_after :
      DeviceMessageOutboxStatus → Option String → Time → Option Time → DeviceMessageOutbox
  row_after status error due published_at = record m {
    status = status;
    attempt_count = attempts;
    last_error = error;
    available_at = due;
    published_at = published_at;
  }

  abbrev pub Ends : DeviceMessageOutbox → Type 0
  Ends row =
      ((publish_message (deploy d) rt s (db, p) m).0 ≡ ok (some row.status))
      × (find_row outbox_key m.message_id (publish_message (deploy d) rt s (db, p) m).1.0.outbox
          ≡ some row)

  -- A message whose row is as it was claimed, whose operation exists and for which an envelope is
  -- built is set to published, with one more attempt, when the broker takes it; is set to retrying,
  -- due after the retry delay, when the broker's error is transient and attempts are left; and is
  -- dead-lettered on any other error but a cancelled context.
  pub publish_message_lem :
      ((d.publish p m.stream envelope ≡ (none, p'))
        → Ends (row_after DeviceMessageOutboxStatus.published none at_time (some at_time)))
      × ((e : GoError)
          → d.publish p m.stream envelope ≡ (some e, p')
          → is_canceled e ≡ false
          → is_transient e ≡ true
          → attempts < s.max_attempts
          → Ends (
              row_after DeviceMessageOutboxStatus.retrying
                (some (rt.error_text e))
                (add_time at_time s.retry_delay)
                none))
      × ((e : GoError)
          → d.publish p m.stream envelope ≡ (some e, p')
          → is_canceled e ≡ false
          → (is_transient e ≡ false) ⊎ (s.max_attempts ≤ attempts)
          → Ends (
              row_after DeviceMessageOutboxStatus.dead_lettered
                (some (rt.error_text e))
                at_time
                none))
  unfolding publish_message after_publish transition_message expecting published_transition
      retry_transition dead_letter_transition
  publish_message_lem = (taken, again, dead)
    where
      taken :
          d.publish p m.stream envelope ≡ (none, p')
          → Ends (row_after DeviceMessageOutboxStatus.published none at_time (some at_time))
      taken h =
          let inp = published_transition m attempts at_time in
          let row : transition_message m (expecting m inp) m
              ≡ row_after DeviceMessageOutboxStatus.published none at_time (some at_time) =
            ground arith in
          rw (built, publish_message)
            (rw (h, after_publish) ((recorded inp).0, (recorded inp).1 ∙ ap some row))

      again :
          (e : GoError)
          → d.publish p m.stream envelope ≡ (some e, p')
          → is_canceled e ≡ false
          → is_transient e ≡ true
          → attempts < s.max_attempts
          → Ends (
              row_after DeviceMessageOutboxStatus.retrying
                (some (rt.error_text e))
                (add_time at_time s.retry_delay)
                none)
      again e h c t b =
          let left : (is_transient e && ltb attempts s.max_attempts) ≡ true = ground arith in
          rw (built, publish_message)
            (rw (h, after_publish)
              (rw c (rw left (recorded (retry_transition rt s m attempts at_time e)))))

      dead :
          (e : GoError)
          → d.publish p m.stream envelope ≡ (some e, p')
          → is_canceled e ≡ false
          → (is_transient e ≡ false) ⊎ (s.max_attempts ≤ attempts)
          → Ends (
              row_after DeviceMessageOutboxStatus.dead_lettered
                (some (rt.error_text e))
                at_time
                none)
      dead e h c t =
          let left : (is_transient e && ltb attempts s.max_attempts) ≡ false = ground arith in
          rw (built, publish_message)
            (rw (h, after_publish)
              (rw c (rw left (recorded (dead_letter_transition rt m attempts at_time e)))))
