-- ===== src/Store/Outbox/Laws.antt =====
-- What RecordOutboxPublishTransition does to the tables.
use rtk_account_manager.Common.{
  eq_iff, ◌≤◌, ◌≡◌, refl, ◌∙◌, ◌↔◌, ◌⊎◌, inl, inr, true, false, Bool-cases, some, Result, ok, err,
  conflict, arith,
}
use rtk_account_manager.Model.{
  DeviceOperation, DeviceMessageOutbox, DeviceMessageOutboxStatus, is_published, is_final,
}
use rtk_account_manager.Store.Rows.{find_row, update_row, find_row-update_row, find_row-key}
use rtk_account_manager.Store.Tables.{Db, operation_key, outbox_key}
use rtk_account_manager.Store.Outbox.{
  OutboxPublishTransitionInput, OutboxPublishTransitionResult, is_as_expected,
  should_apply_outbox_publish_transition, transition_message, transition_operation, moves_operation,
  recorded_attempts, settle, record_outbox_publish_transition,
}

pub outbox-settle :
    (db : Db) (current : DeviceMessageOutbox) (inp : OutboxPublishTransitionInput)
    (message : DeviceMessageOutbox) (operation : DeviceOperation)
    → (settle db current inp message operation).1.outbox
      ≡ update_row outbox_key inp.message_id (transition_message current inp) db.outbox
outbox-settle db current inp message operation =
    elim (Bool-cases (moves_operation current inp operation)) [ inl e ↦ rw e | inr e ↦ rw e ]

module _ (db : Db) (inp : OutboxPublishTransitionInput) (current : DeviceMessageOutbox)
    (operation : DeviceOperation)
    (has_message : find_row outbox_key inp.message_id db.outbox ≡ some current)
    (has_operation : find_row operation_key current.operation_id db.operations
      ≡ some operation) where
  pub applied :
      should_apply_outbox_publish_transition current inp ≡ true
      → record_outbox_publish_transition db inp
        ≡ ok (settle db current inp (transition_message current inp current) operation)
  unfolding record_outbox_publish_transition transition_message moves_operation
  applied h = rw (has_message, h, has_operation)

  refused :
      should_apply_outbox_publish_transition current inp ≡ false
      → record_outbox_publish_transition db inp ≡ err conflict
  unfolding record_outbox_publish_transition
  refused h = rw (has_message, h)

  kept :
      moves_operation current inp operation ≡ false
      → ◌≡◌ {A = Result (OutboxPublishTransitionResult × Db)}
          (ok (settle db current inp (transition_message current inp current) operation))
          (ok (
            record { message = transition_message current inp current; operation = operation },
            record db {
              outbox =
                  update_row outbox_key inp.message_id (transition_message current inp) db.outbox;
            },
          ))
  kept h = rw h

  moved :
      moves_operation current inp operation ≡ true
      → ◌≡◌ {A = Result (OutboxPublishTransitionResult × Db)}
          (ok (settle db current inp (transition_message current inp current) operation))
          (ok (
            record {
              message = transition_message current inp current;
              operation = transition_operation inp operation;
            },
            record db {
              outbox =
                  update_row outbox_key inp.message_id (transition_message current inp) db.outbox;
              operations =
                  update_row operation_key
                    (transition_message current inp current).operation_id
                    (transition_operation inp)
                    db.operations;
            },
          ))
  moved h = rw h

  found_after :
      find_row operation_key operation.operation_id
        (update_row operation_key current.operation_id (transition_operation inp) db.operations)
      ≡ some (transition_operation inp operation)
  unfolding transition_operation
  found_after = ground (
    arith,
    find_row-update_row operation_key current.operation_id operation.operation_id
        (transition_operation inp) db.operations (λ r. refl),
    find_row-key operation_key current.operation_id db.operations operation has_operation,
    eq_iff current.operation_id operation.operation_id,
  )

  -- For a message whose row and operation exist, the transition is refused with a conflict, and so
  -- changes nothing, exactly when the row is not as the worker saw it and the outcome is not a
  -- publication of a message that is not yet published.
  pub conflict_iff : (record_outbox_publish_transition db inp ≡ err conflict) ↔ (
      (is_as_expected current inp ≡ false)
      × ((is_published inp.message_status ≡ false) ⊎ (is_published current.status ≡ true)))
  unfolding should_apply_outbox_publish_transition
  conflict_iff = elim (Bool-cases (should_apply_outbox_publish_transition current inp)) [
    | inl h ↦ (λ c. absurd (ground (arith, applied h)), λ c. absurd (ground arith))
    | inr h ↦ (λ c. ground arith, λ c. refused h)
  ]

  found_message :
      find_row outbox_key inp.message_id
        (update_row outbox_key inp.message_id (transition_message current inp) db.outbox)
      ≡ some (transition_message current inp current)
  unfolding transition_message
  found_message = ground (
    arith,
    find_row-update_row outbox_key inp.message_id inp.message_id (transition_message current inp)
        db.outbox (λ r. refl),
    has_message,
    eq_iff inp.message_id inp.message_id,
  )

  -- For a message whose row exists and is not published, and whose operation has succeeded or failed,
  -- recording a publication succeeds, sets the message's row to published with the recorded time of
  -- publication, error, due time and at least the attempts of the row before, and leaves every
  -- operation as it was.
  pub published_keeps_finished :
      is_published inp.message_status ≡ true
      → is_published current.status ≡ false
      → is_final operation.status ≡ true
      → (r : OutboxPublishTransitionResult) × (db' : Db) × (record_outbox_publish_transition db inp
          ≡ ok (r, db'))
        × (find_row outbox_key inp.message_id db'.outbox ≡ some r.message)
        × (r.message.status ≡ DeviceMessageOutboxStatus.published)
        × (r.message.published_at ≡ inp.published_at)
        × (r.message.last_error ≡ inp.last_error)
        × (r.message.available_at ≡ inp.available_at)
        × (current.attempt_count ≤ r.message.attempt_count)
        × (r.operation ≡ operation)
        × (db'.operations ≡ db.operations)
  unfolding should_apply_outbox_publish_transition moves_operation transition_message
      recorded_attempts
  published_keeps_finished p c f = (
    record { message = transition_message current inp current; operation = operation },
    record db {
      outbox = update_row outbox_key inp.message_id (transition_message current inp) db.outbox;
    },
    applied (ground arith) ∙ kept (ground arith),
    found_message,
    ground arith,
    refl,
    refl,
    refl,
    ground arith,
    refl,
    refl,
  )

  -- For a message whose row and operation exist, an outcome other than a publication that is recorded
  -- while the row is as the worker saw it succeeds and overwrites the operation, whatever its status
  -- is, so also one that has succeeded or failed.
  pub failure_moves_operation :
      is_published inp.message_status ≡ false
      → is_as_expected current inp ≡ true
      → (r : OutboxPublishTransitionResult) × (db' : Db) × (record_outbox_publish_transition db inp
          ≡ ok (r, db'))
        × (find_row operation_key operation.operation_id db'.operations
            ≡ some (transition_operation inp operation))
        × (r.operation.status ≡ inp.operation_status)
  unfolding should_apply_outbox_publish_transition moves_operation transition_message
      transition_operation
  failure_moves_operation p e = (
    record {
      message = transition_message current inp current;
      operation = transition_operation inp operation;
    },
    record db {
      outbox = update_row outbox_key inp.message_id (transition_message current inp) db.outbox;
      operations =
          update_row operation_key current.operation_id (transition_operation inp) db.operations;
    },
    applied (ground arith) ∙ moved (ground arith),
    found_after,
    refl,
  )
