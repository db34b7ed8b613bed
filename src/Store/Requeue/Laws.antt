-- ===== src/Store/Requeue/Laws.antt =====
-- When a requeue is refused and what it resets.
use rtk_account_manager.Common.{
  String, eq_iff, ◌≡◌, refl, sym, ◌∙◌, ◌≢◌, ◌↔◌, ◌⊎◌, true, false, none, some, [], Time, utc,
  truncate, ok, err, ◌>>◌, refuse_if, conflict, arith,
}
use rtk_account_manager.Model.{
  DeviceOperation, DeviceOperationStatus, DeviceOperationType, unprovision, DeviceMessageOutbox,
  DeviceMessageOutboxStatus, is_final,
}
use rtk_account_manager.Store.Rows.{find_row, find_row-update_row, find_row-key}
use rtk_account_manager.Store.Tables.{Db, operation_key, outbox_key}
use rtk_account_manager.Store.Requeue.{
  is_completed_lifecycle_operation_status, reset_message, reset_operation, requeued,
  requeue_by_status, requeue_outbox_message,
}

module _ (db : Db) (id : String) (available_at : Time) (m : DeviceMessageOutbox)
    (o : DeviceOperation) (has_message : find_row outbox_key id db.outbox ≡ some m)
    (has_operation : find_row operation_key m.operation_id db.operations ≡ some o) where
  dispatched : requeue_outbox_message db id available_at ≡ (
      refuse_if (is_completed_lifecycle_operation_status o.status o.operation_type) conflict
      >> requeue_by_status db (truncate (utc available_at)) m o m.status)
  unfolding requeue_outbox_message
  dispatched = rw (has_message, has_operation, requeue_outbox_message)

  -- Requeuing a message whose row and operation exist is a conflict exactly when the message is
  -- published or its operation has succeeded or failed and is no unprovision operation.
  pub requeue_conflict_iff : (requeue_outbox_message db id available_at ≡ err conflict) ↔ (
      (m.status ≡ DeviceMessageOutboxStatus.published)
      ⊎ ((is_final o.status ≡ true) × (o.operation_type ≢ unprovision)))
  unfolding requeue_by_status is_completed_lifecycle_operation_status
  requeue_conflict_iff = (
    λ c. by_parts m.status o.status o.operation_type (sym dispatched ∙ c),
    λ c. dispatched ∙ refuses m.status o.status o.operation_type c,
  )
    where
      by_parts :
          (t : DeviceMessageOutboxStatus) (u : DeviceOperationStatus) (k : DeviceOperationType)
          → (refuse_if (is_completed_lifecycle_operation_status u k) conflict
              >> requeue_by_status db (truncate (utc available_at)) m o t)
            ≡ err conflict
          → (t ≡ DeviceMessageOutboxStatus.published) ⊎ ((is_final u ≡ true) × (k ≢ unprovision))
      by_parts t u k h = ground arith

      refuses :
          (t : DeviceMessageOutboxStatus) (u : DeviceOperationStatus) (k : DeviceOperationType)
          → (t ≡ DeviceMessageOutboxStatus.published) ⊎ ((is_final u ≡ true) × (k ≢ unprovision))
          → (refuse_if (is_completed_lifecycle_operation_status u k) conflict
              >> requeue_by_status db (truncate (utc available_at)) m o t)
            ≡ err conflict
      refuses t u k h = ground arith

  -- Requeuing a message that waits for a retry or is dead-lettered, whose row and operation exist and
  -- whose operation has not succeeded or failed or is an unprovision operation, succeeds. The
  -- message's row is then pending with no attempts, no error and no time of publication, and due at
  -- the given time; the operation's row is pending, without result, error code, error message,
  -- retry mark and time of completion. Both keep their other columns, and both are returned.
  pub requeue_resets :
      (m.status ≡ DeviceMessageOutboxStatus.retrying)
        ⊎ (m.status ≡ DeviceMessageOutboxStatus.dead_lettered)
      → (is_final o.status ≡ false) ⊎ (o.operation_type ≡ unprovision)
      → let m' = record m {
        status = DeviceMessageOutboxStatus.pending;
        attempt_count = 0;
        last_error = none;
        available_at = truncate (utc available_at);
        published_at = none;
      } in
        let o' = record o {
          status = DeviceOperationStatus.pending;
          result_payload = [];
          error_code = none;
          error_message = none;
          retryable = none;
          completed_at = none;
        } in
        (db' : Db) × (requeue_outbox_message db id available_at ≡ ok ((m', o', true), db'))
        × (find_row outbox_key id db'.outbox ≡ some m')
        × (find_row operation_key o.operation_id db'.operations ≡ some o')
  unfolding requeue_by_status is_completed_lifecycle_operation_status
  requeue_resets waits open_operation = (
    (requeued db (truncate (utc available_at)) m o).1,
    dispatched ∙ ground arith,
    ground (
      arith,
      find_row-update_row outbox_key m.message_id id (reset_message (truncate (utc available_at)))
          db.outbox (λ r. refl),
      find_row-key outbox_key id db.outbox m has_message,
      has_message,
      eq_iff m.message_id id,
    ),
    ground (
      arith,
      find_row-update_row operation_key o.operation_id o.operation_id reset_operation db.operations
          (λ r. refl),
      find_row-key operation_key m.operation_id db.operations o has_operation,
      has_operation,
      eq_iff o.operation_id o.operation_id,
    ),
  )
