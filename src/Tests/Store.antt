-- ===== src/Tests/Store.antt =====
-- The store's transactions on the sample tables.
use rtk_account_manager.Common.{
  ℕ, ◌≤◌, ◌≡◌, refl, ap, ◌≢◌, inl, inr, Bool, true, false, none, some, [], ◌∷◌, length, All, utc,
  truncate, ok, err, conflict, arith,
}
use rtk_account_manager.Model.{
  DeviceOperation, DeviceOperationType, DeviceOperationStatus, DeviceMessageOutboxStatus,
  is_waiting, unprovision,
}
use rtk_account_manager.Store.Rows.{find_row}
use rtk_account_manager.Store.Tables.{Db, operation_key, outbox_key}
use rtk_account_manager.Store.Claim.{claim_outbox_messages_ready}
use rtk_account_manager.Store.Claim.Laws.{claim_leases, claim_exclusive}
use rtk_account_manager.Store.Outbox.{
  OutboxPublishTransitionInput, OutboxPublishTransitionResult, is_as_expected,
  record_outbox_publish_transition, transition_operation,
}
use rtk_account_manager.Store.Outbox.Laws.{
  conflict_iff, published_keeps_finished, failure_moves_operation,
}
use rtk_account_manager.Store.Requeue.{requeue_outbox_message}
use rtk_account_manager.Store.Requeue.Laws.{requeue_conflict_iff, requeue_resets}
use rtk_account_manager.Tests.Samples.{after, operation, message, late, finished, db, finished_db}

claim_leases_example :
    let claimed = (claim_outbox_messages_ready db (after 10) (after 40) 20).0 in
    (length claimed ≤ 20)
    × All (λ m. (is_waiting m.status ≡ true) × (m.available_at ≡ after 40)) claimed
claim_leases_example = claim_leases db (after 10) (after 40) 20

claim_exclusive_example :
    let (claimed, db') = claim_outbox_messages_ready db (after 10) (after 40) 20 in
    All
      (λ m. All (λ m'. m.message_id ≢ m'.message_id) claimed)
      (claim_outbox_messages_ready db' (after 20) (after 50) 20).0
claim_exclusive_example =
    claim_exclusive db (after 10) (after 40) (after 20) (after 50) 20 20 (omega arith)

-- What a worker that has claimed `message` records.
abbrev transition :
    DeviceMessageOutboxStatus → DeviceOperationStatus → ℕ → OutboxPublishTransitionInput
transition status operation_status expected = record {
  message_id = "m-1";
  expected_message_status = DeviceMessageOutboxStatus.pending;
  expected_attempt_count = expected;
  expected_available_at = after 0;
  message_status = status;
  attempt_count = 1;
  last_error = none;
  available_at = after 30;
  published_at = none;
  operation_status = operation_status;
  operation_error_code = none;
  operation_error_message = none;
  operation_retryable = none;
  operation_completed_at = none;
}

abbrev publication : OutboxPublishTransitionInput
publication = transition DeviceMessageOutboxStatus.published DeviceOperationStatus.published 0

abbrev retry : OutboxPublishTransitionInput
retry = transition DeviceMessageOutboxStatus.retrying DeviceOperationStatus.retrying 0

abbrev outdated_retry : OutboxPublishTransitionInput
outdated_retry = transition DeviceMessageOutboxStatus.retrying DeviceOperationStatus.retrying 7

conflict_iff_example : record_outbox_publish_transition db outdated_retry ≡ err conflict
unfolding find_row is_as_expected
conflict_iff_example =
    (conflict_iff db outdated_retry message operation refl refl).1 (refl, inl refl)

published_keeps_finished_example :
    (r : OutboxPublishTransitionResult) × (db' : Db) × (record_outbox_publish_transition finished_db
        publication
      ≡ ok (r, db'))
    × (find_row outbox_key "m-1" db'.outbox ≡ some r.message)
    × (r.message.status ≡ DeviceMessageOutboxStatus.published)
    × (r.message.published_at ≡ none)
    × (r.message.last_error ≡ none)
    × (r.message.available_at ≡ after 30)
    × (0 ≤ r.message.attempt_count)
    × (r.operation ≡ finished)
    × (db'.operations ≡ finished_db.operations)
unfolding find_row
published_keeps_finished_example =
    published_keeps_finished finished_db publication message finished refl refl refl refl refl

failure_moves_operation_example :
    (r : OutboxPublishTransitionResult) × (db' : Db) × (record_outbox_publish_transition finished_db
        retry
      ≡ ok (r, db'))
    × (find_row operation_key "op-1" db'.operations ≡ some (transition_operation retry finished))
    × (r.operation.status ≡ DeviceOperationStatus.retrying)
unfolding find_row is_as_expected
failure_moves_operation_example =
    failure_moves_operation finished_db retry message finished refl refl refl refl

abbrev is_unprovision : DeviceOperationType → Bool
is_unprovision unprovision = true
is_unprovision _ = false

requeue_conflict_iff_example : requeue_outbox_message finished_db "m-2" (after 90) ≡ err conflict
unfolding find_row
requeue_conflict_iff_example =
    (requeue_conflict_iff finished_db "m-2" (after 90) late finished refl refl).1
      (inr (refl, λ e. cc (ap is_unprovision e)))

-- An unprovision operation that has succeeded.
abbrev gone : DeviceOperation
gone = record finished { operation_type = unprovision }

abbrev gone_db : Db
gone_db = record db { operations = gone ∷ [] }

requeue_resets_example :
    let late' = record late {
      status = DeviceMessageOutboxStatus.pending;
      attempt_count = 0;
      last_error = none;
      available_at = truncate (utc (after 90));
      published_at = none;
    } in
    let gone' = record gone {
      status = DeviceOperationStatus.pending;
      result_payload = [];
      error_code = none;
      error_message = none;
      retryable = none;
      completed_at = none;
    } in
    (db' : Db) × (requeue_outbox_message gone_db "m-2" (after 90) ≡ ok ((late', gone', true), db'))
    × (find_row outbox_key "m-2" db'.outbox ≡ some late')
    × (find_row operation_key "op-1" db'.operations ≡ some gone')
unfolding find_row
requeue_resets_example =
    requeue_resets gone_db "m-2" (after 90) late gone refl refl (inl refl) (inr refl)
