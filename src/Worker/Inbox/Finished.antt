-- ===== src/Worker/Inbox/Finished.antt =====
-- A finished operation under later messages.
use rtk_account_manager.Common.{
  ℕ, eq_iff, ◌≡◌, ap, subst, ◌∙◌, true, Option, none, some, ok, List, if◌then◌else◌, arith,
}
use rtk_account_manager.Model.{DeviceOperation, DeviceMessageInbox, DeviceMessageInboxStatus}
use rtk_account_manager.Store.Rows.{find_row}
use rtk_account_manager.Store.Tables.{Db, operation_key}
use rtk_account_manager.Store.Inbox.Create.{
  Encoding, DeviceMessageInboxCreateInput, is_same_message,
}
use rtk_account_manager.Store.Inbox.Process.{InboxProcessTransitionInput}
use rtk_account_manager.Channel.Text.{is_blank}
use rtk_account_manager.Store.Inbox.Process.Laws.{OperationSettled}
use rtk_account_manager.Worker.Inbox.Transitions.{projection_transition}
use rtk_account_manager.Worker.Inbox.Messages.{
  Message, Settings, Clock, normalized, normalized_for, create_input, choose_transition,
  choose_for_payload, choose_processed, choose_with_operation, is_completed_lifecycle_operation,
  process_message,
}
use rtk_account_manager.Worker.Inbox.Deliveries.{process_message-Delivery}

same_operation_id :
    (enc : Encoding) (m : DeviceMessageInbox) (inp : DeviceMessageInboxCreateInput)
    (payload : List ℕ)
    → is_same_message enc m inp payload ≡ true
    → m.operation_id ≡ inp.operation_id
unfolding is_same_message
same_operation_id enc m inp payload h = ground (arith, eq_iff m.operation_id inp.operation_id)

normalized-operation_id :
    (db : Db) (inp : DeviceMessageInboxCreateInput)
    → (normalized db inp).operation_id ≡ inp.operation_id
unfolding normalized
normalized-operation_id db inp = by_row (find_row operation_key inp.operation_id db.operations)
  where
    by_row :
        (o : Option DeviceOperation)
        → (if is_blank inp.partition_key then normalized_for inp o else inp).operation_id
          ≡ inp.operation_id
    by_row none = ground arith
    by_row (some o) = ground arith

-- No transition that is chosen for a finished operation carries a new status for it.
chosen_for_finished :
    (s : Settings) (db : Db) (clock : Clock) (msg : Message) (m : DeviceMessageInbox)
    (o : DeviceOperation)
    → find_row operation_key m.operation_id db.operations ≡ some o
    → is_completed_lifecycle_operation o ≡ true
    → (choose_transition s db clock msg m).operation_status ≡ none
unfolding choose_transition choose_for_payload choose_processed choose_with_operation
    projection_transition
chosen_for_finished s db clock msg m o found finished = ground (arith, found, finished)

-- A message whose operation has succeeded or failed leaves all operations as they were when its
-- outcome is recorded.
pub finished_operation_kept :
    (s : Settings) (db db' : Db) (clock : Clock) (msg : Message) (st : DeviceMessageInboxStatus)
    (o : DeviceOperation)
    → find_row operation_key msg.envelope.operation_id db.operations ≡ some o
    → is_completed_lifecycle_operation o ≡ true
    → process_message s db clock msg ≡ (ok (some st), db')
    → db'.operations ≡ db.operations
unfolding create_input
finished_operation_kept s db db' clock msg st o found finished h =
    let d = process_message-Delivery s db db' clock msg st h in
    let same : d.row.operation_id ≡ msg.envelope.operation_id =
      same_operation_id s.encoding d.row (normalized db (create_input s clock msg))
        d.created.payload d.created.same
      ∙ normalized-operation_id db (create_input s clock msg) in
    let still : find_row operation_key d.row.operation_id d.between.operations ≡ some o =
      ap (λ k. find_row operation_key k d.between.operations) same
      ∙ ap (find_row operation_key msg.envelope.operation_id) d.created.same_operations
      ∙ found in
    let t : InboxProcessTransitionInput = choose_transition s d.between clock msg d.row in
    let unchanged : db'.operations ≡ d.between.operations =
      subst (λ x. OperationSettled d.between d.row.operation_id t x db')
        (chosen_for_finished s d.between clock msg d.row o still finished) d.settles in
    unchanged ∙ d.created.same_operations
