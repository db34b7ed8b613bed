-- ===== src/Worker/Inbox/Deliveries.antt =====
-- What a delivery that records an outcome does to the tables.
use rtk_account_manager.Common.{
  ◌≡◌, sym, ap, ◌∙◌, inl, inr, Bool, ◌&&◌, not, Bool-cases, some, ok, err, Result-cases, arith,
}
use rtk_account_manager.Model.{DeviceMessageInbox, DeviceMessageInboxStatus}
use rtk_account_manager.Store.Rows.{find_row, find_row-key}
use rtk_account_manager.Store.Tables.{Db, inbox_key}
use rtk_account_manager.Store.Inbox.Create.{
  DeviceMessageInboxCreateInput, create_or_get_inbox_message,
}
use rtk_account_manager.Store.Inbox.Process.{
  InboxProcessTransitionInput, InboxProcessTransitionResult, processed_row,
  record_inbox_process_transition,
}
use rtk_account_manager.Store.Inbox.Create.Laws.{Created, create_or_get_inbox_message-Created}
use rtk_account_manager.Store.Inbox.Process.Laws.{
  OperationSettled, record_inbox_process_transition_lem,
}
use rtk_account_manager.Worker.Inbox.Transitions.{projection_transition}
use rtk_account_manager.Worker.Inbox.Messages.{
  Message, Settings, Clock, normalized, create_input, choose_transition, choose_for_payload,
  choose_processed, choose_with_operation, record_outcome, with_outcome, after_create,
  process_message, is_settled,
}

-- The transition that is chosen is one for the message's own row.
chosen_message :
    (s : Settings) (db : Db) (clock : Clock) (msg : Message) (m : DeviceMessageInbox)
    → (choose_transition s db clock msg m).message_id ≡ m.message_id
unfolding choose_transition choose_for_payload choose_processed choose_with_operation
    projection_transition
chosen_message s db clock msg m = ground arith

recorded :
    (s : Settings) (db db' : Db) (inp : InboxProcessTransitionInput) (st : DeviceMessageInboxStatus)
    → record_outcome s db inp ≡ (ok (some st), db')
    → (r : InboxProcessTransitionResult) × (record_inbox_process_transition s.encoding db inp
        ≡ ok (r, db'))
      × (inp.message_status ≡ st)
unfolding record_outcome
recorded s db db' inp st h =
    elim (Result-cases (record_inbox_process_transition s.encoding db inp)) [
      | inl ((r, db''), e) ↦
          let h' : with_outcome db inp.message_status (ok (r, db'')) ≡ (ok (some st), db') =
            ap (with_outcome db inp.message_status) (sym e) ∙ h in
          let same : db'' ≡ db' = ground arith in (r, e ∙ ap (λ x. ok (r, x)) same, ground arith)
      | inr (x, e) ↦
          let h' : with_outcome db inp.message_status (err x) ≡ (ok (some st), db') =
            ap (with_outcome db inp.message_status) (sym e) ∙ h in
          absurd (ground arith)
    ]

-- The first delivery: the row that was returned, and the transition that was recorded for it.
first_delivery :
    (s : Settings) (db db' : Db) (clock : Clock) (msg : Message) (st : DeviceMessageInboxStatus)
    → process_message s db clock msg ≡ (ok (some st), db')
    → (m : DeviceMessageInbox) × (created : Bool) × (db1 : Db) × (create_or_get_inbox_message
          s.encoding db clock.inserted
          (normalized db (create_input s clock msg))
        ≡ ok ((m, created), db1))
      × (record_outcome s db1 (choose_transition s db1 clock msg m) ≡ (ok (some st), db'))
unfolding process_message
first_delivery s db db' clock msg st h =
    elim (Result-cases (
      create_or_get_inbox_message s.encoding db clock.inserted
        (normalized db (create_input s clock msg)))) [
          | inr (x, e) ↦
              let h' : after_create s db clock msg (err x) ≡ (ok (some st), db') =
                ap (after_create s db clock msg) (sym e) ∙ h in
              absurd (ground arith)
          | inl (((m, created), db1), e) ↦
              let h' : after_create s db clock msg (ok ((m, created), db1)) ≡ (ok (some st), db') =
                ap (after_create s db clock msg) (sym e) ∙ h in
              (m, created, db1, e, not_skipped m created db1 h')
        ]
  where
    not_skipped :
        (m : DeviceMessageInbox) (created : Bool) (db1 : Db)
        → after_create s db clock msg (ok ((m, created), db1)) ≡ (ok (some st), db')
        → record_outcome s db1 (choose_transition s db1 clock msg m) ≡ (ok (some st), db')
    not_skipped m created db1 h = elim (Bool-cases (not created && is_settled m.status)) [
      | inl e ↦ absurd (ground arith)
      | inr e ↦ ground arith
    ]

-- What a delivery that records an outcome does: the row that the inbox has for the message, the
-- tables in between, and what the chosen transition leaves in the tables.
pub record Delivery (s : Settings) (db db' : Db) (clock : Clock) (msg : Message)
    (st : DeviceMessageInboxStatus) : Type 0 where
  pub row : DeviceMessageInbox
  pub between : Db
  pub created : Created s.encoding db between (normalized db (create_input s clock msg)) row
  pub status : (choose_transition s between clock msg row).message_status ≡ st
  pub row_after :
      find_row inbox_key (normalized db (create_input s clock msg)).message_id db'.inbox
      ≡ some (processed_row (choose_transition s between clock msg row) row)
  pub settles :
      OperationSettled between row.operation_id
        (choose_transition s between clock msg row)
        (choose_transition s between clock msg row).operation_status
        db'

pub process_message-Delivery :
    (s : Settings) (db db' : Db) (clock : Clock) (msg : Message) (st : DeviceMessageInboxStatus)
    → process_message s db clock msg ≡ (ok (some st), db')
    → Delivery s db db' clock msg st
process_message-Delivery s db db' clock msg st h =
    let (m, created, db1, e, r) = first_delivery s db db' clock msg st h in
    let c = create_or_get_inbox_message-Created s.encoding db db1 clock.inserted inp m created e in
    let (result, kept, status) = recorded s db1 db' (choose_transition s db1 clock msg m) st r in
    let t : InboxProcessTransitionInput = choose_transition s db1 clock msg m in
    let own : t.message_id ≡ inp.message_id =
      chosen_message s db1 clock msg m
      ∙ find_row-key inbox_key inp.message_id db1.inbox m c.has_row in
    let (row, settles) =
      record_inbox_process_transition_lem s.encoding db1 db' t result m kept
        (ap (λ k. find_row inbox_key k db1.inbox) own ∙ c.has_row) in
    record {
      row = m;
      between = db1;
      created = c;
      status = status;
      row_after = ap (λ k. find_row inbox_key k db'.inbox) (sym own) ∙ row;
      settles = settles;
    }
  where
    inp : DeviceMessageInboxCreateInput
    inp = normalized db (create_input s clock msg)
