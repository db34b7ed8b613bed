-- ===== src/Worker/Inbox/Laws.antt =====
-- What becomes of a message that is delivered again, or that the inbox table does not take.
use rtk_account_manager.Common.{
  ℕ, eq_iff, ◌≡◌, ◌≢◌, refl, ap, ◌∙◌, ◌⊎◌, inl, inr, Bool, true, false, Bool-cases, Option, none,
  some, List, if◌then◌else◌, ok, err, Result-cases, GoError, Time, arith,
}
use mathlib.Core.Option
use rtk_account_manager.Channel.Text.{is_blank}
use rtk_account_manager.Channel.Fields.{contains}
use rtk_account_manager.Model.{DeviceOperation, DeviceMessageInbox, DeviceMessageInboxStatus}
use rtk_account_manager.Store.Rows.{find_row}
use rtk_account_manager.Store.Tables.{Db, operation_key, inbox_key}
use rtk_account_manager.Store.Inbox.Create.{
  Encoding, DeviceMessageInboxCreateInput, is_storable, is_same_message,
  create_or_get_inbox_message, event_types, check_violation,
}
use rtk_account_manager.Store.Inbox.Process.{InboxProcessTransitionInput, processed_row}
use rtk_account_manager.Store.Inbox.Create.Laws.{create_or_get_existing}
use rtk_account_manager.Store.Inbox.Process.Laws.{device_of, device_of-settled}
use rtk_account_manager.Worker.Inbox.Messages.{
  Message, Settings, Clock, normalized, normalized_for, create_input, choose_transition,
  after_create, process_message, is_settled,
}
use rtk_account_manager.Worker.Inbox.Deliveries.{process_message-Delivery}

-- The envelope's normalised form depends on the tables only by the operation's device.
normalized-device_of :
    (db db' : Db) (inp : DeviceMessageInboxCreateInput)
    → device_of inp.operation_id db' ≡ device_of inp.operation_id db
    → normalized db' inp ≡ normalized db inp
unfolding normalized
normalized-device_of db db' inp h =
    by_rows (find_row operation_key inp.operation_id db'.operations)
      (find_row operation_key inp.operation_id db.operations) h
  where
    by_rows :
        (a b : Option DeviceOperation)
        → Option.map (λ (o : DeviceOperation). o.device_id) a
          ≡ Option.map (λ (o : DeviceOperation). o.device_id) b
        → (if is_blank inp.partition_key then normalized_for inp a else inp)
          ≡ (if is_blank inp.partition_key then normalized_for inp b else inp)
    by_rows none none h = refl
    by_rows none (some b) h = absurd (ground arith)
    by_rows (some a) none h = absurd (ground arith)
    by_rows (some a) (some b) h =
        let same : a.device_id ≡ b.device_id = ground arith in ground (arith, same)

normalized-received_at :
    (db : Db) (inp : DeviceMessageInboxCreateInput) (t : Time)
    → normalized db (record inp { received_at = t })
      ≡ record (normalized db inp) { received_at = t }
unfolding normalized
normalized-received_at db inp t = elim (Bool-cases (is_blank inp.partition_key)) [
  | inr b ↦ rw b refl
  | inl b ↦ rw b (by_row (find_row operation_key inp.operation_id db.operations))
]
  where
    by_row :
        (o : Option DeviceOperation)
        → normalized_for (record inp { received_at = t }) o
          ≡ record (normalized_for inp o) { received_at = t }
    by_row none = refl
    by_row (some o) = refl

again_skipped :
    (s : Settings) (db : Db) (clock : Clock) (msg : Message) (m : DeviceMessageInbox)
    → is_settled m.status ≡ true
    → create_or_get_inbox_message s.encoding db clock.inserted
        (normalized db (create_input s clock msg))
      ≡ ok ((m, false), db)
    → process_message s db clock msg ≡ (ok none, db)
unfolding process_message
again_skipped s db clock msg m settled e = ap (after_create s db clock msg) e ∙ rw settled refl

-- The same message but for the time at which it is received.
same_but_received :
    (enc : Encoding) (db : Db) (inserted : Time) (inp : DeviceMessageInboxCreateInput) (t : Time)
    (m : DeviceMessageInbox) (change : InboxProcessTransitionInput) (payload : List ℕ)
    → enc.marshal inp.payload ≡ ok payload
    → is_storable inp ≡ true
    → is_same_message enc m inp payload ≡ true
    → find_row inbox_key inp.message_id db.inbox ≡ some (processed_row change m)
    → create_or_get_inbox_message enc db inserted (record inp { received_at = t })
      ≡ ok ((processed_row change m, false), db)
unfolding is_storable is_same_message
same_but_received enc db inserted inp t m change payload e stored same found =
    create_or_get_existing enc db inserted (record inp { received_at = t }) (processed_row change m)
      payload e stored same found

-- When a delivery of a message has ended with it processed or dead-lettered, a second delivery on
-- the tables that this left is skipped and changes nothing, whatever the clock says.
pub redelivery_skips :
    (s : Settings) (db db' : Db) (clock clock' : Clock) (msg : Message)
    (st : DeviceMessageInboxStatus)
    → process_message s db clock msg ≡ (ok (some st), db')
    → is_settled st ≡ true
    → process_message s db' clock' msg ≡ (ok none, db')
unfolding create_input
redelivery_skips s db db' clock clock' msg st h settled =
    let d = process_message-Delivery s db db' clock msg st h in
    let t : InboxProcessTransitionInput = choose_transition s d.between clock msg d.row in
    let devices : device_of msg.envelope.operation_id db' ≡ device_of msg.envelope.operation_id db =
      device_of-settled d.between db' d.row.operation_id msg.envelope.operation_id t
        t.operation_status d.settles
      ∙ ap
          (λ rows.
            Option.map (λ (o : DeviceOperation). o.device_id)
              (find_row operation_key msg.envelope.operation_id rows))
          d.created.same_operations in
    let normal : normalized db' (create_input s clock' msg)
        ≡ record inp { received_at = received } =
      normalized-device_of db db' (create_input s clock' msg) devices
      ∙ normalized-received_at db (create_input s clock msg) received in
    again_skipped s db' clock' msg (processed_row t d.row) (ap is_settled d.status ∙ settled) (
      ap (create_or_get_inbox_message s.encoding db' clock'.inserted) normal
      ∙ same_but_received s.encoding db' clock'.inserted inp received d.row t d.created.payload
          d.created.marshalled d.created.storable d.created.same d.row_after)
  where
    inp : DeviceMessageInboxCreateInput
    inp = normalized db (create_input s clock msg)

    received : Time
    received = (create_input s clock' msg).received_at

-- The message has a stream, a schema version or a type that the inbox table does not take.
abbrev pub IsForeign : Message → Type 0
IsForeign msg =
    (msg.stream ≢ "video.account.events")
    ⊎ (msg.envelope.schema_version ≢ "1.0")
    ⊎ (contains event_types msg.envelope.message_type ≡ false)

foreign_unstorable :
    (s : Settings) (db : Db) (clock : Clock) (msg : Message)
    → IsForeign msg
    → is_storable (normalized db (create_input s clock msg)) ≡ false
unfolding is_storable normalized create_input
foreign_unstorable s db clock msg foreign =
    by_row (is_blank msg.envelope.partition_key)
      (find_row operation_key msg.envelope.operation_id db.operations)
  where
    by_row :
        (b : Bool) (o : Option DeviceOperation)
        → is_storable
            (if b then normalized_for (create_input s clock msg) o else create_input s clock msg)
          ≡ false
    by_row true none = ground (
      arith,
      eq_iff msg.stream "video.account.events",
      eq_iff msg.envelope.schema_version "1.0",
      foreign,
    )
    by_row true (some o) = ground (
      arith,
      eq_iff msg.stream "video.account.events",
      eq_iff msg.envelope.schema_version "1.0",
      foreign,
    )
    by_row false o = ground (
      arith,
      eq_iff msg.stream "video.account.events",
      eq_iff msg.envelope.schema_version "1.0",
      foreign,
    )

unstorable_refused :
    (enc : Encoding) (db : Db) (inserted : Time) (inp : DeviceMessageInboxCreateInput)
    → is_storable inp ≡ false
    → (e : GoError) × (create_or_get_inbox_message enc db inserted inp ≡ err e)
unfolding create_or_get_inbox_message
unstorable_refused enc db inserted inp h = elim (Result-cases (enc.marshal inp.payload)) [
  | inl (payload, e) ↦ (check_violation, rw (e, h) refl)
  | inr (x, e) ↦ (x, rw e refl)
]

-- A message whose stream, schema version or type is none that the inbox table takes is not
-- dead-lettered: its row is refused, so processMessage fails on every delivery and changes nothing.
pub foreign_message_fails :
    (s : Settings) (db : Db) (clock : Clock) (msg : Message)
    → IsForeign msg
    → (e : GoError) × (process_message s db clock msg ≡ (err e, db))
unfolding process_message
foreign_message_fails s db clock msg foreign =
    let (e, refused) =
      unstorable_refused s.encoding db clock.inserted (normalized db (create_input s clock msg))
        (foreign_unstorable s db clock msg foreign) in
    (e, ap (after_create s db clock msg) refused)
