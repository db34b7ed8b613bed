-- ===== src/Store/Inbox/Process/Laws.antt =====
-- What the record of an outcome leaves in the tables.
use rtk_account_manager.Common.{
  String, str_eq, eq_iff, ◌≡◌, refl, sym, ap, ◌∙◌, true, not, Option, none, some, if◌then◌else◌, ok,
  refuse_if, >>=-eq-ok, >>-eq-ok, refuse_if-eq-ok, conflict, arith,
}
use mathlib.Core.Option
use rtk_account_manager.Model.{DeviceOperation, DeviceOperationStatus, DeviceMessageInbox, Device}
use rtk_account_manager.Store.Rows.{find_row, update_row, find_row-update_row}
use rtk_account_manager.Store.Tables.{Db, operation_key, inbox_key, or_not_found}
use rtk_account_manager.Store.Projection.{
  DeviceProjectionInput, project_device, write_device, decide_projection, find_device, or_missing,
}
use rtk_account_manager.Store.Inbox.Create.{Encoding}
use rtk_account_manager.Store.Inbox.Process.{
  InboxProcessTransitionInput, InboxProcessTransitionResult, processed_row, completed_row,
  is_of_device, process_operation, process_device, record_inbox_process_transition,
}

-- Two states in which each operation belongs to the same device.
abbrev pub device_of : String → Db → Option String
device_of id db =
    Option.map (λ (o : DeviceOperation). o.device_id) (find_row operation_key id db.operations)

or_not_found-eq-ok : {A : Type 0} (o : Option A) {a : A} → or_not_found o ≡ ok a → o ≡ some a
or_not_found-eq-ok none h = cc
or_not_found-eq-ok (some a) h = cc

write_device-keeps :
    (db : Db) (org_id device_id : String) (d : Device) (change : Option Device)
    → ((write_device db org_id device_id d change).1.inbox ≡ db.inbox)
      × ((write_device db org_id device_id d change).1.operations ≡ db.operations)
write_device-keeps db org_id device_id d none = (refl, refl)
write_device-keeps db org_id device_id d (some new) = (refl, refl)

project_device-keeps :
    (db db' : Db) (org_id device_id : String) (p : DeviceProjectionInput) (d : Device)
    → project_device db org_id device_id p ≡ ok (d, db')
    → (db'.inbox ≡ db.inbox) × (db'.operations ≡ db.operations)
unfolding project_device
project_device-keeps db db' org_id device_id p d h =
    let (found, _, r) = >>=-eq-ok (or_missing (find_device org_id device_id db.devices)) _ h in
    let (change, _, r') = >>=-eq-ok (decide_projection found p) _ r in
    let (same_inbox, same_operations) = write_device-keeps db org_id device_id found change in
    let made : (write_device db org_id device_id found change).1 ≡ db' = cc r' in
    (
      sym (ap (λ (x : Db). x.inbox) made) ∙ same_inbox,
      sym (ap (λ (x : Db). x.operations) made) ∙ same_operations,
    )

process_device-keeps :
    (db db' : Db) (inp : InboxProcessTransitionInput) (p : Option DeviceProjectionInput)
    (d : Option Device)
    → process_device db inp p ≡ ok (d, db')
    → (db'.inbox ≡ db.inbox) × (db'.operations ≡ db.operations)
unfolding process_device
process_device-keeps db db' inp none d h = (ground arith, ground arith)
process_device-keeps db db' inp (some p) d h =
    let ((d', db''), h', r) =
      >>=-eq-ok (project_device db inp.organization_id inp.device_id p) _ h in
    let (i, o) = project_device-keeps db db'' inp.organization_id inp.device_id p d' h' in
    let same : db'' ≡ db' = cc r in
    (sym (ap (λ (x : Db). x.inbox) same) ∙ i, sym (ap (λ (x : Db). x.operations) same) ∙ o)

abbrev pub OperationSettled :
    Db → String → InboxProcessTransitionInput → Option DeviceOperationStatus → Db → Type 0
OperationSettled db operation_id inp none db' = db'.operations ≡ db.operations
OperationSettled db operation_id inp (some status) db' =
    (o : DeviceOperation) × (find_row operation_key operation_id db.operations ≡ some o)
    × (is_of_device inp o ≡ true)
    × (db'.operations
        ≡ update_row operation_key operation_id (completed_row inp status) db.operations)

process_operation-settles :
    (enc : Encoding) (db db' : Db) (operation_id : String) (inp : InboxProcessTransitionInput)
    (status : Option DeviceOperationStatus) (r : Option DeviceOperation)
    → process_operation enc db operation_id inp status ≡ ok (r, db')
    → (db'.inbox ≡ db.inbox) × OperationSettled db operation_id inp status db'
unfolding process_operation
process_operation-settles enc db db' operation_id inp none r h = (ground arith, ground arith)
process_operation-settles enc db db' operation_id inp (some status) r h =
    let (payload, _, r1) = >>=-eq-ok (enc.marshal inp.operation_result) _ h in
    let (o, found, r2) =
      >>=-eq-ok (or_not_found (find_row operation_key operation_id db.operations)) _ r1 in
    let (owned, r3) = >>-eq-ok (refuse_if (not (is_of_device inp o)) conflict) _ r2 in
    (
      ground arith,
      (o, or_not_found-eq-ok _ found, ground (arith, refuse_if-eq-ok _ _ owned), ground arith),
    )

-- What the record of an outcome leaves in the tables: the message's row with the outcome, and the
-- operation as the transition asks for.
pub record_inbox_process_transition_lem :
    (enc : Encoding) (db db' : Db) (inp : InboxProcessTransitionInput)
    (r : InboxProcessTransitionResult) (m : DeviceMessageInbox)
    → record_inbox_process_transition enc db inp ≡ ok (r, db')
    → find_row inbox_key inp.message_id db.inbox ≡ some m
    → (find_row inbox_key inp.message_id db'.inbox ≡ some (processed_row inp m))
      × OperationSettled db m.operation_id inp inp.operation_status db'
unfolding record_inbox_process_transition
record_inbox_process_transition_lem enc db db' inp r m h has =
    let (current, found, r1) =
      >>=-eq-ok (or_not_found (find_row inbox_key inp.message_id db.inbox)) _ h in
    let as_m : current ≡ m = ground (arith, or_not_found-eq-ok _ found, has) in
    let ((o, settled), h2, r2) =
      >>=-eq-ok (process_operation enc updated current.operation_id inp inp.operation_status) _
        r1 in
    let ((d, projected), h3, r3) = >>=-eq-ok (process_device settled inp inp.projection) _ r2 in
    let (i, ops) =
      process_operation-settles enc updated settled current.operation_id inp inp.operation_status o
        h2 in
    let (i', ops') = process_device-keeps settled projected inp inp.projection d h3 in
    let last : projected ≡ db' = cc r3 in
    let same_inbox : db'.inbox ≡ update_row inbox_key inp.message_id (processed_row inp) db.inbox =
      sym (ap (λ (x : Db). x.inbox) last) ∙ i' ∙ i in
    let same_operations : db'.operations ≡ settled.operations =
      sym (ap (λ (x : Db). x.operations) last) ∙ ops' in
    (
      ap (find_row inbox_key inp.message_id) same_inbox ∙ updated_row,
      settles current settled inp.operation_status as_m same_operations ops,
    )
  where
    updated : Db
    updated = record db { inbox = update_row inbox_key inp.message_id (processed_row inp) db.inbox }

    updated_row :
        find_row inbox_key inp.message_id
          (update_row inbox_key inp.message_id (processed_row inp) db.inbox)
        ≡ some (processed_row inp m)
    updated_row = ground (
      arith,
      find_row-update_row inbox_key inp.message_id inp.message_id (processed_row inp) db.inbox
          (λ x. refl),
      has,
      eq_iff inp.message_id inp.message_id,
    )

    settles :
        (current : DeviceMessageInbox) (settled : Db) (status : Option DeviceOperationStatus)
        → current ≡ m
        → db'.operations ≡ settled.operations
        → OperationSettled updated current.operation_id inp status settled
        → OperationSettled db m.operation_id inp status db'
    settles current settled none same ops h = ops ∙ h
    settles current settled (some status) same ops (o, found, owned, h) = (
      o,
      sym (
            ap (λ (x : DeviceMessageInbox). find_row operation_key x.operation_id db.operations)
              same)
          ∙ found,
      owned,
      ops
          ∙ h
          ∙ ap
              (λ (x : DeviceMessageInbox).
                update_row operation_key x.operation_id (completed_row inp status) db.operations)
              same,
    )

-- No transition moves an operation to another device.
pub device_of-settled :
    (db db' : Db) (operation_id id : String) (inp : InboxProcessTransitionInput)
    (status : Option DeviceOperationStatus)
    → OperationSettled db operation_id inp status db'
    → device_of id db' ≡ device_of id db
device_of-settled db db' operation_id id inp none h =
    ap (λ rows. Option.map (λ (o : DeviceOperation). o.device_id) (find_row operation_key id rows))
      h
device_of-settled db db' operation_id id inp (some status) (o, found, owned, h) =
    ap (λ rows. Option.map (λ (o : DeviceOperation). o.device_id) (find_row operation_key id rows))
      h
    ∙ after (find_row operation_key id db.operations) (
        find_row-update_row operation_key operation_id id (completed_row inp status) db.operations
          (λ x. refl))
  where
    after :
        (row : Option DeviceOperation)
        → find_row operation_key id
            (update_row operation_key operation_id (completed_row inp status) db.operations)
          ≡ (if str_eq operation_id id then Option.map (completed_row inp status) row else row)
        → Option.map
            (λ (o : DeviceOperation). o.device_id)
            (find_row operation_key id
              (update_row operation_key operation_id (completed_row inp status) db.operations))
          ≡ Option.map (λ (o : DeviceOperation). o.device_id) row
    after none e = ground (arith, e)
    after (some x) e = ground (arith, e)
