-- ===== src/Store/Inbox/Create/Laws.antt =====
-- When CreateOrGetInboxMessage returns a row, and which.
use rtk_account_manager.Common.{
  ℕ, String, eq_iff, ◌≡◌, refl, sym, ap, ◌∙◌, Bool, true, false, not, Option, none, some, List, [],
  ◌∷◌, Time, ok, refuse_if, >>=-eq-ok, >>-eq-ok, refuse_if-eq-ok, conflict, arith,
}
use rtk_account_manager.Channel.Text.{same_codes}
use rtk_account_manager.Model.{DeviceMessageInbox}
use rtk_account_manager.Store.Rows.{find_row}
use rtk_account_manager.Store.Tables.{Db, inbox_key}
use rtk_account_manager.Store.Inbox.Create.{
  Encoding, DeviceMessageInboxCreateInput, is_storable, same_string_ptr, same_inbox_payload,
  is_same_message, insert_or_compare, create_or_get_inbox_message, new_row, check_violation,
}

pub same_codes_refl : (cs : List ℕ) → same_codes cs cs ≡ true
unfolding same_codes
same_codes_refl [] = refl
same_codes_refl (c ∷ cs) = ground (arith, same_codes_refl cs)

same_string_ptr_refl : (o : Option String) → same_string_ptr o o ≡ true
same_string_ptr_refl none = refl
same_string_ptr_refl (some s) = (eq_iff s s).1 refl

-- What CreateOrGetInboxMessage has made sure of when it returns a row.
pub record Created (enc : Encoding) (db db' : Db) (inp : DeviceMessageInboxCreateInput)
    (m : DeviceMessageInbox) : Type 0 where
  pub payload : List ℕ
  pub marshalled : enc.marshal inp.payload ≡ ok payload
  pub storable : is_storable inp ≡ true
  pub same : is_same_message enc m inp payload ≡ true
  pub has_row : find_row inbox_key inp.message_id db'.inbox ≡ some m
  pub same_operations : db'.operations ≡ db.operations

new_row-same :
    (enc : Encoding) (inp : DeviceMessageInboxCreateInput) (created_at : Time) (payload : List ℕ)
    → enc.marshal inp.payload ≡ ok payload
    → is_same_message enc (new_row created_at inp) inp payload ≡ true
unfolding is_same_message same_inbox_payload
new_row-same enc inp created_at payload h = rw h (
    ground (
      arith,
      same_codes_refl payload,
      same_string_ptr_refl inp.causation_id,
      eq_iff inp.operation_id inp.operation_id,
      eq_iff inp.correlation_id inp.correlation_id,
      eq_iff inp.stream inp.stream,
      eq_iff inp.message_type inp.message_type,
      eq_iff inp.schema_version inp.schema_version,
      eq_iff inp.partition_key inp.partition_key,
    ))

not-false : (b : Bool) → not b ≡ false → b ≡ true
not-false true h = refl
not-false false h = cc

find_row-first :
    (m : DeviceMessageInbox) (rows : List DeviceMessageInbox)
    → find_row inbox_key m.message_id (m ∷ rows) ≡ some m
unfolding find_row
find_row-first m rows = ground (arith, eq_iff m.message_id m.message_id)

insert_or_compare_lem :
    (enc : Encoding) (db db' : Db) (created_at : Time) (inp : DeviceMessageInboxCreateInput)
    (m : DeviceMessageInbox) (created : Bool) (payload : List ℕ) (row : Option DeviceMessageInbox)
    → enc.marshal inp.payload ≡ ok payload
    → find_row inbox_key inp.message_id db.inbox ≡ row
    → insert_or_compare enc db created_at inp payload row ≡ ok ((m, created), db')
    → (is_same_message enc m inp payload ≡ true)
      × (find_row inbox_key inp.message_id db'.inbox ≡ some m)
      × (db'.operations ≡ db.operations)
unfolding insert_or_compare
insert_or_compare_lem enc db db' created_at inp m created payload none e found h =
    let same : new_row created_at inp ≡ m = ground arith in
    let grown : db'.inbox ≡ new_row created_at inp ∷ db.inbox = ground arith in
    (
      ap (λ (x : DeviceMessageInbox). is_same_message enc x inp payload) (sym same)
          ∙ new_row-same enc inp created_at payload e,
      ap (find_row inbox_key inp.message_id) grown
          ∙ find_row-first (new_row created_at inp) db.inbox
          ∙ ap some same,
      ground arith,
    )
insert_or_compare_lem enc db db' created_at inp m created payload (some existing) e found h =
    let (passed, r) =
      >>-eq-ok (refuse_if (not (is_same_message enc existing inp payload)) conflict) _ h in
    let same : existing ≡ m = ground arith in
    let kept : db ≡ db' = cc r in
    (
      ap (λ (x : DeviceMessageInbox). is_same_message enc x inp payload) (sym same)
          ∙ not-false _ (refuse_if-eq-ok _ _ passed),
      ap (λ (x : Db). find_row inbox_key inp.message_id x.inbox) (sym kept) ∙ found ∙ ap some same,
      ap (λ (x : Db). x.operations) (sym kept),
    )

pub create_or_get_inbox_message-Created :
    (enc : Encoding) (db db' : Db) (created_at : Time) (inp : DeviceMessageInboxCreateInput)
    (m : DeviceMessageInbox) (created : Bool)
    → create_or_get_inbox_message enc db created_at inp ≡ ok ((m, created), db')
    → Created enc db db' inp m
unfolding create_or_get_inbox_message
create_or_get_inbox_message-Created enc db db' created_at inp m created h =
    let (payload, marshalled, r1) = >>=-eq-ok (enc.marshal inp.payload) _ h in
    let (stored, r2) = >>-eq-ok (refuse_if (not (is_storable inp)) check_violation) _ r1 in
    let (same, has_row, same_operations) =
      insert_or_compare_lem enc db db' created_at inp m created payload
        (find_row inbox_key inp.message_id db.inbox) marshalled refl r2 in
    record {
      payload = payload;
      marshalled = marshalled;
      storable = ground (arith, refuse_if-eq-ok _ _ stored);
      same = same;
      has_row = has_row;
      same_operations = same_operations;
    }

-- A row that is there, and is the same message, is returned as it is.
pub create_or_get_existing :
    (enc : Encoding) (db : Db) (created_at : Time) (inp : DeviceMessageInboxCreateInput)
    (m : DeviceMessageInbox) (payload : List ℕ)
    → enc.marshal inp.payload ≡ ok payload
    → is_storable inp ≡ true
    → is_same_message enc m inp payload ≡ true
    → find_row inbox_key inp.message_id db.inbox ≡ some m
    → create_or_get_inbox_message enc db created_at inp ≡ ok ((m, false), db)
unfolding create_or_get_inbox_message insert_or_compare
create_or_get_existing enc db created_at inp m payload e s same found = rw (e, s, found, same) refl
