-- ===== src/Store/Operations/Laws.antt =====
-- Creating a device operation twice.
use rtk_account_manager.Common.{
  ℕ, eq_iff, ◌≡◌, refl, sym, subst, ap, ◌∙◌, Bool, true, false, not, Option, none, some, List, ◌∷◌,
  Time, Result, ok, err, ◌>>◌, ◌>>=◌, refuse_if, conflict, Bool-cases, inl, inr, arith,
}
use rtk_account_manager.Model.{DeviceOperation, DeviceOperationType}
use rtk_account_manager.Store.Rows.{find_row}
use rtk_account_manager.Store.Tables.{Db, operation_key}
use rtk_account_manager.Store.Inbox.Create.{Encoding, same_bytes}
use rtk_account_manager.Store.Inbox.Create.Laws.{same_codes_refl}
use rtk_account_manager.Store.Operations.{
  DeviceOperationCreateInput, new_operation, same_operation_type, require_device_in_organization,
  is_same_operation, insert_or_compare_operation, create_or_get_device_operation,
}

same_operation_type_refl : (t : DeviceOperationType) → same_operation_type t t ≡ true
same_operation_type_refl t = ground arith

abbrev value_or {ℓ} : {T : Type ℓ} → T → Result T → T
value_or t (ok x) = x
value_or t (err e) = t

module _ (enc : Encoding) (later : Time) (inp : DeviceOperationCreateInput) where
  -- Where the row is there with the same data, a creation returns it.
  found_again :
      (db : Db) (o : DeviceOperation) (request result : List ℕ)
      → require_device_in_organization db inp.organization_id inp.device_id ≡ ok tt
      → enc.marshal inp.request_payload ≡ ok request
      → enc.marshal inp.result_payload ≡ ok result
      → find_row operation_key inp.operation_id db.operations ≡ some o
      → is_same_operation enc o inp request ≡ true
      → create_or_get_device_operation enc db later inp ≡ ok ((o, false), db)
  unfolding create_or_get_device_operation insert_or_compare_operation
  found_again db o request result required marshals marshals' found same =
      rw
        (
          required, marshals, marshals', found, create_or_get_device_operation,
          insert_or_compare_operation, same,
        )
        refl

  same_as_new :
      (created_at : Time) (request : List ℕ)
      → enc.marshal inp.request_payload ≡ ok request
      → is_same_operation enc (new_operation created_at inp) inp request ≡ true
  unfolding is_same_operation
  same_as_new created_at request marshals = ground (
    arith,
    eq_iff inp.correlation_id inp.correlation_id,
    eq_iff inp.organization_id inp.organization_id,
    eq_iff inp.device_id inp.device_id,
    same_operation_type_refl inp.operation_type,
    ap (λ r. same_bytes enc r request) marshals ∙ same_codes_refl request,
  )

  module _ (db db' : Db) (created_at : Time) (o : DeviceOperation) (created : Bool) where
    by_row :
        (request result : List ℕ) (row : Option DeviceOperation)
        → require_device_in_organization db inp.organization_id inp.device_id ≡ ok tt
        → enc.marshal inp.request_payload ≡ ok request
        → enc.marshal inp.result_payload ≡ ok result
        → find_row operation_key inp.operation_id db.operations ≡ row
        → insert_or_compare_operation enc db created_at inp request row ≡ ok ((o, created), db')
        → create_or_get_device_operation enc db' later inp ≡ ok ((o, false), db')
    unfolding insert_or_compare_operation require_device_in_organization find_row
    by_row request result none required marshals marshals' found h =
        subst (λ r. create_or_get_device_operation enc r.1 later inp ≡ ok ((r.0.0, false), r.1))
          (ap (value_or new) h)
          (found_again new.1 (new_operation created_at inp) request result required marshals
            marshals' (ground (arith, eq_iff inp.operation_id inp.operation_id))
            (same_as_new created_at request marshals))
      where
        new : (DeviceOperation × Bool) × Db
        new = (
          (new_operation created_at inp, true),
          record db { operations = new_operation created_at inp ∷ db.operations },
        )
    by_row request result (some existing) required marshals marshals' found h =
        elim (Bool-cases (is_same_operation enc existing inp request)) [
          | inl same ↦
              subst
                (λ r. create_or_get_device_operation enc r.1 later inp ≡ ok ((r.0.0, false), r.1))
                (ap (value_or ((existing, false), db)) (
                  sym (ap (λ b. refuse_if (not b) conflict >> ok ((existing, false), db)) same)
                  ∙ h))
                (found_again db existing request result required marshals marshals' found same)
          | inr other ↦ ground (
            arith,
            sym (ap (λ b. refuse_if (not b) conflict >> ok ((existing, false), db)) other) ∙ h,
          )
        ]

-- Creating an operation a second time with the same input, at whatever time, returns the operation
-- that the first call returned, says that it was not created, and leaves the tables as they are.
pub create_again :
    (enc : Encoding) (db db' : Db) (created_at later : Time) (inp : DeviceOperationCreateInput)
    (o : DeviceOperation) (created : Bool)
    → create_or_get_device_operation enc db created_at inp ≡ ok ((o, created), db')
    → create_or_get_device_operation enc db' later inp ≡ ok ((o, false), db')
unfolding create_or_get_device_operation
create_again enc db db' created_at later inp o created h =
    by_results (require_device_in_organization db inp.organization_id inp.device_id) refl
      (enc.marshal inp.request_payload) refl (enc.marshal inp.result_payload) refl h
  where
    by_results :
        (q : Result (Unit {0}))
        → require_device_in_organization db inp.organization_id inp.device_id ≡ q
        → (r : Result (List ℕ)) → enc.marshal inp.request_payload ≡ r
        → (r' : Result (List ℕ)) → enc.marshal inp.result_payload ≡ r'
        → (q
            >> (r >>= λ request. r' >>= λ result.
                insert_or_compare_operation enc db created_at inp request
                  (find_row operation_key inp.operation_id db.operations)))
          ≡ ok ((o, created), db')
        → create_or_get_device_operation enc db' later inp ≡ ok ((o, false), db')
    by_results (err e) required r marshals r' marshals' h = cc
    by_results (ok done) required (err e) marshals r' marshals' h = cc
    by_results (ok done) required (ok request) marshals (err e) marshals' h = cc
    by_results (ok done) required (ok request) marshals (ok result) marshals' h =
        by_row enc later inp db db' created_at o created request result
          (find_row operation_key inp.operation_id db.operations) required marshals marshals' refl h
