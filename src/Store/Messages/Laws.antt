-- ===== src/Store/Messages/Laws.antt =====
-- When an outbox message is created.
use rtk_account_manager.Common.{
  ℕ, eq_iff, ◌≡◌, ◌↔◌, true, false, none, some, List, ◌∷◌, Time, ok, Option-cases, inl, inr, arith,
}
use rtk_account_manager.Channel.Text.{is_blank}
use rtk_account_manager.Model.{DeviceOperation, DeviceMessageOutbox}
use rtk_account_manager.Store.Rows.{find_row}
use rtk_account_manager.Store.Tables.{Db, operation_key, outbox_key}
use rtk_account_manager.Store.Inbox.Create.{Encoding}
use rtk_account_manager.Store.Messages.{
  DeviceMessageOutboxCreateInput, new_message, validate_partition_key_matches_operation,
  is_storable_command, insert_message, create_outbox_message,
}

module _ (enc : Encoding) (db : Db) (now : Time) (inp : DeviceMessageOutboxCreateInput)
    (bytes : List ℕ) (marshals : enc.marshal inp.payload ≡ ok bytes)
    (keyed : is_blank inp.partition_key ≡ false) where
  -- A message whose payload can be encoded and whose partition key is not blank is created exactly
  -- when the table's checks admit it, no message has its id, and its operation exists and is one of
  -- the device that the partition key names.
  pub create_outbox_message_iff :
      ((m : DeviceMessageOutbox) × (db' : Db) × (create_outbox_message enc db now inp
          ≡ ok (m, db')))
      ↔ ((is_storable_command inp ≡ true)
          × (find_row outbox_key inp.message_id db.outbox ≡ none)
          × (o : DeviceOperation) × (find_row operation_key inp.operation_id db.operations ≡ some o)
          × (o.device_id ≡ inp.partition_key))
  unfolding create_outbox_message insert_message validate_partition_key_matches_operation
  create_outbox_message_iff = (
    λ (m, db', h). accepted m db' h,
    λ (storable, fresh, o, found, same). (
      new_message now inp,
      record db { outbox = new_message now inp ∷ db.outbox },
      ground (
        arith,
        marshals,
        keyed,
        storable,
        fresh,
        found,
        eq_iff o.device_id inp.partition_key,
        same,
      ),
    ),
  )
    where
      accepted :
          (m : DeviceMessageOutbox) (db' : Db)
          → create_outbox_message enc db now inp ≡ ok (m, db')
          → (is_storable_command inp ≡ true)
            × (find_row outbox_key inp.message_id db.outbox ≡ none)
            × (o : DeviceOperation) × (find_row operation_key inp.operation_id db.operations
                ≡ some o)
            × (o.device_id ≡ inp.partition_key)
      accepted m db' h =
          elim (Option-cases (find_row operation_key inp.operation_id db.operations)) [
            | inl missing ↦ ground (arith, h, marshals, keyed, missing)
            | inr (o, found) ↦ (
              ground (arith, h, marshals, keyed, found),
              ground (arith, h, marshals, keyed, found),
              o,
              found,
              (eq_iff o.device_id inp.partition_key).0 (ground (arith, h, marshals, keyed, found)),
            )
          ]
