-- ===== src/Store/Claim.antt =====
-- ClaimOutboxMessagesReady of internal/store/device_messages.go: the statement that leases the
-- messages which are due. No other transaction holds a row, so SKIP LOCKED skips none.
pub mod Laws
use rtk_account_manager.Common.{
  ℕ, String, Bool, true, false, ◌&&◌, ◌||◌, not, List, [], ◌∷◌, map, ltb, leb, ◌==◌, take,
  if◌then◌else◌, Time,
}
use rtk_account_manager.Channel.Fields.{contains}
use rtk_account_manager.Model.{DeviceMessageOutbox, is_waiting}
use rtk_account_manager.Store.Tables.{Db, outbox_key}
use rtk_account_manager.Store.Selection.{sort_by, filter_by}

-- status IN ('pending', 'retrying') AND available_at <= $1
unfoldable pub is_ready : Time → DeviceMessageOutbox → Bool
is_ready ready_before m = is_waiting m.status && leb m.available_at.nanos ready_before.nanos

created_before : DeviceMessageOutbox → DeviceMessageOutbox → Bool
created_before a b = ltb a.created_at.nanos b.created_at.nanos

-- ORDER BY available_at ASC, created_at ASC
due_before : DeviceMessageOutbox → DeviceMessageOutbox → Bool
due_before a b =
    ltb a.available_at.nanos b.available_at.nanos
    || (a.available_at.nanos == b.available_at.nanos && ltb a.created_at.nanos b.created_at.nanos)

abbrev pub lease : Time → DeviceMessageOutbox → DeviceMessageOutbox
lease claim_until m = record m { available_at = claim_until }

-- UPDATE … SET available_at = $3 for the candidates
unfoldable pub lease_rows : Time → List String → List DeviceMessageOutbox → List DeviceMessageOutbox
lease_rows claim_until ids = map (λ m. if contains ids m.message_id then lease claim_until m else m)

pub candidates : Db → Time → ℕ → List DeviceMessageOutbox
unfolding is_ready due_before
candidates db ready_before limit =
    take limit (sort_by due_before (filter_by (is_ready ready_before) db.outbox))

unfoldable pub claim_outbox_messages_ready : Db → Time → Time → ℕ → List DeviceMessageOutbox × Db
unfolding candidates lease_rows created_before
claim_outbox_messages_ready db ready_before claim_until limit =
    let chosen = candidates db ready_before limit in
    (
      sort_by created_before (map (lease claim_until) chosen),
      record db { outbox = lease_rows claim_until (map outbox_key chosen) db.outbox },
    )
