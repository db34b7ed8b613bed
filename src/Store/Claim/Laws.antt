-- ===== src/Store/Claim/Laws.antt =====
-- What a claim of outbox messages returns, and how long it keeps others away.
use rtk_account_manager.Common.{
  ℕ, ◌≤◌, ◌<◌, String, eq_iff, ◌≡◌, refl, ◌≢◌, ◌&&◌, leb, true, false, Bool-cases, inl, inr, List,
  [], ◌∷◌, map, All, length, take, Time, arith,
}
use rtk_account_manager.Channel.Fields.{contains}
use rtk_account_manager.Model.{DeviceMessageOutbox, is_waiting}
use rtk_account_manager.Store.Tables.{Db, outbox_key}
use rtk_account_manager.Store.Selection.{sort_by, filter_by}
use rtk_account_manager.Store.Selection.Laws.{
  All-sort_by, All-take, All-map, All-imp, filter_by-All, length-sort_by, length-take-le,
  length-map',
}
use rtk_account_manager.Store.Claim.{
  is_ready, created_before, due_before, lease, lease_rows, candidates, claim_outbox_messages_ready,
}

pub candidates-ready :
    (db : Db) (ready_before : Time) (limit : ℕ)
    → All (λ m. is_ready ready_before m ≡ true) (candidates db ready_before limit)
unfolding candidates
candidates-ready db ready_before limit =
    All-take _ limit _ (All-sort_by _ _ _ (filter_by-All (is_ready ready_before) db.outbox))

-- A claim returns at most `limit` messages, each of them pending or retrying, and leased: none is
-- available before `claim_until`.
pub claim_leases :
    (db : Db) (ready_before claim_until : Time) (limit : ℕ)
    → let claimed = (claim_outbox_messages_ready db ready_before claim_until limit).0 in
      (length claimed ≤ limit)
      × All (λ m. (is_waiting m.status ≡ true) × (m.available_at ≡ claim_until)) claimed
unfolding claim_outbox_messages_ready is_ready
claim_leases db ready_before claim_until limit = (few, leased)
  where
    chosen : List DeviceMessageOutbox
    chosen = candidates db ready_before limit

    few : length (sort_by created_before (map (lease claim_until) chosen)) ≤ limit
    few = omega (
      arith,
      length-sort_by created_before (map (lease claim_until) chosen),
      length-map' (lease claim_until) chosen,
      length-take-le limit (sort_by due_before (filter_by (is_ready ready_before) db.outbox)),
    )

    leased :
        All
          (λ m. (is_waiting m.status ≡ true) × (m.available_at ≡ claim_until))
          (sort_by created_before (map (lease claim_until) chosen))
    leased = All-sort_by _ created_before _ (
        All-map _ (lease claim_until) chosen (
          All-imp chosen (λ m h. (ground (arith, h), refl))
            (candidates-ready db ready_before limit)))

not_contains-All :
    (ms : List DeviceMessageOutbox) (id : String)
    → contains (map outbox_key ms) id ≡ false
    → All (λ m. id ≢ m.message_id) ms
not_contains-All [] id h = tt
not_contains-All (m ∷ ms) id h =
    (λ e. ground (arith, eq_iff m.message_id id, e), not_contains-All ms id (ground arith))

-- A row that is due before the leases end is none of the leased ones.
ready_unleased :
    (until ready_before : Time) (ids : List String) (rows : List DeviceMessageOutbox)
    → ready_before.nanos < until.nanos
    → All
        (λ m. contains ids m.message_id ≡ false)
        (filter_by (is_ready ready_before) (lease_rows until ids rows))
unfolding filter_by lease_rows is_ready
ready_unleased until ready_before ids [] h = tt
ready_unleased until ready_before ids (m ∷ rows) h = elim (Bool-cases (contains ids m.message_id)) [
  | inl e ↦
      let late : (is_waiting m.status && leb until.nanos ready_before.nanos) ≡ false =
        ground arith in
      rw e (rw late (ready_unleased until ready_before ids rows h))
  | inr e ↦
      rw e (elim (Bool-cases (is_waiting m.status && leb m.available_at.nanos ready_before.nanos)) [
        | inl d ↦ rw d (e, ready_unleased until ready_before ids rows h)
        | inr d ↦ rw d (ready_unleased until ready_before ids rows h)
      ])
]

-- Until a lease ends no other claim returns the message: what a second claim at a time before
-- `claim_until` returns has no message in common with the first claim's.
pub claim_exclusive :
    (db : Db) (ready_before claim_until again_before again_until : Time) (limit again_limit : ℕ)
    → again_before.nanos < claim_until.nanos
    → let (claimed, db') = claim_outbox_messages_ready db ready_before claim_until limit in
      All
        (λ m. All (λ m'. m.message_id ≢ m'.message_id) claimed)
        (claim_outbox_messages_ready db' again_before again_until again_limit).0
unfolding claim_outbox_messages_ready candidates lease_rows
claim_exclusive db ready_before claim_until again_before again_until limit again_limit h =
    All-sort_by _ created_before _ (
      All-map _ (lease again_until) second (
        All-imp second (λ m fresh. apart m fresh)
          (All-take _ again_limit _ (
            All-sort_by _ due_before _
              (ready_unleased claim_until again_before (map outbox_key chosen) db.outbox h)))))
  where
    chosen : List DeviceMessageOutbox
    chosen = take limit (sort_by due_before (filter_by (is_ready ready_before) db.outbox))

    second : List DeviceMessageOutbox
    second = take again_limit (
        sort_by due_before (
          filter_by (is_ready again_before)
            (lease_rows claim_until (map outbox_key chosen) db.outbox)))

    apart :
        (m : DeviceMessageOutbox)
        → contains (map outbox_key chosen) m.message_id ≡ false
        → All
            (λ m'. m.message_id ≢ m'.message_id)
            (sort_by created_before (map (lease claim_until) chosen))
    apart m fresh =
        All-sort_by _ created_before _
          (All-map _ (lease claim_until) chosen (not_contains-All chosen m.message_id fresh))
