-- ===== src/Worker/Inbox/Rounds/Laws.antt =====
-- How a round of the inbox worker counts its messages.
use rtk_account_manager.Common.{
  ℕ, ◌+◌, suc, ◌≡◌, refl, sym, ap, ◌∙◌, inl, inr, Bool, true, false, Bool-cases, Option, none, some,
  Option-cases, List, [], ◌∷◌, length, Result, ok, err, GoError, arith,
}
use rtk_account_manager.Model.{DeviceMessageInbox, DeviceMessageInboxStatus}
use rtk_account_manager.Store.Tables.{Db}
use rtk_account_manager.Worker.Inbox.Transitions.{projection_transition}
use rtk_account_manager.Worker.Inbox.Messages.{
  Message, Settings, Clock, process_message, choose_transition, choose_for_payload,
  choose_processed, choose_with_operation,
}
use rtk_account_manager.Worker.Inbox.Deliveries.{process_message-Delivery}
use rtk_account_manager.Worker.Inbox.Rounds.{
  Stats, Consumer, should_acknowledge_outcome, count, acknowledged, after_process, process_all,
  run_once, no_stats, after_receive,
}

-- The outcomes of a round, with the messages that were skipped.
abbrev pub total : Stats → ℕ
total st = st.processed + st.retrying + st.dead_lettered + st.skipped

abbrev is_failed : Option DeviceMessageInboxStatus → Bool
is_failed (some DeviceMessageInboxStatus.failed) = true
is_failed _ = false

chosen_status :
    (s : Settings) (db : Db) (clock : Clock) (msg : Message) (m : DeviceMessageInbox)
    → is_failed (some (choose_transition s db clock msg m).message_status) ≡ false
unfolding choose_transition choose_for_payload choose_processed choose_with_operation
    projection_transition
chosen_status s db clock msg m = ground arith

never_failed :
    (s : Settings) (db db' : Db) (clock : Clock) (msg : Message)
    (o : Option DeviceMessageInboxStatus)
    → process_message s db clock msg ≡ (ok o, db')
    → is_failed o ≡ false
never_failed s db db' clock msg none h = refl
never_failed s db db' clock msg (some st) h =
    let d = process_message-Delivery s db db' clock msg st h in
    ap (λ x. is_failed (some x)) (sym d.status) ∙ chosen_status s d.between clock msg d.row

total-count :
    (st : Stats) (o : Option DeviceMessageInboxStatus)
    → is_failed o ≡ false
    → (total (count st o) ≡ total st + 1) × ((count st o).received ≡ st.received)
unfolding count
total-count st (some DeviceMessageInboxStatus.processed) h = (omega arith, refl)
total-count st (some DeviceMessageInboxStatus.retrying) h = (omega arith, refl)
total-count st (some DeviceMessageInboxStatus.dead_lettered) h = (omega arith, refl)
total-count st (some DeviceMessageInboxStatus.failed) h = cc
total-count st none h = (omega arith, refl)

module _ {P : Type 0} (c : Consumer P) (s : Settings) (batch_size : ℕ) where
  -- A round that ends without an error has counted each message.
  abbrev IsCounted : Stats → ℕ → (Stats × Option GoError) × (Db × P) → Type 0
  IsCounted st n round =
      round.0.1 ≡ none → (total round.0.0 ≡ total st + n) × (round.0.0.received ≡ st.received)

  process_all-IsCounted :
      (db : Db) (p : P) (st : Stats) (msgs : List Message)
      → IsCounted st (length msgs) (process_all c s batch_size db p st msgs)
  unfolding process_all
  process_all-IsCounted db p st [] = λ h. (omega arith, refl)
  process_all-IsCounted db p st (msg ∷ msgs) = elim (Option-cases (c.context_error p)) [
    | inr (e, x) ↦ rw (x, process_all) (λ h. absurd (ground arith))
    | inl x ↦
        rw (x, process_all)
          (counted (process_message s db (c.clock p) msg) refl
            (λ db' p' st'. process_all-IsCounted db' p' st' msgs))
  ]
    where
      rest : Db → P → Stats → (Stats × Option GoError) × (Db × P)
      rest db' p' st' = process_all c s batch_size db' p' st' msgs

      counted :
          (r : Result (Option DeviceMessageInboxStatus) × Db)
          → process_message s db (c.clock p) msg ≡ r
          → ((db' : Db) (p' : P) (st' : Stats) → IsCounted st' (length msgs) (rest db' p' st'))
          → IsCounted st (suc (length msgs)) (after_process c s batch_size st p msg r rest)
      counted (err e, db') is ih = λ h. absurd (ground arith)
      counted (ok o, db') is ih = elim (Bool-cases (should_acknowledge_outcome o)) [
        | inl a ↦ rw a (acked (c.acknowledge p msg))
        | inr a ↦ rw a (next p)
      ]
        where
          next : (p' : P) → IsCounted st (suc (length msgs)) (rest db' p' (count st o))
          next p' h =
              let (more, same) = ih db' p' (count st o) h in
              let (one, still) = total-count st o (never_failed s db db' (c.clock p) msg o is) in
              (omega (arith, more, one), same ∙ still)

          acked :
              (a : Option GoError × P)
              → IsCounted st
                  (suc (length msgs))
                  (acknowledged c s batch_size st db' a (λ p'. rest db' p' (count st o)))
          acked (some e, p') = λ h. absurd (ground arith)
          acked (none, p') = next p'

  -- A round that ends without an error has counted each message that it received once: as
  -- processed, to be retried, dead-lettered or skipped.
  pub run_once-total :
      (w : Db × P)
      → (run_once c s batch_size w).0.1 ≡ none
      → total (run_once c s batch_size w).0.0 ≡ (run_once c s batch_size w).0.0.received
  unfolding run_once
  run_once-total w = by_receive (c.receive w.1 batch_size)
    where
      by_receive :
          (r : Result (List Message) × P)
          → (after_receive c s batch_size w.0 r).0.1 ≡ none
          → total (after_receive c s batch_size w.0 r).0.0
            ≡ (after_receive c s batch_size w.0 r).0.0.received
      by_receive (err e, p) h = absurd (ground arith)
      by_receive (ok msgs, p) h =
          let (all_counted, same) =
            process_all-IsCounted w.0 p
              (record (no_stats c s batch_size) { received = length msgs }) msgs h in
          omega (arith, all_counted, same)
