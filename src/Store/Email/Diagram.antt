-- ===== src/Store/Email/Diagram.antt =====
-- The states of an email and the statements that change the table: what the table of emails
-- promises, apart from how its statements are written.
use rtk_account_manager.Common.{
  ℕ, String, ◌≡◌, Bool, true, false, Option, is_some, List, All, Time, Result, ok,
}
use rtk_account_manager.Email.{Bytes, Cipher}
use rtk_account_manager.Model.Email.{EmailOutboxStatus, EmailOutbox, is_queued, is_sending}
use rtk_account_manager.Store.Rows.Distinct.{Distinct}
use rtk_account_manager.Store.Email.{
  EmailOutboxInput, EmailOutboxTransitionInput, email_key, enqueue_email, claim_email_outbox_ready,
  transition_email_outbox, requeue_email_outbox, keeps_payload_rule,
}

-- The states in which a delivery may leave its email.
abbrev pub is_result : EmailOutboxStatus → Bool
is_result EmailOutboxStatus.sent = true
is_result EmailOutboxStatus.retrying = true
is_result EmailOutboxStatus.dead_lettered = true
is_result EmailOutboxStatus.expired = true
is_result _ = false

pub data Step : EmailOutboxStatus → EmailOutboxStatus → Type 0 where
  claim : {s : EmailOutboxStatus} → is_queued s ≡ true → Step s EmailOutboxStatus.sending
  claim_again : Step EmailOutboxStatus.sending EmailOutboxStatus.sending
  settle : {s : EmailOutboxStatus} → is_result s ≡ true → Step EmailOutboxStatus.sending s
  requeue : Step EmailOutboxStatus.dead_lettered EmailOutboxStatus.retrying

pub data Steps : EmailOutboxStatus → EmailOutboxStatus → Type 0 where
  stay : {s : EmailOutboxStatus} → Steps s s
  go : {r s t : EmailOutboxStatus} → Steps r s → Step s t → Steps r t

-- One statement on the table, whoever runs it and with whatever arguments, so long as a transition
-- is to a state in which a delivery may end.
pub data Change : List EmailOutbox → List EmailOutbox → Type 0 where
  enqueue :
      (c : Option Cipher) (random : Result Bytes) (id : String) (now : Time)
      (inp : EmailOutboxInput) {rows rows' : List EmailOutbox}
      → enqueue_email c random id now inp rows ≡ ok rows'
      → Change rows rows'
  claim :
      (now lease_until : Time) (limit : ℕ) {rows : List EmailOutbox}
      → Change rows (claim_email_outbox_ready rows now lease_until limit).1
  transition :
      (accepts : Bytes → Bool) (inp : EmailOutboxTransitionInput) (was_applied : Bool)
      {rows rows' : List EmailOutbox}
      → is_result inp.status ≡ true
      → transition_email_outbox accepts rows inp ≡ ok (was_applied, rows')
      → Change rows rows'
  requeue :
      (id : String) (now : Time) {rows : List EmailOutbox}
      → Change rows (requeue_email_outbox rows id now).1

pub data Changes : List EmailOutbox → List EmailOutbox → Type 0 where
  stay : {rows : List EmailOutbox} → Changes rows rows
  go : {a b c : List EmailOutbox} → Changes a b → Change b c → Changes a c

-- A row of the table: its payload is there unless it is closed, and it has a lease exactly while it
-- is being sent.
abbrev pub IsWellFormed : EmailOutbox → Type 0
IsWellFormed m = (keeps_payload_rule m ≡ true) × (is_some m.lease_until ≡ is_sending m.status)

abbrev pub IsTable : List EmailOutbox → Type 0
IsTable rows = Distinct email_key rows × All IsWellFormed rows
