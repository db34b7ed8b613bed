-- ===== src/Model/Email.antt =====
-- internal/model/email_outbox.go: a row of the table of emails. A NULL column is `none`; the error is
-- kept as the bytes of Go's string.
use rtk_account_manager.Common.{ℕ, String, Bool, true, false, Option, Time}
use rtk_account_manager.Email.{Bytes}

pub data EmailOutboxStatus : Type 0 where
  pending sending retrying sent dead_lettered expired : EmailOutboxStatus

pub record EmailOutbox : Type 0 where
  pub id : String
  pub idempotency_key : String
  pub message_type : String
  pub template_version : ℕ
  pub payload_nonce : Option Bytes
  pub payload_ciphertext : Option Bytes
  pub status : EmailOutboxStatus
  pub attempt_count : ℕ
  pub available_at : Time
  pub lease_until : Option Time
  pub last_error : Option Bytes
  pub expires_at : Option Time
  pub sent_at : Option Time
  pub created_at : Time

-- status IN ('pending', 'retrying')
abbrev pub is_queued : EmailOutboxStatus → Bool
is_queued pending = true
is_queued retrying = true
is_queued _ = false

abbrev pub is_sending : EmailOutboxStatus → Bool
is_sending sending = true
is_sending _ = false

abbrev pub is_dead_lettered : EmailOutboxStatus → Bool
is_dead_lettered dead_lettered = true
is_dead_lettered _ = false

-- status IN ('sent', 'expired')
abbrev pub is_closed : EmailOutboxStatus → Bool
is_closed sent = true
is_closed expired = true
is_closed _ = false

-- status = status', for a listing and the counts
abbrev pub same_status : EmailOutboxStatus → EmailOutboxStatus → Bool
same_status pending pending = true
same_status sending sending = true
same_status retrying retrying = true
same_status sent sent = true
same_status dead_lettered dead_lettered = true
same_status expired expired = true
same_status _ _ = false
