-- ===== src/Store/Email.antt =====
-- internal/store/email_outbox.go: the statements on the table of emails. A statement that the
-- database refuses leaves the table as it was.
pub mod Diagram
pub mod Laws
pub mod Claims
pub mod Leases
pub mod Invariants
pub mod Refinement
use rtk_account_manager.Common.{
  ℕ, zero, ◌-◌, String, str_eq, codes, Bool, true, false, ◌&&◌, ◌||◌, not, Option, none, some,
  is_some, List, [], ◌∷◌, ◌++◌, map, all, any, ltb, leb, ◌==◌, if◌then◌else◌, length, take, ℤ, pos,
  negsuc, positive_or, Time, Result, ok, err, ◌>>=◌, ◌>>◌, refuse_if, plain,
}
use rtk_account_manager.Channel.Fields.{contains}
use rtk_account_manager.Email.{Bytes, Payload, Cipher, encrypt}
use rtk_account_manager.Model.Email.{
  EmailOutboxStatus, EmailOutbox, is_queued, is_sending, is_dead_lettered, is_closed, same_status,
}
use rtk_account_manager.Store.Rows.{find_row, update_row}
use rtk_account_manager.Store.Selection.{sort_by, filter_by}

abbrev pub email_key : EmailOutbox → String
email_key m = m.id

pub record EmailOutboxInput : Type 0 where
  pub idempotency_key : String
  pub message_type : String
  pub template_version : ℤ
  pub payload : Payload
  pub expires_at : Option Time

pub record EmailOutboxTransitionInput : Type 0 where
  pub id : String
  pub from_attempt : ℕ
  pub status : EmailOutboxStatus
  pub attempt_count : ℕ
  pub available_at : Time
  pub last_error : Option Bytes
  pub sent_at : Option Time
  pub clear_payload : Bool

-- The values that the CHECK of the column message_type admits.
message_types : List String
message_types =
    "email_verification" ∷ "login_activation" ∷ "password_reset" ∷ "brand_cloud_owner_transfer"
    ∷ "brand_cloud_user_activation" ∷ "brand_cloud_membership_invitation"
    ∷ "product_collaborator_invitation" ∷ "quota_approved" ∷ "quota_declined" ∷ []

-- The CHECKs that an INSERT meets: btrim(idempotency_key) <> '' and the message type.
unfoldable pub is_insertable : EmailOutboxInput → Bool
unfolding message_types
is_insertable inp =
    not (all (λ c. c == 32) (codes inp.idempotency_key)) && contains message_types inp.message_type

-- The row that an INSERT makes at `now`, with the columns' defaults.
unfoldable pub enqueued_row : String → Time → EmailOutboxInput → Bytes → Bytes → EmailOutbox
enqueued_row id now inp nonce ciphertext = record {
  id = id;
  idempotency_key = inp.idempotency_key;
  message_type = inp.message_type;
  template_version = positive_or inp.template_version 1;
  payload_nonce = some nonce;
  payload_ciphertext = some ciphertext;
  status = EmailOutboxStatus.pending;
  attempt_count = 0;
  available_at = now;
  lease_until = none;
  last_error = none;
  expires_at = inp.expires_at;
  sent_at = none;
  created_at = now;
}

-- INSERT … ON CONFLICT (idempotency_key) DO NOTHING; the primary key is no part of that clause.
unfoldable pub insert_email : List EmailOutbox → EmailOutbox → Result (List EmailOutbox)
insert_email rows m =
    if any (λ r. str_eq r.idempotency_key m.idempotency_key) rows
    then ok rows
    else if is_some (find_row email_key m.id rows)
    then err (plain "duplicate key value")
    else ok (rows ++ m ∷ [])

-- The INSERT of an encrypted payload.
unfoldable pub insert_sealed :
    String → Time → EmailOutboxInput → List EmailOutbox → Bytes × Bytes → Result (List EmailOutbox)
unfolding insert_email enqueued_row is_insertable
insert_sealed id now inp rows (nonce, ciphertext) = do
  refuse_if (not (is_insertable inp)) (plain "check constraint violated")
  insert_email rows (enqueued_row id now inp nonce ciphertext)

-- EnqueueEmail; `id` is the new row's uuid and `random` what reading a nonce gives.
unfoldable pub enqueue_email :
    Option Cipher
    → Result Bytes
    → String
    → Time
    → EmailOutboxInput
    → List EmailOutbox
    → Result (List EmailOutbox)
unfolding insert_sealed
enqueue_email none random id now inp rows = err (plain "email outbox encryption is not configured")
enqueue_email (some c) random id now inp rows =
    encrypt (some c) random inp.payload >>= insert_sealed id now inp rows

-- lease_until <= now, which NULL is not
abbrev lease_ended : Option Time → Time → Bool
lease_ended none now = false
lease_ended (some until) now = leb until.nanos now.nanos

unfoldable pub is_due : Time → EmailOutbox → Bool
is_due now m =
    (is_queued m.status && leb m.available_at.nanos now.nanos)
    || (is_sending m.status && lease_ended m.lease_until now)

-- ORDER BY available_at ASC, created_at ASC
unfoldable pub available_before : EmailOutbox → EmailOutbox → Bool
available_before a b =
    ltb a.available_at.nanos b.available_at.nanos
    || (a.available_at.nanos == b.available_at.nanos && ltb a.created_at.nanos b.created_at.nanos)

unfoldable pub made_before : EmailOutbox → EmailOutbox → Bool
made_before a b = ltb a.created_at.nanos b.created_at.nanos

-- SET status = 'sending', lease_until = $3
abbrev pub leased : Time → EmailOutbox → EmailOutbox
leased lease_until m = record m {
  status = EmailOutboxStatus.sending;
  lease_until = some lease_until;
}

unfoldable pub leased_rows : Time → List String → List EmailOutbox → List EmailOutbox
leased_rows lease_until ids = map (λ m. if contains ids m.id then leased lease_until m else m)

unfoldable pub due_rows : List EmailOutbox → Time → ℕ → List EmailOutbox
unfolding is_due available_before
due_rows rows now limit = take limit (sort_by available_before (filter_by (is_due now) rows))

unfoldable pub claim_email_outbox_ready :
    List EmailOutbox → Time → Time → ℕ → List EmailOutbox × List EmailOutbox
unfolding due_rows leased_rows made_before
claim_email_outbox_ready rows now lease_until limit =
    let chosen = due_rows rows now limit in
    (
      sort_by made_before (map (leased lease_until) chosen),
      leased_rows lease_until (map email_key chosen) rows,
    )

-- The CHECK of the table: the payload is there unless the email is sent or expired.
abbrev pub keeps_payload_rule : EmailOutbox → Bool
keeps_payload_rule m =
    if is_closed m.status
    then not (is_some m.payload_nonce) && not (is_some m.payload_ciphertext)
    else is_some m.payload_nonce && is_some m.payload_ciphertext

-- The row after the SET of TransitionEmailOutbox.
abbrev pub transitioned : EmailOutboxTransitionInput → EmailOutbox → EmailOutbox
transitioned inp m = record m {
  status = inp.status;
  attempt_count = inp.attempt_count;
  available_at = inp.available_at;
  lease_until = none;
  last_error = inp.last_error;
  sent_at = inp.sent_at;
  payload_nonce = if inp.clear_payload then none else m.payload_nonce;
  payload_ciphertext = if inp.clear_payload then none else m.payload_ciphertext;
}

-- WHERE … status = 'sending' AND attempt_count = $2
abbrev pub is_claimed_at : EmailOutbox → ℕ → Bool
is_claimed_at m attempt = is_sending m.status && m.attempt_count == attempt

-- A text column takes the bytes that `accepts` does.
abbrev pub accepts_error : (Bytes → Bool) → Option Bytes → Bool
accepts_error accepts none = true
accepts_error accepts (some text) = accepts text

abbrev pub update_claimed :
    EmailOutboxTransitionInput
    → List EmailOutbox
    → Option EmailOutbox
    → Result (Bool × List EmailOutbox)
update_claimed inp rows none = ok (false, rows)
update_claimed inp rows (some m) =
    if is_claimed_at m inp.from_attempt
    then if keeps_payload_rule (transitioned inp m)
      then ok (true, update_row email_key inp.id (transitioned inp) rows)
      else err (plain "check constraint violated")
    else ok (false, rows)

unfoldable pub transition_email_outbox :
    (Bytes → Bool)
    → List EmailOutbox
    → EmailOutboxTransitionInput
    → Result (Bool × List EmailOutbox)
transition_email_outbox accepts rows inp = do
  refuse_if (not (accepts_error accepts inp.last_error))
      (plain "invalid byte sequence for encoding")
  update_claimed inp rows (find_row email_key inp.id rows)

-- expires_at IS NULL OR expires_at > $2
abbrev is_unexpired : Option Time → Time → Bool
is_unexpired none now = true
is_unexpired (some t) now = ltb now.nanos t.nanos

unfoldable pub can_requeue : EmailOutbox → Time → Bool
can_requeue m now =
    is_dead_lettered m.status
    && is_some m.payload_nonce
    && is_some m.payload_ciphertext
    && is_unexpired m.expires_at now

abbrev pub requeued_email : Time → EmailOutbox → EmailOutbox
requeued_email now m = record m {
  status = EmailOutboxStatus.retrying;
  attempt_count = 0;
  available_at = now;
  lease_until = none;
  last_error = none;
}

unfoldable pub requeue_email_outbox : List EmailOutbox → String → Time → Bool × List EmailOutbox
unfolding can_requeue
requeue_email_outbox rows id now = elim (find_row email_key id rows) [
  | none ↦ (false, rows)
  | some m ↦
      if can_requeue m now
      then (true, update_row email_key id (requeued_email now) rows)
      else (false, rows)
]

abbrev listed_limit : ℤ → ℕ
listed_limit (pos n) = if (n == 0) || ltb 200 n then 50 else n
listed_limit (negsuc n) = 50

abbrev without_payload : EmailOutbox → EmailOutbox
without_payload m = record m { payload_nonce = none; payload_ciphertext = none }

abbrev made_after : EmailOutbox → EmailOutbox → Bool
made_after a b = ltb b.created_at.nanos a.created_at.nanos

-- ListEmailOutbox; the empty status is `none`
pub list_email_outbox : List EmailOutbox → Option EmailOutboxStatus → ℤ → List EmailOutbox
list_email_outbox rows status limit = map without_payload (
    take (listed_limit limit) (
      sort_by made_after
        (filter_by (λ m. elim status [ none ↦ true | some s ↦ same_status m.status s ]) rows)))
