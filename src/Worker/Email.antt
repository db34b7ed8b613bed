-- ===== src/Worker/Email.antt =====
-- internal/worker/emailoutbox/service.go: the worker that sends the emails of the table.
pub mod Delays
pub mod Loop
pub mod Deliveries
pub mod Rounds
pub mod Settling
pub mod Items
pub mod Liveness
pub mod Commuting
pub mod Schedules
use Prim.Native.Nat.{◌^◌}
use rtk_account_manager.Common.{
  ℕ, ◌+◌, ◌-◌, ◌*◌, ◌/◌, ◌%◌, String, Bool, true, false, ◌&&◌, ◌||◌, not, Option, none, some, List,
  [], ◌∷◌, map, ltb, leb, ◌==◌, if◌then◌else◌, length, take, ℤ, pos, negsuc, ◌+ℤ◌, is_below_one,
  positive_or, Time, utc, add_time, shift_time, Result, ok, err, GoError, is_canceled,
}
use rtk_account_manager.Email.{Bytes, Payload, Message, Cipher, decrypt, is_transient_delivery}
use rtk_account_manager.Model.Email.{EmailOutboxStatus, EmailOutbox}
use rtk_account_manager.Store.Email.{
  EmailOutboxTransitionInput, claim_email_outbox_ready, transition_email_outbox,
}

-- Durations are nanoseconds. A jitter may draw a random number: its first argument is the draw.
pub record Options : Type 0 where
  pub max_attempts : ℤ
  pub poll_interval : ℤ
  pub retry_base : ℤ
  pub retry_max : ℤ
  pub lease_duration : ℤ
  pub batch_size : ℤ
  pub jitter : Option (ℕ → ℤ → ℤ)

-- The parts of Service that its methods read. `overflowed` is what the conversion of a float64
-- outside the range of int64 gives, which Go leaves to the processor.
pub record Service : Type 0 where
  pub max_attempts : ℕ
  pub poll_interval : ℕ
  pub retry_base : ℕ
  pub retry_max : ℕ
  pub lease_duration : ℕ
  pub batch_size : ℕ
  pub jitter : ℕ → ℤ → ℤ
  pub overflowed : ℤ

abbrev second : ℕ
second = 1000000000

abbrev at_least_one : ℕ → ℕ
at_least_one n = if n == 0 then 1 else n

-- The default of Options.Jitter, up to a fifth of the delay; `random` is the number that the
-- generator draws for this call, before Int63n reduces it.
unfoldable pub default_jitter : ℕ → ℤ → ℤ
default_jitter random (pos n) = if n == 0 then pos 0 else pos (random % at_least_one (n / 5))
default_jitter random (negsuc n) = pos 0

pub new_service : ℤ → Options → Service
unfolding default_jitter
new_service overflowed options = record {
  max_attempts = positive_or options.max_attempts 8;
  poll_interval = positive_or options.poll_interval (5 * second);
  retry_base = positive_or options.retry_base (30 * second);
  retry_max = positive_or options.retry_max (30 * 60 * second);
  lease_duration = positive_or options.lease_duration (30 * second);
  batch_size = positive_or options.batch_size 20;
  jitter = elim options.jitter [ none ↦ default_jitter | some j ↦ j ];
  overflowed = overflowed;
}

-- What the methods call in one round: the renderer, the mail service, Error() of an error, the
-- database's test of a text, its faults, the context's error when a delivery starts, and the number
-- that the generator draws if the jitter of the email's retry calls it.
pub record Mailer : Type 0 where
  pub cipher : Option Cipher
  pub render : String → String → Payload → Result Message
  pub send : Message → Option GoError
  pub error_text : GoError → Bytes
  pub accepts : Bytes → Bool
  pub claim_error : Option GoError
  pub transition_error : String → Option GoError
  pub context_error : String → Option GoError
  pub random : String → ℕ

abbrev is_break : ℕ → Bool
is_break c = (c == 13) || (c == 10)

unfoldable pub sanitize_error : Bytes → Bytes
sanitize_error text = take 500 (map (λ c. if is_break c then 32 else c) text)

-- time.Duration(f) for a float64 that is the whole number n
unfoldable pub duration_of : ℤ → ℕ → ℤ
duration_of overflowed n = if ltb n (2 ^ 63) then pos n else overflowed

abbrev pub at_most : ℤ → ℕ → ℤ
at_most (pos n) limit = if ltb limit n then pos limit else pos n
at_most (negsuc n) limit = negsuc n

-- The int64 that a sum of two int64 gives.
unfoldable pub wrap_int64 : ℤ → ℤ
wrap_int64 (pos n) =
    let rest = n % 2 ^ 64 in if ltb rest (2 ^ 63) then pos rest else negsuc (2 ^ 64 - 1 - rest)
wrap_int64 (negsuc n) =
    let rest = n % 2 ^ 64 in if ltb rest (2 ^ 63) then negsuc rest else pos (2 ^ 64 - 1 - rest)

-- The product is exact in a float64 for a base below 2^53 nanoseconds.
unfoldable pub retry_delay : Service → ℕ → ℕ → ℤ
unfolding duration_of wrap_int64
retry_delay s random attempt =
    let delay = at_most (duration_of s.overflowed (s.retry_base * 2 ^ (attempt - 1))) s.retry_max in
    wrap_int64 (delay +ℤ s.jitter random delay)

-- The status that a delivery reports, the empty one being `none`.
abbrev pub Outcome : Type 0
Outcome = Result (Option EmailOutboxStatus)

-- Its outcome, the message that it handed to the mail service, and the table after it.
abbrev pub Delivery : Type 0
Delivery = (Outcome × Option Message) × List EmailOutbox

abbrev pub transition_input :
    EmailOutbox
    → EmailOutboxStatus
    → ℕ
    → Time
    → Option Time
    → Bool
    → Option Bytes
    → EmailOutboxTransitionInput
transition_input m status attempt available_at sent_at clear last_error = record {
  id = m.id;
  from_attempt = m.attempt_count;
  status = status;
  attempt_count = attempt;
  available_at = available_at;
  last_error = last_error;
  sent_at = sent_at;
  clear_payload = clear;
}

abbrev pub bytes_of : Option Bytes → Bytes
bytes_of none = []
bytes_of (some bytes) = bytes

module _ (s : Service) (e : Mailer) where
  abbrev pub applied :
      EmailOutboxStatus
      → List EmailOutbox
      → Result (Bool × List EmailOutbox)
      → Outcome × List EmailOutbox
  applied status rows (err x) = (err x, rows)
  applied status rows (ok (true, rows')) = (ok (some status), rows')
  applied status rows (ok (false, rows')) = (ok none, rows')

  unfoldable pub transition :
      EmailOutboxTransitionInput → List EmailOutbox → Outcome × List EmailOutbox
  transition inp rows = elim (e.transition_error inp.id) [
    | some x ↦ (err x, rows)
    | none ↦ applied inp.status rows (transition_email_outbox e.accepts rows inp)
  ]

  -- The arguments of TransitionEmailOutbox for each way in which a delivery ends.
  unfoldable pub dead_letter : EmailOutbox → Time → GoError → EmailOutboxTransitionInput
  dead_letter m now x =
      transition_input m EmailOutboxStatus.dead_lettered (m.attempt_count + 1) now none false
        (some (sanitize_error (e.error_text x)))

  unfoldable pub retry : EmailOutbox → Time → GoError → EmailOutboxTransitionInput
  unfolding retry_delay
  retry m now x =
      transition_input m EmailOutboxStatus.retrying (m.attempt_count + 1)
        (shift_time now (retry_delay s (e.random m.id) (m.attempt_count + 1))) none false
        (some (sanitize_error (e.error_text x)))

  unfoldable pub expire : EmailOutbox → Time → EmailOutboxTransitionInput
  expire m now = transition_input m EmailOutboxStatus.expired m.attempt_count now none true none

  unfoldable pub finish : EmailOutbox → Time → EmailOutboxTransitionInput
  finish m now =
      transition_input m EmailOutboxStatus.sent (m.attempt_count + 1) now (some now) true none

  -- After Send.
  abbrev pub after_send : EmailOutbox → Time → Option GoError → EmailOutboxTransitionInput
  after_send m now none = finish m now
  after_send m now (some x) =
      if is_transient_delivery x && ltb (m.attempt_count + 1) s.max_attempts
      then retry m now x
      else dead_letter m now x

  abbrev pub after_render :
      EmailOutbox → Time → Result Message → EmailOutboxTransitionInput × Option Message
  after_render m now (err x) = (dead_letter m now x, none)
  after_render m now (ok mail) = (after_send m now (e.send mail), some mail)

  abbrev pub after_decrypt :
      EmailOutbox → Time → Result Payload → EmailOutboxTransitionInput × Option Message
  after_decrypt m now (err x) = (dead_letter m now x, none)
  after_decrypt m now (ok payload) = after_render m now (e.render m.id m.message_type payload)

  -- ExpiresAt != nil && !ExpiresAt.After(now)
  abbrev pub is_expired : Option Time → Time → Bool
  is_expired none now = false
  is_expired (some t) now = leb t.nanos now.nanos

  -- What deliver records in the end, and the message that it sends before that.
  unfoldable pub choose_delivery : EmailOutbox → Time → EmailOutboxTransitionInput × Option Message
  choose_delivery m now =
      if is_expired m.expires_at now
      then (expire m now, none)
      else after_decrypt m now
          (decrypt e.cipher (bytes_of m.payload_nonce) (bytes_of m.payload_ciphertext))

  unfoldable pub deliver : Time → EmailOutbox → List EmailOutbox → Delivery
  unfolding transition choose_delivery
  deliver now m rows =
      let (inp, mail) = choose_delivery m now in
      let (outcome, rows') = transition inp rows in ((outcome, mail), rows')

  -- A goroutine of RunOnce.
  unfoldable pub start_delivery : Time → EmailOutbox → List EmailOutbox → Delivery
  unfolding deliver
  start_delivery now m rows = elim (e.context_error m.id) [
    | some x ↦ ((err x, none), rows)
    | none ↦ deliver now m rows
  ]

  unfoldable pub deliver_all :
      Time
      → List EmailOutbox
      → List EmailOutbox
      → List (Outcome × Option Message) × List EmailOutbox
  unfolding start_delivery
  deliver_all now [] rows = ([], rows)
  deliver_all now (m ∷ ms) rows =
      let (first, rows') = start_delivery now m rows in
      let (others, rows'') = deliver_all now ms rows' in (first ∷ others, rows'')
