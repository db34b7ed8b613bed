-- ===== src/Worker/Email/Liveness.antt =====
-- The loop of the worker over rounds without faults: every email is settled in the end.
use rtk_account_manager.Common.{
  ℕ, suc, ◌+◌, ◌/◌, ◌≤◌, ◌<◌, ◌≡◌, ◌⊎◌, refl, sym, subst, ap, ◌∙◌, Bool, true, false, ◌||◌, none,
  some, inl, inr, List, [], ◌∷◌, length, Time, utc, shift_time, All, arith,
}
use rtk_account_manager.Model.Email.{
  EmailOutbox, EmailOutboxStatus, is_queued, is_closed, is_dead_lettered,
}
use rtk_account_manager.Store.Rows.{find_row}
use rtk_account_manager.Store.Email.{EmailOutboxTransitionInput, email_key, is_due, leased}
use rtk_account_manager.Store.Email.Diagram.{IsTable}
use rtk_account_manager.Store.Email.Refinement.{Changes-IsTable}
use rtk_account_manager.Worker.Email.{
  Service, Mailer, default_jitter, retry_delay, expire, finish, retry, dead_letter, choose_delivery,
}
use rtk_account_manager.Worker.Email.Loop.{Turn, run_once, run, after_round}
use rtk_account_manager.Worker.Email.Delays.{IsInRange, retry_delay-le}
use rtk_account_manager.Worker.Email.Deliveries.{IsReliable, choose_delivery-cases}
use rtk_account_manager.Worker.Email.Rounds.{run_once-Changes}
use rtk_account_manager.Worker.Email.Settling.{delivered}
use rtk_account_manager.Worker.Email.Items.{
  IsFair, until, run_once-ok, length-run_once, run_once-settles, run_once-waits,
}

-- Sent, expired or dead-lettered.
abbrev pub is_settled : EmailOutboxStatus → Bool
is_settled status = is_closed status || is_dead_lettered status

-- A turn of the loop without faults, after which it goes on.
abbrev pub IsSteady : Turn → Type 0
IsSteady t = IsReliable t.mailer × IsFair t.schedule × (t.is_stopped ≡ false)

-- Every turn comes at least `gap` after the one before, the first one after the time `start`.
abbrev pub IsSpaced : ℕ → ℕ → List Turn → Type 0
IsSpaced gap start [] = Unit
IsSpaced gap start (t ∷ ts) = (start + gap ≤ t.clock.nanos) × IsSpaced gap t.clock.nanos ts

-- What a delivery leaves: a settled email, or one with another attempt that waits for a retry.
abbrev Leaves : Service → ℕ → Time → EmailOutbox → EmailOutboxTransitionInput → Type 0
Leaves s random now m inp =
    (is_settled inp.status ≡ true)
    ⊎ ((is_queued inp.status ≡ true)
        × (inp.attempt_count ≡ suc m.attempt_count)
        × (suc m.attempt_count < s.max_attempts)
        × (inp.available_at ≡ shift_time now (retry_delay s random (m.attempt_count + 1))))

choose_delivery-Leaves :
    (s : Service) (e : Mailer) (now : Time) (m : EmailOutbox)
    → Leaves s (e.random m.id) now m (choose_delivery s e m now).0
unfolding expire finish retry dead_letter
choose_delivery-Leaves s e now m =
    choose_delivery-cases s e now m (λ c. Leaves s (e.random m.id) now m c.0) (λ b. inl refl)
      (λ b x. inl refl) (λ b mail h. inl refl)
      (λ b mail x h t. inr (refl, omega arith, ground (arith, t), refl)) (λ b mail x h t. inl refl)

module _ (s : Service) (usual : s.jitter ≡ default_jitter) (range : IsInRange s) where
  abbrev pub gap : ℕ
  gap = s.retry_max + s.retry_max / 5

  abbrev after : Turn → List EmailOutbox → List EmailOutbox
  after t rows = (run_once s t.mailer t.schedule t.clock rows).1

  run-steady :
      (t : Turn) (ts : List Turn) (rows : List EmailOutbox)
      → IsTable rows
      → IsSteady t
      → run s (t ∷ ts) rows ≡ run s ts (after t rows)
  unfolding run
  run-steady t ts rows table (reliable, fair, goes_on) =
      ap (λ f. after_round t.is_stopped f (after t rows) (run s ts (after t rows)))
        (run_once-ok s t.mailer t.schedule t.clock rows table reliable fair)
      ∙ ap (λ b. after_round b none (after t rows) (run s ts (after t rows))) goes_on

  IsTable-after : (t : Turn) (rows : List EmailOutbox) → IsTable rows → IsTable (after t rows)
  IsTable-after t rows table =
      Changes-IsTable table (run_once-Changes s t.mailer t.schedule t.clock rows)

  -- A settled email stays as it is.
  run-settled :
      (ts : List Turn) (rows : List EmailOutbox) (m : EmailOutbox)
      → IsTable rows
      → All IsSteady ts
      → find_row email_key m.id rows ≡ some m
      → is_settled m.status ≡ true
      → find_row email_key m.id (run s ts rows).1 ≡ some m
  unfolding run is_due
  run-settled [] rows m table steady found settled = found
  run-settled (t ∷ ts) rows m table (steady, others) found settled =
      ap (λ r. find_row email_key m.id r.1) (run-steady t ts rows table steady)
      ∙ run-settled ts (after t rows) m (IsTable-after t rows table) others
          (run_once-waits s t.mailer t.schedule t.clock rows table steady.0 steady.1 m found
            (ground (arith, settled)))
          settled

  -- Rounds without faults that follow one another at least RetryMax and a fifth apart, with room for
  -- every row in a batch, the default jitter, a base below 2^53 nanoseconds and RetryMax and a fifth
  -- below 2^63, settle every email that waits, whatever numbers are drawn for the retries: after as many rounds as it has attempts left,
  -- and at least one, it has been sent, has expired, or is dead-lettered.
  pub email_is_settled :
      (turns : List Turn) (rows : List EmailOutbox) (m : EmailOutbox) (start : ℕ)
      → IsTable rows
      → length rows ≤ s.batch_size
      → All IsSteady turns
      → IsSpaced gap start turns
      → find_row email_key m.id rows ≡ some m
      → is_queued m.status ≡ true
      → m.available_at.nanos ≤ start + gap
      → s.max_attempts ≤ m.attempt_count + length turns
      → 1 ≤ length turns
      → (m' : EmailOutbox) × (find_row email_key m.id (run s turns rows).1 ≡ some m')
        × (is_settled m'.status ≡ true)
  unfolding is_due
  email_is_settled [] rows m start table room steady spaced found queued due enough some_turn =
      elim (none_left some_turn) [ ]
    where
      none_left : 1 ≤ 0 → ⊥
      none_left h = omega (arith, h)
  email_is_settled (t ∷ ts) rows m start table room (steady, others) (later, spaced) found queued
        due enough some_turn =
      let after_run = ap (λ r. find_row email_key m.id r.1) (run-steady t ts rows table steady) in
      elim (choose_delivery-Leaves s t.mailer (utc t.clock) claimed_m) [
        | inl settled ↦ (
          m',
          after_run
              ∙ run-settled ts (after t rows) m' (IsTable-after t rows table) others found' settled,
          settled,
        )
        | inr (queued', attempts, few, available) ↦
            let (r, found'', settled) =
              email_is_settled ts (after t rows) m' t.clock.nanos (IsTable-after t rows table)
                (omega (
                  arith,
                  room,
                  length-run_once s t.mailer t.schedule t.clock rows table steady.0 steady.1,
                ))
                others spaced found' queued'
                (subst (λ x. x.nanos ≤ t.clock.nanos + gap) (sym available)
                  (retry_delay-le s (t.mailer.random m.id) (m.attempt_count + 1) (utc t.clock) usual
                    range))
                (omega (arith, attempts, enough)) (omega (arith, attempts, few, enough)) in
            (r, after_run ∙ found'', settled)
      ]
    where
      claimed_m : EmailOutbox
      claimed_m = leased (until s rows t.clock table) m

      m' : EmailOutbox
      m' = delivered s t.mailer (utc t.clock) claimed_m

      is_due_now : is_due (utc t.clock) m ≡ true
      is_due_now = ground (arith, queued, due, later)

      found' : find_row email_key m'.id (after t rows) ≡ some m'
      found' =
          run_once-settles s t.mailer t.schedule t.clock rows table steady.0 steady.1 m room found
            is_due_now
