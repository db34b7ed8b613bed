-- ===== src/Worker/Email/Delays.antt =====
-- The delay before a retry.
use Prim.Native.Nat.{◌^◌}
use native.Mathlib.Nat.{mod-lt, mod-eq_of_lt}
use rtk_account_manager.Common.{
  ℕ, ◌+◌, ◌-◌, ◌*◌, ◌/◌, ◌%◌, ◌≤◌, ◌<◌, ◌≡◌, sym, subst, ap, ◌==◌, shift_time, ◌∙◌, false, ltb,
  if◌then◌else◌, Time, ℤ, pos, negsuc, ◌+ℤ◌, Bool-cases, inl, inr, GoError, arith,
}
use rtk_account_manager.Model.Email.{EmailOutbox}
use rtk_account_manager.Worker.Email.{
  Service, Mailer, default_jitter, duration_of, at_most, wrap_int64, retry_delay, retry,
}

below_at_least_one : (random d : ℕ) → random % (if d == 0 then 1 else d) ≤ d
below_at_least_one random d = elim (Bool-cases (d == 0)) [
  | inl e ↦ rw e (omega arith)
  | inr e ↦ rw e (weaken (mod-lt random (positive d e)))
]
  where
    weaken : {a b : ℕ} → a < b → a ≤ b
    weaken h = omega (arith, h)

    positive : (n : ℕ) → (n == 0) ≡ false → 0 < n
    positive n e = ground (arith, e)

-- The default jitter of a delay that is not negative is at most a fifth of it.
jitter_bounds : (random d : ℕ) → (j : ℕ) × (default_jitter random (pos d) ≡ pos j) × (j ≤ d / 5)
unfolding default_jitter
jitter_bounds random d = elim (Bool-cases (d == 0)) [
  | inl e ↦ (0, rw e, omega arith)
  | inr e ↦ (random % (if d / 5 == 0 then 1 else d / 5), rw e, below_at_least_one random (d / 5))
]

is_rest : (n : ℕ) → n < 2 ^ 63 → n % 2 ^ 64 ≡ n
is_rest n h = mod-eq_of_lt (omega (arith, h))

abbrev pub IsInt64 : ℤ → Type 0
IsInt64 (pos n) = n < 2 ^ 63
IsInt64 (negsuc n) = n < 2 ^ 63

wrap_int64-IsInt64 : (z : ℤ) → IsInt64 z → wrap_int64 z ≡ z
unfolding wrap_int64
wrap_int64-IsInt64 (pos n) h = rw (is_rest n h) (ground (arith, h))
wrap_int64-IsInt64 (negsuc n) h = rw (is_rest n h) (ground (arith, h))

plus_zero : (k : ℕ) → negsuc k +ℤ pos 0 ≡ negsuc k
plus_zero k = ground arith

-- Settings with which no sum leaves the range of int64 and the base is exact in a float64.
abbrev pub IsInRange : Service → Type 0
IsInRange s =
    (s.retry_base < 2 ^ 53) × (s.retry_max + s.retry_max / 5 < 2 ^ 63) × IsInt64 s.overflowed

-- Settings that are in range stay in it with the default jitter.
default_jitter-wrap :
    (s : Service) (random n : ℕ)
    → s.jitter ≡ default_jitter
    → s.retry_max + s.retry_max / 5 < 2 ^ 63
    → n ≤ s.retry_max
    → (j : ℕ) × (wrap_int64 (pos n +ℤ s.jitter random (pos n)) ≡ pos (n + j)) × (j ≤ n / 5)
default_jitter-wrap s random n usual fits few =
    let (j, jitters, small) = jitter_bounds random n in
    (
      j,
      ap (λ f. wrap_int64 (pos n +ℤ f random (pos n))) usual
          ∙ ap (λ z. wrap_int64 (pos n +ℤ z)) jitters
          ∙ wrap_int64-IsInt64 (pos (n + j)) (omega (arith, small, fits, few)),
      small,
    )

-- With the default jitter, a base below 2^53 nanoseconds, RetryMax and a fifth of it below 2^63, and
-- while the doubled base stays below 2^63, the delay before a retry is the base doubled for every
-- attempt after the first, or RetryMax where that is less, and at most a fifth more, whatever number
-- is drawn.
pub retry_delay_bounds :
    (s : Service) (random attempt : ℕ)
    → s.jitter ≡ default_jitter
    → IsInRange s
    → s.retry_base * 2 ^ (attempt - 1) < 2 ^ 63
    → let doubled = s.retry_base * 2 ^ (attempt - 1) in
      let delay = if ltb s.retry_max doubled then s.retry_max else doubled in
      (n : ℕ) × (retry_delay s random attempt ≡ pos n) × (delay ≤ n) × (n ≤ delay + delay / 5)
unfolding retry_delay default_jitter duration_of
retry_delay_bounds s random attempt usual range fits =
    let (j, wraps, few) = default_jitter-wrap s random capped usual range.1 is_small in
    (
      capped + j,
      ap (λ z. wrap_int64 (z +ℤ s.jitter random z)) (is_capped doubled fits) ∙ wraps,
      omega arith,
      omega (arith, few),
    )
  where
    doubled : ℕ
    doubled = s.retry_base * 2 ^ (attempt - 1)

    capped : ℕ
    capped = if ltb s.retry_max doubled then s.retry_max else doubled

    is_small : capped ≤ s.retry_max
    is_small = by_tests doubled
      where
        by_tests : (n : ℕ) → (if ltb s.retry_max n then s.retry_max else n) ≤ s.retry_max
        by_tests n = ground arith

    is_capped :
        (n : ℕ)
        → n < 2 ^ 63
        → at_most (if ltb n (2 ^ 63) then pos n else s.overflowed) s.retry_max
          ≡ pos (if ltb s.retry_max n then s.retry_max else n)
    is_capped n h = ground (arith, h)

-- The time t and a delay after it are at most RetryMax and a fifth apart.
abbrev IsLate : Service → Time → ℤ → Type 0
IsLate s t z = (shift_time t z).nanos ≤ t.nanos + (s.retry_max + s.retry_max / 5)

-- With the default jitter no delay is longer than RetryMax and a fifth of it.
pub retry_delay-le :
    (s : Service) (random attempt : ℕ) (t : Time)
    → s.jitter ≡ default_jitter
    → IsInRange s
    → (shift_time t (retry_delay s random attempt)).nanos
      ≤ t.nanos + (s.retry_max + s.retry_max / 5)
unfolding retry_delay default_jitter duration_of
retry_delay-le s random attempt t usual (exact, fits, is_int64) =
    by_tests (s.retry_base * 2 ^ (attempt - 1))
  where
    short : (n : ℕ) → n ≤ s.retry_max → IsLate s t (wrap_int64 (pos n +ℤ s.jitter random (pos n)))
    short n h =
        let (j, wraps, few) = default_jitter-wrap s random n usual fits h in
        subst (IsLate s t) (sym wraps) (omega (arith, few, h))

    by_delay :
        (d : ℤ)
        → IsInt64 d
        → IsLate s t (wrap_int64 (at_most d s.retry_max +ℤ s.jitter random (at_most d s.retry_max)))
    by_delay (pos n) small = elim (Bool-cases (ltb s.retry_max n)) [
      | inl b ↦ rw b (short s.retry_max (omega arith))
      | inr b ↦ rw b (short n (ground (arith, b)))
    ]
    by_delay (negsuc k) small =
        subst (IsLate s t)
          (sym (
            ap (λ f. wrap_int64 (negsuc k +ℤ f random (negsuc k))) usual
            ∙ ap wrap_int64 (plus_zero k)
            ∙ wrap_int64-IsInt64 (negsuc k) small))
          (omega arith)

    by_tests :
        (n : ℕ)
        → let d = duration_of s.overflowed n in
          IsLate s t (wrap_int64 (at_most d s.retry_max +ℤ s.jitter random (at_most d s.retry_max)))
    by_tests n = elim (Bool-cases (ltb n (2 ^ 63))) [
      | inl b ↦ rw b (by_delay (pos n) (ground (arith, b)))
      | inr b ↦ rw b (by_delay s.overflowed is_int64)
    ]

-- Where the doubled base reaches 2^63 nanoseconds and the conversion gives a negative int64, as on
-- amd64, a retry with the default jitter is due at once, and not after RetryMax.
pub retry_overflows :
    (s : Service) (e : Mailer) (m : EmailOutbox) (now : Time) (x : GoError) (k : ℕ)
    → s.jitter ≡ default_jitter
    → s.overflowed ≡ negsuc k
    → k < 2 ^ 63
    → 2 ^ 63 ≤ s.retry_base * 2 ^ m.attempt_count
    → (retry s e m now x).available_at.nanos ≤ now.nanos
unfolding retry_delay default_jitter duration_of retry
retry_overflows s e m now x k usual negative is_int64 large =
    subst (λ z. (shift_time now z).nanos ≤ now.nanos) (sym is_negative) (omega arith)
  where
    by_tests :
        (n : ℕ)
        → 2 ^ 63 ≤ n
        → at_most (if ltb n (2 ^ 63) then pos n else s.overflowed) s.retry_max ≡ negsuc k
    by_tests n h = ground (arith, h, negative)

    same_attempt : m.attempt_count + 1 - 1 ≡ m.attempt_count
    same_attempt = omega arith

    is_negative : retry_delay s (e.random m.id) (m.attempt_count + 1) ≡ negsuc k
    is_negative =
        ap (λ z. wrap_int64 (z +ℤ s.jitter (e.random m.id) z))
          (by_tests _ (subst (λ n. 2 ^ 63 ≤ s.retry_base * 2 ^ n) (sym same_attempt) large))
        ∙ ap (λ f. wrap_int64 (negsuc k +ℤ f (e.random m.id) (negsuc k))) usual
        ∙ ap wrap_int64 (plus_zero k)
        ∙ wrap_int64-IsInt64 (negsuc k) is_int64
