-- ===== src/Common/Times.antt =====
-- Go's time.Time and integers, as far as the program reads them.
use Prim.Native.Nat.{ℕ, zero, suc, ◌+◌, ◌-◌, ◌*◌, ◌%◌}
use mathlib.Core.Bool.{Bool, true, false}
use rtk_account_manager.Common.Tests.{◌==◌, ltb, if◌then◌else◌}

-- `negsuc n` is -(n + 1).
pub data ℤ : Type 0 where
  pos : ℕ → ℤ
  negsuc : ℕ → ℤ

abbrev pub is_zero_int : ℤ → Bool
is_zero_int (pos n) = n == 0
is_zero_int (negsuc n) = false

-- i < 1
abbrev pub is_below_one : ℤ → Bool
is_below_one (pos n) = n == 0
is_below_one (negsuc n) = true

-- i <= 0 ? d : i, for an option that a zero or negative value leaves at its default
abbrev pub positive_or : ℤ → ℕ → ℕ
positive_or (pos zero) d = d
positive_or (pos (suc n)) d = suc n
positive_or (negsuc n) d = d

infixl 60 ◌+ℤ◌
-- without the wrap-around of int64
abbrev pub ◌+ℤ◌ : ℤ → ℤ → ℤ
pos m +ℤ pos n = pos (m + n)
pos m +ℤ negsuc n = if ltb n m then pos (m - suc n) else negsuc (n - m)
negsuc m +ℤ pos n = if ltb m n then pos (n - suc m) else negsuc (m - n)
negsuc m +ℤ negsuc n = negsuc (suc (m + n))

-- An instant in nanoseconds and the zone's offset in seconds. The origin lies one day before the
-- start of year 0, before every time that RFC 3339 text can denote.
pub record Time : Type 0 where
  pub nanos : ℕ
  pub offset : ℤ

-- 0001-01-01T00:00:00Z, Go's zero time: 366 + 1 days after the origin.
abbrev pub zero_instant : ℕ
zero_instant = 367 * 86400 * 1000000000

abbrev pub is_zero : Time → Bool
is_zero t = t.nanos == zero_instant

abbrev pub utc : Time → Time
utc t = record { nanos = t.nanos; offset = pos 0 }

-- t.Truncate(time.Microsecond); the zero time is a whole number of microseconds from the origin.
abbrev pub truncate : Time → Time
truncate t = record { nanos = t.nanos - t.nanos % 1000; offset = t.offset }

-- t.Add(d) for d of whole nanoseconds
abbrev pub add_time : Time → ℕ → Time
add_time t d = record { nanos = t.nanos + d; offset = t.offset }

-- t.Add(d) for a d of either sign
abbrev pub shift_time : Time → ℤ → Time
shift_time t (pos n) = add_time t n
shift_time t (negsuc n) = record { nanos = t.nanos - suc n; offset = t.offset }

abbrev pub time_before : Time → Time → Bool
time_before t u = ltb t.nanos u.nanos

abbrev pub time_equal : Time → Time → Bool
time_equal t u = t.nanos == u.nanos
