-- ===== src/UserCache/Resp/Decimal.antt =====
-- Decimal numbers in bytes, as fmt's %d writes and strconv.Atoi reads them.
use rtk_account_manager.Common.{
  ℕ, zero, suc, ◌+◌, ◌-◌, ◌*◌, ◌/◌, ◌%◌, ◌<◌, ◌≡◌, inl, inr, true, false, ◌&&◌, Option, none, some,
  List, [], ◌∷◌, ltb, leb, ◌==◌, if◌then◌else◌, All, ℤ, pos, negsuc, arith, Bool-cases, refl, subst,
  sym, ap, ◌∙◌,
}

abbrev pub Bytes : Type 0
Bytes = List ℕ

-- The digits of n in front of `out`.
abbrev digits_before : ℕ → ℕ → Bytes → Bytes
digits_before zero n out = out
digits_before (suc fuel) n out = elim (ltb n 10) [
  | true ↦ (48 + n) ∷ out
  | false ↦ digits_before fuel (n / 10) ((48 + n % 10) ∷ out)
]

-- %d of a number that is not negative
unfoldable pub decimal : ℕ → Bytes
decimal n = digits_before (suc n) n []

-- The value of digits behind a number that has been read, or `none` at any other byte.
abbrev scan_digits : ℕ → Bytes → Option ℕ
scan_digits n [] = some n
scan_digits n (b ∷ bs) =
    let rest = scan_digits (n * 10 + (b - 48)) bs in if leb 48 b && leb b 57 then rest else none

-- A number of one digit or more.
abbrev parse_digits : Bytes → Option ℕ
parse_digits [] = none
parse_digits (b ∷ bs) = scan_digits 0 (b ∷ bs)

-- 2^63
abbrev pub int_bound : ℕ
int_bound = 9223372036854775808

abbrev as_positive : Option ℕ → Option ℤ
as_positive none = none
as_positive (some n) = if ltb n int_bound then some (pos n) else none

abbrev as_negative : Option ℕ → Option ℤ
as_negative none = none
as_negative (some zero) = some (pos 0)
as_negative (some (suc n)) = if ltb n int_bound then some (negsuc n) else none

-- strconv.Atoi and strconv.ParseInt(s, 10, 64) on a machine of 64 bits; `none` is an error.
unfoldable pub parse_int : Bytes → Option ℤ
parse_int [] = none
parse_int (b ∷ bs) =
    if b == b'-'
    then as_negative (parse_digits bs)
    else if b == b'+'
    then as_positive (parse_digits bs)
    else as_positive (parse_digits (b ∷ bs))

abbrev pub IsDigit : ℕ → Type 0
IsDigit b = (47 < b) × (b < 58)

digits_before-All :
    (fuel n : ℕ) (out : Bytes) → All IsDigit out → All IsDigit (digits_before fuel n out)
digits_before-All zero n out h = h
digits_before-All (suc fuel) n out h = elim (Bool-cases (ltb n 10)) [
  | inl one ↦ rw (one, All) ((ground arith, ground arith), h)
  | inr more ↦
      rw (more, All)
        (digits_before-All fuel (n / 10) ((48 + n % 10) ∷ out) ((omega arith, omega arith), h))
]

-- A number is written in digits.
pub decimal-All : (n : ℕ) → All IsDigit (decimal n)
unfolding decimal
decimal-All n = digits_before-All (suc n) n [] tt

scan_digits-digits_before :
    (fuel n : ℕ) (out : Bytes)
    → n < fuel
    → scan_digits 0 (digits_before fuel n out) ≡ scan_digits n out
scan_digits-digits_before zero n out h = elim h [ ]
scan_digits-digits_before (suc fuel) n out h = elim (Bool-cases (ltb n 10)) [
  | inl one ↦ ground arith
  | inr more ↦ ground (arith, scan_digits-digits_before fuel (n / 10) ((48 + n % 10) ∷ out))
]

digits_before-ne-nil :
    (fuel n c : ℕ) (out : Bytes)
    → (d : ℕ) × (ds : Bytes) × (digits_before fuel n (c ∷ out) ≡ d ∷ ds)
digits_before-ne-nil zero n c out = (c, out, refl)
digits_before-ne-nil (suc fuel) n c out = elim (Bool-cases (ltb n 10)) [
  | inl one ↦ (48 + n, c ∷ out, rw (one, digits_before))
  | inr more ↦ rw (more, digits_before) (digits_before-ne-nil fuel (n / 10) (48 + n % 10) (c ∷ out))
]

decimal-cons : (n : ℕ) → (d : ℕ) × (ds : Bytes) × (decimal n ≡ d ∷ ds)
unfolding decimal
decimal-cons n = elim (Bool-cases (ltb n 10)) [
  | inl one ↦ (48 + n, [], rw (one, digits_before))
  | inr more ↦ rw (more, digits_before) (digits_before-ne-nil n (n / 10) (48 + n % 10) [])
]

scan_digits-decimal : (n : ℕ) → scan_digits 0 (decimal n) ≡ some n
unfolding decimal
scan_digits-decimal n = scan_digits-digits_before (suc n) n [] (omega arith)

parse_int-digits :
    (b : ℕ) (bs : Bytes) (n : ℕ)
    → IsDigit b
    → n < int_bound
    → scan_digits 0 (b ∷ bs) ≡ some n
    → parse_int (b ∷ bs) ≡ some (pos n)
unfolding parse_int
parse_int-digits b bs n digit small scanned = ground arith

-- What is written in decimal is read back.
pub parse_int-decimal : (n : ℕ) → n < int_bound → parse_int (decimal n) ≡ some (pos n)
parse_int-decimal n small =
    let (d, ds, written) = decimal-cons n in
    rw written (
      parse_int-digits d ds n (subst (All IsDigit) written (decimal-All n)).0 small
        (sym (ap (scan_digits 0) written) ∙ scan_digits-decimal n))
