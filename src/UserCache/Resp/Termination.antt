-- ===== src/UserCache/Resp/Termination.antt =====
-- The fuel of readRESP's model: the depth of its calls is bounded by the bytes of the input.
use rtk_account_manager.Common.{
  ℕ, zero, suc, ◌+◌, ◌*◌, ◌≤◌, ◌<◌, ◌≡◌, ◌≢◌, Option, some, none, [], ◌∷◌, length, drop, ltb, ◌==◌,
  ℤ, pos, negsuc, refl, arith, Option-cases, Bool-cases, inl, inr, Bool, true, false, if◌then◌else◌,
}
use rtk_account_manager.UserCache.Resp.{
  Reply, text, integer, ReadError, server_error, bad_number, bad_prefix, end_of_input, or_fail,
  panic_if, Reply, Read, done, out_of_fuel, failed, panicked, read_line, trim_cr, read_many,
  read_bulk, read_array, read_kind, read_resp, ◌>>=◌,
}
use rtk_account_manager.UserCache.Resp.Decimal.{Bytes, parse_int}

-- What a read leaves of its input is no longer than the input.
abbrev Shrinks {ℓ} : {A : Type ℓ} → (Bytes → Read (A × Bytes)) → Type ℓ
Shrinks {A} read =
    (input : Bytes) (a : A) (rest : Bytes)
    → read input ≡ done (a, rest)
    → length rest ≤ length input

>>=-eq-done {ℓ κ} :
    {A : Type ℓ} {B : Type κ} (m : Read A) (next : A → Read B) {b : B}
    → (m >>= next) ≡ done b
    → (a : A) × (m ≡ done a) × (next a ≡ done b)
>>=-eq-done (done a) next h = (a, refl, h)
>>=-eq-done (failed e) next h = cc
>>=-eq-done panicked next h = cc
>>=-eq-done out_of_fuel next h = cc

length-drop-le : (n : ℕ) (xs : Bytes) → length (drop n xs) ≤ length xs
length-drop-le zero xs = omega arith
length-drop-le (suc n) [] = omega arith
length-drop-le (suc n) (x ∷ xs) = omega (arith, length-drop-le n xs)

read_line-lt :
    (input line rest : Bytes) → read_line input ≡ some (line, rest) → length rest < length input
read_line-lt [] line rest h = cc
read_line-lt (b ∷ bs) line rest h = elim (Option-cases (read_line bs)) [
  | inl ends ↦ ground arith
  | inr found ↦ ground (arith, read_line-lt bs found.0.0 found.0.1 found.1)
]

read_many-Shrinks :
    (read : Bytes → Read (Reply × Bytes))
    → Shrinks read
    → (count : ℕ) → Shrinks (read_many read count)
read_many-Shrinks read shrinks zero input vs rest h = ground arith
read_many-Shrinks read shrinks (suc count) input vs rest h =
    let (one, was, next) = >>=-eq-done (read input) _ h in
    let (more, were, last) = >>=-eq-done (read_many read count one.1) _ next in
    ground (
      arith,
      shrinks input one.0 one.1 was,
      read_many-Shrinks read shrinks count one.1 more.0 more.1 were,
    )

module _ (max_alloc : ℕ) where
  read_bulk-Shrinks : (size : ℤ) → Shrinks (read_bulk max_alloc size)
  read_bulk-Shrinks (negsuc n) input v rest h = ground arith
  read_bulk-Shrinks (pos n) input v rest h = ground (arith, length-drop-le (n + 2) input)

  read_array-Shrinks :
      (read : Bytes → Read (Reply × Bytes))
      → Shrinks read
      → (count : ℤ) → Shrinks (read_array max_alloc read count)
  read_array-Shrinks read shrinks (negsuc n) input v rest h = ground arith
  read_array-Shrinks read shrinks (pos n) input v rest h =
      elim (Bool-cases (ltb max_alloc (16 * n))) [
        | inl large ↦ absurd (ground arith)
        | inr small ↦
            let (items, were, last) = >>=-eq-done (read_many read n input) _ (rw (small) at h) in
            ground (arith, read_many-Shrinks read shrinks n input items.0 items.1 were)
      ]

  -- What holds of the two sides in each case holds of the switch.
  read_kind-Related {κ} :
      (R : Read (Reply × Bytes) → Read (Reply × Bytes) → Type κ)
      (read read' : Bytes → Read (Reply × Bytes)) (prefix : ℕ) (line input : Bytes)
      → ((reply : Reply) → R (done (reply, input)) (done (reply, input)))
      → ((e : ReadError) → R (failed e) (failed e))
      → ((size : ℤ) → R (read_bulk max_alloc size input) (read_bulk max_alloc size input))
      → ((count : ℤ)
          → R (read_array max_alloc read count input) (read_array max_alloc read' count input))
      → R (read_kind max_alloc read prefix line input) (read_kind max_alloc read' prefix line input)
  read_kind-Related R read read' prefix line input on_done on_failed on_bulk on_array =
      either (prefix == b'+') (on_done (text line)) (
        either (prefix == b'-') (on_failed (server_error line)) (
          either (prefix == b':')
            (number (λ n. done (integer n, input)) (λ n. done (integer n, input))
              (λ n. on_done (integer n)))
            (either (prefix == b'$') (number _ _ on_bulk)
              (either (prefix == b'*') (number _ _ on_array) (on_failed (bad_prefix prefix))))))
    where
      either :
          {x x' y y' : Read (Reply × Bytes)} (b : Bool)
          → R x x'
          → R y y'
          → R (if b then x else y) (if b then x' else y')
      either true first second = first
      either false first second = second

      number :
          (next next' : ℤ → Read (Reply × Bytes))
          → ((n : ℤ) → R (next n) (next' n))
          → R
              (or_fail (parse_int line) (bad_number line) >>= next)
              (or_fail (parse_int line) (bad_number line) >>= next')
      number next next' each = go (parse_int line)
        where
          go :
              (n : Option ℤ)
              → R (or_fail n (bad_number line) >>= next) (or_fail n (bad_number line) >>= next')
          go none = on_failed (bad_number line)
          go (some n) = each n

  read_kind-Shrinks :
      (read : Bytes → Read (Reply × Bytes))
      → Shrinks read
      → (prefix : ℕ) (line : Bytes) → Shrinks (read_kind max_alloc read prefix line)
  read_kind-Shrinks read shrinks prefix line input =
      read_kind-Related
        (λ x y. (v : Reply) (rest : Bytes) → x ≡ done (v, rest) → length rest ≤ length input) read
        read prefix line input (λ reply v rest h. ground arith) (λ e v rest h. cc)
        (λ size. read_bulk-Shrinks size input)
        (λ count. read_array-Shrinks read shrinks count input)

  read_resp-Shrinks : (fuel : ℕ) → Shrinks (read_resp max_alloc fuel)
  unfolding read_resp
  read_resp-Shrinks zero input v rest h = cc
  read_resp-Shrinks (suc fuel) [] v rest h = cc
  read_resp-Shrinks (suc fuel) (prefix ∷ input) v rest h = elim (Option-cases (read_line input)) [
    | inl ends ↦ absurd (ground arith)
    | inr found ↦ omega (
      arith,
      read_line-lt input found.0.0 found.0.1 found.1,
      read_kind-Shrinks (read_resp max_alloc fuel) (read_resp-Shrinks fuel) prefix
          (trim_cr found.0.0) found.0.1 v rest (rw (found.1) at h),
    )
  ]

-- Two runs of which the one with less fuel has had enough.
abbrev Ends {ℓ} : {A : Type ℓ} → Read A → Read A → Type ℓ
Ends x y = (x ≡ y) × (x ≢ out_of_fuel)

>>=-Ends {ℓ κ} :
    {A : Type ℓ} {B : Type κ} (x y : Read A) (next next' : A → Read B)
    → Ends x y
    → ((a : A) → x ≡ done a → Ends (next a) (next' a))
    → Ends (x >>= next) (y >>= next')
>>=-Ends (done a) y next next' (same, stops) each = rw (← same) (each a refl)
>>=-Ends (failed e) y next next' (same, stops) each = (rw (← same), λ h. cc)
>>=-Ends panicked y next next' (same, stops) each = (rw (← same), λ h. cc)
>>=-Ends out_of_fuel y next next' (same, stops) each = absurd (stops refl)

or_fail-Ends {ℓ} : {A : Type ℓ} (o : Option A) (e : ReadError) → Ends (or_fail o e) (or_fail o e)
or_fail-Ends none e = (refl, λ h. cc)
or_fail-Ends (some a) e = (refl, λ h. cc)

or_fail-eq-done {ℓ} :
    {A : Type ℓ} (o : Option A) (e : ReadError) {a : A} → or_fail o e ≡ done a → o ≡ some a
or_fail-eq-done none e h = cc
or_fail-eq-done (some a) e h = cc

read_many-Ends :
    (read read' : Bytes → Read (Reply × Bytes)) (bound : ℕ)
    → Shrinks read
    → ((input : Bytes) → length input < bound → Ends (read input) (read' input))
    → (count : ℕ) (input : Bytes) → length input < bound
    → Ends (read_many read count input) (read_many read' count input)
read_many-Ends read read' bound shrinks each zero input h = (refl, λ e. cc)
read_many-Ends read read' bound shrinks each (suc count) input h =
    >>=-Ends (read input) (read' input) _ _ (each input h) λ one was.
      >>=-Ends (read_many read count one.1) (read_many read' count one.1) _ _
        (read_many-Ends read read' bound shrinks each count one.1
          (omega (arith, shrinks input one.0 one.1 was)))
        λ more were. (refl, λ e. cc)

module _ (max_alloc : ℕ) where
  read_array-Ends :
      (read read' : Bytes → Read (Reply × Bytes)) (count : ℤ) (input : Bytes)
      → ((n : ℕ) → Ends (read_many read n input) (read_many read' n input))
      → Ends (read_array max_alloc read count input) (read_array max_alloc read' count input)
  read_array-Ends read read' (negsuc n) input each = (refl, λ e. cc)
  read_array-Ends read read' (pos n) input each =
      >>=-Ends (panic_if (ltb max_alloc (16 * n))) _ _ _ (check (ltb max_alloc (16 * n)))
        λ checked was.
          >>=-Ends (read_many read n input) (read_many read' n input) _ _ (each n)
            λ items were. (refl, λ e. cc)
    where
      check : (b : Bool) → Ends (panic_if b) (panic_if b)
      check true = (refl, λ e. cc)
      check false = (refl, λ e. cc)

  read_bulk-Ends :
      (size : ℤ) (input : Bytes)
      → Ends (read_bulk max_alloc size input) (read_bulk max_alloc size input)
  read_bulk-Ends (negsuc n) input = (refl, λ e. cc)
  read_bulk-Ends (pos n) input = (refl, λ e. ground arith)

  -- readRESP ends on every input, well formed or not: where the fuel, which bounds how deep its calls
  -- are nested, is greater than the number of the input's bytes, it does not run out, and other fuel
  -- that is also greater gives the same.
  pub read_resp-Ends :
      (fuel more : ℕ) (input : Bytes)
      → length input < fuel
      → length input < more
      → (read_resp max_alloc fuel input ≡ read_resp max_alloc more input)
        × (read_resp max_alloc fuel input ≢ out_of_fuel)
  unfolding read_resp
  read_resp-Ends zero more input h k = elim h [ ]
  read_resp-Ends (suc fuel) zero input h k = elim k [ ]
  read_resp-Ends (suc fuel) (suc more) [] h k = (refl, λ e. cc)
  read_resp-Ends (suc fuel) (suc more) (prefix ∷ input) h k =
      >>=-Ends (or_fail (read_line input) end_of_input) _ _ _
        (or_fail-Ends (read_line input) end_of_input)
        λ split was.
          read_kind-Related max_alloc Ends (read_resp max_alloc fuel) (read_resp max_alloc more)
            prefix (trim_cr split.0) split.1 (λ reply. (refl, λ e. cc)) (λ e. (refl, λ e. cc))
            (λ size. read_bulk-Ends size split.1)
            (λ count.
              read_array-Ends (read_resp max_alloc fuel) (read_resp max_alloc more) count split.1
                (λ n.
                  read_many-Ends (read_resp max_alloc fuel) (read_resp max_alloc more)
                    (length (prefix ∷ input)) (read_resp-Shrinks max_alloc fuel)
                    (λ inner short. read_resp-Ends fuel more inner (omega arith) (omega arith)) n
                    split.1
                    (omega (
                      arith,
                      read_line-lt input split.0 split.1
                          (or_fail-eq-done (read_line input) end_of_input was),
                    ))))
