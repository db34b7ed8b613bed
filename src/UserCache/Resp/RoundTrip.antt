-- ===== src/UserCache/Resp/RoundTrip.antt =====
-- readRESP on what writeRESPCommand writes.
use rtk_account_manager.Common.{
  ℕ, suc, ◌+◌, ◌*◌, ◌≤◌, ◌<◌, ◌≡◌, some, List, [], ◌∷◌, ◌++◌, length, take, drop, All, refl, arith,
  ◌∙◌, ltb, false,
}
use mathlib.Core.List.{append_assoc}
use rtk_account_manager.UserCache.Resp.{
  text, texts, Replies, no_more, and_then, done, write_argument, write_arguments,
  write_resp_command, read_line, trim_cr, read_full, read_many, read_kind, assemble, all_texts,
  read_resp,
}
use rtk_account_manager.UserCache.Resp.Decimal.{
  Bytes, decimal, int_bound, IsDigit, decimal-All, parse_int-decimal,
}

-- A line of digits with its end is read as it was written.
read_line-digits :
    (ds rest : Bytes)
    → All IsDigit ds
    → read_line (ds ++ 13 ∷ 10 ∷ rest) ≡ some (ds ++ 13 ∷ [], rest)
read_line-digits [] rest h = refl
read_line-digits (d ∷ ds) rest (one, more) = ground (arith, read_line-digits ds rest more)

trim_cr-append : (ds : Bytes) → trim_cr (ds ++ 13 ∷ []) ≡ ds
trim_cr-append [] = refl
trim_cr-append (d ∷ []) = refl
trim_cr-append (d ∷ e ∷ ds) = cc (trim_cr-append (e ∷ ds))

length-append : (xs ys : Bytes) → length (xs ++ ys) ≡ length xs + length ys
length-append [] ys = omega arith
length-append (x ∷ xs) ys = omega (arith, length-append xs ys)

take-append-end :
    (arg rest : Bytes) → take (length arg + 2) (arg ++ 13 ∷ 10 ∷ rest) ≡ arg ++ 13 ∷ 10 ∷ []
take-append-end [] rest = refl
take-append-end (b ∷ bs) rest = ground (arith, take-append-end bs rest)

drop-append-end : (arg rest : Bytes) → drop (length arg + 2) (arg ++ 13 ∷ 10 ∷ rest) ≡ rest
drop-append-end [] rest = refl
drop-append-end (b ∷ bs) rest = ground (arith, drop-append-end bs rest)

read_full-append :
    (arg rest : Bytes)
    → read_full (length arg + 2) (arg ++ 13 ∷ 10 ∷ rest) ≡ some (arg ++ 13 ∷ 10 ∷ [], rest)
read_full-append arg rest =
    ground (
      arith,
      length-append arg (13 ∷ 10 ∷ rest),
      take-append-end arg rest,
      drop-append-end arg rest,
    )

take-append : (arg more : Bytes) → take (length arg) (arg ++ more) ≡ arg
take-append [] more = refl
take-append (b ∷ bs) more = cc (take-append bs more)

as_replies : List Bytes → Replies
as_replies [] = no_more
as_replies (t ∷ ts) = and_then (text t) (as_replies ts)

all_texts-as_replies : (ts : List Bytes) → all_texts (as_replies ts) ≡ some ts
unfolding as_replies
all_texts-as_replies [] = refl
all_texts-as_replies (t ∷ ts) = rw (all_texts-as_replies ts)

assemble-as_replies : (ts : List Bytes) → assemble (as_replies ts) ≡ texts ts
unfolding as_replies
assemble-as_replies [] = refl
assemble-as_replies (a ∷ []) = refl
assemble-as_replies (a ∷ b ∷ []) = refl
assemble-as_replies (a ∷ b ∷ c ∷ ts) = rw (all_texts-as_replies ts)

lt-eq-false : (a b : ℕ) → b ≤ a → ltb a b ≡ false
lt-eq-false a b h = ground arith

module _ (max_alloc : ℕ) (representable : max_alloc < int_bound) where
  -- A reply whose first line is a number.
  read_resp-number :
      (fuel prefix n : ℕ) (body rest : Bytes)
      → read_resp max_alloc (suc fuel) (prefix ∷ ((decimal n ++ 13 ∷ 10 ∷ body) ++ rest))
        ≡ read_kind max_alloc (read_resp max_alloc fuel) prefix (decimal n) (body ++ rest)
  unfolding read_resp
  read_resp-number fuel prefix n body rest = rw (
    append_assoc (decimal n) (13 ∷ 10 ∷ body) rest,
    read_line-digits (decimal n) (body ++ rest) (decimal-All n),
    trim_cr-append (decimal n),
  )

  read_resp-argument :
      (fuel : ℕ) (arg rest : Bytes)
      → length arg + 2 ≤ max_alloc
      → read_resp max_alloc (suc fuel) (write_argument arg ++ rest) ≡ done (text arg, rest)
  read_resp-argument fuel arg rest fits =
      read_resp-number fuel b'$' (length arg) (arg ++ 13 ∷ 10 ∷ []) rest
      ∙ rw (
        parse_int-decimal (length arg) (omega arith),
        append_assoc arg (13 ∷ 10 ∷ []) rest,
        lt-eq-false max_alloc (length arg + 2) fits,
        read_full-append arg rest,
        take-append arg (13 ∷ 10 ∷ []),
      )

  read_many-arguments :
      (fuel : ℕ) (args : List Bytes) (rest : Bytes)
      → All (λ arg. length arg + 2 ≤ max_alloc) args
      → read_many (read_resp max_alloc (suc fuel)) (length args) (write_arguments args ++ rest)
        ≡ done (as_replies args, rest)
  unfolding as_replies
  read_many-arguments fuel [] rest h = refl
  read_many-arguments fuel (arg ∷ args) rest (one, more) = rw (
    append_assoc (write_argument arg) (write_arguments args) rest,
    read_resp-argument fuel arg (write_arguments args ++ rest) one,
    read_many-arguments fuel args rest more,
  )

  -- A command that writeRESPCommand writes is read by readRESP as the array of its arguments, and
  -- what stands behind it is left: for every list of arguments, of any bytes, if each argument with
  -- its end and the array of the arguments are no larger than make allocates.
  pub read_resp-write_resp_command :
      (fuel : ℕ) (args : List Bytes) (rest : Bytes)
      → All (λ arg. length arg + 2 ≤ max_alloc) args
      → 16 * length args ≤ max_alloc
      → read_resp max_alloc (suc (suc fuel)) (write_resp_command args ++ rest)
        ≡ done (texts args, rest)
  unfolding write_resp_command
  read_resp-write_resp_command fuel args rest fits few =
      read_resp-number (suc fuel) b'*' (length args) (write_arguments args) rest
      ∙ rw (
        parse_int-decimal (length args) (omega arith),
        lt-eq-false max_alloc (16 * length args) few,
        read_many-arguments fuel args rest fits,
        assemble-as_replies args,
      )
