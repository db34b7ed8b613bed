-- ===== src/UserCache/Resp.antt =====
-- The wire protocol of internal/usercache/redis.go: writeRESPCommand and readRESP.
pub mod Decimal
pub mod RoundTrip
pub mod Termination
use rtk_account_manager.Common.{
  ℕ, zero, suc, ◌+◌, ◌*◌, Bool, true, false, Option, none, some, List, [], ◌∷◌, ◌++◌, ltb, leb,
  ◌==◌, if◌then◌else◌, length, take, drop, ℤ, pos, negsuc,
}
use rtk_account_manager.UserCache.Resp.Decimal.{Bytes, decimal, parse_int}

-- A reply: nil, string, int64, scanResult, []string and []any of the Go function's result.
mutual
  pub data Reply : Type 0 where
    nil : Reply
    text : Bytes → Reply
    integer : ℤ → Reply
    scan : Bytes → List Bytes → Reply
    texts : List Bytes → Reply
    values : Replies → Reply

  pub data Replies : Type 0 where
    no_more : Replies
    and_then : Reply → Replies → Replies

-- The end of the input stands for each error of the connection.
pub data ReadError : Type 0 where
  end_of_input : ReadError
  server_error : Bytes → ReadError
  bad_number : Bytes → ReadError
  bad_prefix : ℕ → ReadError

-- What a read comes to. `panicked` is a buffer that the runtime refuses to make.
pub data Read {ℓ} (A : Type ℓ) : Type ℓ where
  done : A → Read A
  failed : ReadError → Read A
  panicked out_of_fuel : Read A

infixl 5 ◌>>=◌
abbrev pub ◌>>=◌ {ℓ κ} : {A : Type ℓ} {B : Type κ} → Read A → (A → Read B) → Read B
done a >>= next = next a
failed e >>= next = failed e
panicked >>= next = panicked
out_of_fuel >>= next = out_of_fuel

-- The error of a call that may have no result.
abbrev pub or_fail {ℓ} : {A : Type ℓ} → Option A → ReadError → Read A
or_fail none e = failed e
or_fail (some a) e = done a

abbrev pub panic_if : Bool → Read (Unit {0})
panic_if true = panicked
panic_if false = done tt

-- `$<length>\r\n<bytes>\r\n`
abbrev pub write_argument : Bytes → Bytes
write_argument arg = b'$' ∷ (decimal (length arg) ++ 13 ∷ 10 ∷ (arg ++ 13 ∷ 10 ∷ []))

abbrev pub write_arguments : List Bytes → Bytes
write_arguments [] = []
write_arguments (arg ∷ args) = write_argument arg ++ write_arguments args

unfoldable pub write_resp_command : List Bytes → Bytes
write_resp_command args = b'*' ∷ (decimal (length args) ++ 13 ∷ 10 ∷ write_arguments args)

-- r.ReadString('\n'), without the newline, and what is left.
abbrev pub read_line : Bytes → Option (Bytes × Bytes)
read_line [] = none
read_line (b ∷ bs) =
    if b == 10
    then some ([], bs)
    else elim (read_line bs) [ none ↦ none | some (line, rest) ↦ some (b ∷ line, rest) ]

-- strings.TrimSuffix(line, "\r")
abbrev pub trim_cr : Bytes → Bytes
trim_cr [] = []
trim_cr (b ∷ []) = if b == 13 then [] else b ∷ []
trim_cr (b ∷ c ∷ bs) = b ∷ trim_cr (c ∷ bs)

-- io.ReadFull(r, buf) for a buffer of n bytes
abbrev pub read_full : ℕ → Bytes → Option (Bytes × Bytes)
read_full n input = if leb n (length input) then some (take n input, drop n input) else none

-- The strings among the items of a list.
abbrev pub keep_texts : Replies → List Bytes
keep_texts no_more = []
keep_texts (and_then (text t) vs) = t ∷ keep_texts vs
keep_texts (and_then _ vs) = keep_texts vs

-- The items, if all are strings.
abbrev pub all_texts : Replies → Option (List Bytes)
all_texts no_more = some []
all_texts (and_then (text t) vs) = elim (all_texts vs) [ none ↦ none | some ts ↦ some (t ∷ ts) ]
all_texts (and_then _ vs) = none

-- The reply to SCAN: two items, a string and a list.
abbrev pub as_scan : Replies → Option Reply
as_scan (and_then (text cursor) (and_then (texts keys) no_more)) = some (scan cursor keys)
as_scan (and_then (text cursor) (and_then (values vs) no_more)) = some (scan cursor (keep_texts vs))
as_scan _ = none

-- What readRESP returns for the items of an array.
abbrev pub assemble : Replies → Reply
assemble vs = elim (as_scan vs) [
  | some found ↦ found
  | none ↦ elim (all_texts vs) [ some ts ↦ texts ts | none ↦ values vs ]
]

-- The loop over the items of an array.
abbrev pub read_many : (Bytes → Read (Reply × Bytes)) → ℕ → Bytes → Read (Replies × Bytes)
read_many read zero input = done (no_more, input)
read_many read (suc count) input = read input >>= λ one.
    read_many read count one.1 >>= λ more. done (and_then one.0 more.0, more.1)

-- `max_alloc` is the number of bytes that `make` allocates at most.
module _ (max_alloc : ℕ) where
  -- case '$', behind the number
  abbrev pub read_bulk : ℤ → Bytes → Read (Reply × Bytes)
  read_bulk (negsuc n) input = done (nil, input)
  read_bulk (pos size) input = panic_if (ltb max_alloc (size + 2)) >>= λ checked.
      or_fail (read_full (size + 2) input) end_of_input >>= λ read.
      done (text (take size read.0), read.1)

  -- case '*', behind the number; an item takes 16 bytes
  abbrev pub read_array : (Bytes → Read (Reply × Bytes)) → ℤ → Bytes → Read (Reply × Bytes)
  read_array read (negsuc n) input = done (nil, input)
  read_array read (pos count) input = panic_if (ltb max_alloc (16 * count)) >>= λ checked.
      read_many read count input >>= λ items. done (assemble items.0, items.1)

  -- The switch on the prefix, for a line and the input behind it.
  abbrev pub read_kind : (Bytes → Read (Reply × Bytes)) → ℕ → Bytes → Bytes → Read (Reply × Bytes)
  read_kind read prefix line input =
      if prefix == b'+'
      then done (text line, input)
      else if prefix == b'-'
      then failed (server_error line)
      else if prefix == b':'
      then (or_fail (parse_int line) (bad_number line) >>= λ n. done (integer n, input))
      else if prefix == b'$'
      then (or_fail (parse_int line) (bad_number line) >>= λ size. read_bulk size input)
      else if prefix == b'*'
      then (or_fail (parse_int line) (bad_number line) >>= λ count. read_array read count input)
      else failed (bad_prefix prefix)

  -- readRESP on the bytes that the connection delivers, with what is left; the fuel bounds the
  -- depth of the calls.
  unfoldable pub read_resp : ℕ → Bytes → Read (Reply × Bytes)
  read_resp zero input = out_of_fuel
  read_resp (suc fuel) [] = failed end_of_input
  read_resp (suc fuel) (prefix ∷ input) = or_fail (read_line input) end_of_input >>= λ split.
      read_kind (read_resp fuel) prefix (trim_cr split.0) split.1
