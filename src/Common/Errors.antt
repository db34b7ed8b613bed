-- ===== src/Common/Errors.antt =====
-- Go errors as trees, the tests that the program makes on them, and results.
use Prim.Native.String.{String}
use mathlib.Core.Path.{◌≡◌, refl}
use mathlib.Core.Logic.{◌⊎◌, inl, inr}
use mathlib.Core.Bool.{Bool, true, false}

-- What a validation error says behind the name of the field. The values that the messages quote
-- are kept, their wording is not.
pub data Reason : Type 0 where
  must_be_non_empty must_be_set must_be_uuid must_use_utc : Reason
  unsupported_value : String → Reason
  must_use : String → String → Reason
  must_equal_account_device_id : Reason
  must_be_lowercase_sha256 must_be_positive requires_services_and_digest must_be_sha256 : Reason
  too_many_options invalid_option_code duplicate_option : Reason
  requires_device_logging unsupported_entitlement_state revisions_must_be_positive : Reason
  revision_and_time_required : Reason

pub data GoError : Type 0 where
  canceled not_found conflict disabled : GoError
  plain : String → GoError
  field_error : String → Reason → GoError
  unsupported_message_type : String → GoError
  partition_key_mismatch : String → String → GoError
  unexpected_stream : String → GoError
  wrapped : String → GoError → GoError
  publish_error : GoError → Bool → GoError
  delivery_error : GoError → Bool → GoError

-- What a function that returns a value and an error gives: one of the two.
pub data Result {ℓ} (T : Type ℓ) : Type ℓ where
  err : GoError → Result T
  ok : T → Result T

-- `if test { return err }`
abbrev pub refuse_if : Bool → GoError → Result (Unit {0})
refuse_if false reason = ok tt
refuse_if true reason = err reason

abbrev pub map_error {ℓ} : {T : Type ℓ} → (GoError → GoError) → Result T → Result T
map_error f (err e) = err (f e)
map_error f (ok t) = ok t

infixl 5 ◌>>=◌
-- `if err != nil { return err }` after a call
abbrev pub ◌>>=◌ {ℓ κ} : {S : Type ℓ} {T : Type κ} → Result S → (S → Result T) → Result T
err e >>= next = err e
ok s >>= next = next s

infixl 5 ◌>>◌
abbrev pub ◌>>◌ {ℓ} : {T : Type ℓ} → Result (Unit {0}) → Result T → Result T
check >> next = check >>= λ done. next

-- errors.Is(err, context.Canceled); store.ErrNotFound and ErrConflict below likewise
abbrev pub is_canceled : GoError → Bool
is_canceled canceled = true
is_canceled (wrapped s e) = is_canceled e
is_canceled (publish_error e b) = is_canceled e
is_canceled (delivery_error e b) = is_canceled e
is_canceled _ = false

abbrev pub is_not_found : GoError → Bool
is_not_found not_found = true
is_not_found (wrapped s e) = is_not_found e
is_not_found (publish_error e b) = is_not_found e
is_not_found (delivery_error e b) = is_not_found e
is_not_found _ = false

abbrev pub is_conflict : GoError → Bool
is_conflict conflict = true
is_conflict (wrapped s e) = is_conflict e
is_conflict (publish_error e b) = is_conflict e
is_conflict (delivery_error e b) = is_conflict e
is_conflict _ = false

-- Inversion of a successful sequence and of its parts.
pub >>-eq-ok {ℓ} :
    {T : Type ℓ} (check : Result (Unit {0})) (next : Result T) {t : T}
    → (check >> next) ≡ ok t
    → (check ≡ ok tt) × (next ≡ ok t)
>>-eq-ok (err e) next returned = cc
>>-eq-ok (ok done) next returned = (refl, returned)

pub >>=-eq-ok {ℓ κ} :
    {S : Type ℓ} {T : Type κ} (call : Result S) (next : S → Result T) {t : T}
    → (call >>= next) ≡ ok t
    → (s : S) × (call ≡ ok s) × (next s ≡ ok t)
>>=-eq-ok (err e) next returned = cc
>>=-eq-ok (ok s) next returned = (s, refl, returned)

pub map_error-eq-ok {ℓ} :
    {A : Type ℓ} (f : GoError → GoError) (r : Result A) {a : A} → map_error f r ≡ ok a → r ≡ ok a
map_error-eq-ok f (ok a) h = h
map_error-eq-ok f (err e) h = cc

pub refuse_if-eq-ok : (b : Bool) (e : GoError) → refuse_if b e ≡ ok tt → b ≡ false
refuse_if-eq-ok true e h = cc
refuse_if-eq-ok false e h = refl

pub Result-cases {ℓ} :
    {A : Type ℓ} (r : Result A) → ((a : A) × (r ≡ ok a)) ⊎ ((x : GoError) × (r ≡ err x))
Result-cases (ok a) = inl (a, refl)
Result-cases (err x) = inr (x, refl)
