-- ===== src/Channel/Fields/Laws.antt =====
-- What validateServiceOptions of internal/channel/channel.go accepts.
use rtk_account_manager.Common.{
  String, eq_iff, ◌≡◌, ◌≢◌, ◌↔◌, ◌≤◌, true, false, not, refl, List, [], ◌∷◌, All, length, ltb, ok,
  field_error, refuse_if, too_many_options, invalid_option_code, duplicate_option, >>-eq-ok,
  refuse_if-eq-ok, arith,
}
use rtk_account_manager.Channel.Text.{is_service_option_code}
use rtk_account_manager.Channel.Fields.{contains, validate_options, validate_service_options}

abbrev pub IsDistinct : List String → Type 0
IsDistinct [] = Unit
IsDistinct (x ∷ xs) = All (λ y. x ≢ y) xs × IsDistinct xs

abbrev pub HasCodes : List String → Type 0
HasCodes = All (λ o. is_service_option_code o ≡ true)

absent : (xs : List String) (s : String) → contains xs s ≡ false → All (λ x. x ≢ s) xs
absent [] s h = tt
absent (x ∷ xs) s h = (λ e. ground (arith, eq_iff x s, e), absent xs s (ground arith))

absent_contains : (xs : List String) (s : String) → All (λ x. x ≢ s) xs → contains xs s ≡ false
absent_contains [] s h = refl
absent_contains (x ∷ xs) s h = ground (arith, eq_iff x s, absent_contains xs s h.1, h.0)

-- No option of the second list stands in the first.
abbrev IsFresh : List String → List String → Type 0
IsFresh seen = All (λ o. All (λ s. s ≢ o) seen)

IsFresh-cons :
    (o : String) (seen os : List String)
    → IsFresh (o ∷ seen) os
    → All (λ y. o ≢ y) os × IsFresh seen os
IsFresh-cons o seen [] h = (tt, tt)
IsFresh-cons o seen (p ∷ os) h = let (a, b) = IsFresh-cons o seen os h.1 in ((h.0.0, a), (h.0.1, b))

cons-IsFresh :
    (o : String) (seen os : List String)
    → All (λ y. o ≢ y) os
    → IsFresh seen os
    → IsFresh (o ∷ seen) os
cons-IsFresh o seen [] d f = tt
cons-IsFresh o seen (p ∷ os) d f = ((d.0, f.0), cons-IsFresh o seen os d.1 f.1)

validate_options-ok :
    (field : String) (seen os : List String)
    → validate_options field seen os ≡ ok tt
    → HasCodes os × IsFresh seen os × IsDistinct os
unfolding validate_options
validate_options-ok field seen [] h = (tt, tt, tt)
validate_options-ok field seen (o ∷ os) h =
    let (c, r) =
      >>-eq-ok (refuse_if (not (is_service_option_code o)) (field_error field invalid_option_code))
        _ h in
    let (d, r') = >>-eq-ok (refuse_if (contains seen o) (field_error field duplicate_option)) _ r in
    let (codes, fresh, distinct) = validate_options-ok field (o ∷ seen) os r' in
    let (apart, rest) = IsFresh-cons o seen os fresh in
    (
      (ground (arith, refuse_if-eq-ok _ _ c), codes),
      (absent seen o (refuse_if-eq-ok _ _ d), rest),
      (apart, distinct),
    )

ok-validate_options :
    (field : String) (seen os : List String)
    → HasCodes os
    → IsFresh seen os
    → IsDistinct os
    → validate_options field seen os ≡ ok tt
unfolding validate_options
ok-validate_options field seen [] c f d = refl
ok-validate_options field seen (o ∷ os) c f d =
    rw (c.0, absent_contains seen o f.0)
      (ok-validate_options field (o ∷ seen) os c.1 (cons-IsFresh o seen os d.0 f.1) d.1)

-- validateServiceOptions accepts exactly the lists of at most 64 options in which each option
-- matches the pattern of service option codes and no two are equal.
pub validate_service_options_iff :
    (field : String) (options : List String)
    → (validate_service_options field options ≡ ok tt)
      ↔ ((length options ≤ 64) × HasCodes options × IsDistinct options)
unfolding validate_service_options
validate_service_options_iff field options = (forth, back)
  where
    forth :
        validate_service_options field options ≡ ok tt
        → (length options ≤ 64) × HasCodes options × IsDistinct options
    forth h =
        let (few, r) =
          >>-eq-ok (refuse_if (ltb 64 (length options)) (field_error field too_many_options)) _ h in
        let (codes, fresh, distinct) = validate_options-ok field [] options r in
        (ground (arith, refuse_if-eq-ok _ _ few), codes, distinct)

    none_seen : (os : List String) → IsFresh [] os
    none_seen [] = tt
    none_seen (o ∷ os) = (tt, none_seen os)

    back :
        (length options ≤ 64) × HasCodes options × IsDistinct options
        → validate_service_options field options ≡ ok tt
    back (few, codes, distinct) =
        let small : ltb 64 (length options) ≡ false = ground arith in
        rw small (ok-validate_options field [] options codes (none_seen options) distinct)
