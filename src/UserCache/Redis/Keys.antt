-- ===== src/UserCache/Redis/Keys.antt =====
-- The keys of internal/usercache/redis.go: the three kinds of entries of a user never share one.
use Prim.Native.Char.{Char, code}
use Prim.Native.String.{◌++◌}
use text.Mathlib.TextLemmas.{cons-append, append_cancel_left, append_assoc}
use rtk_account_manager.Common.{
  ℕ, zero, suc, String, ◌≡◌, ◌≢◌, refl, sym, ap, ◌∙◌, false, Option, none, some, ◌==◌, arith,
}

abbrev nth : ℕ → String → Option Char
nth n String.[] = none
nth zero (String.◌∷◌ c s) = some c
nth (suc n) (String.◌∷◌ c s) = nth n s

nth-append : (n : ℕ) (s x : String) (c : Char) → nth n s ≡ some c → nth n (s ++ x) ≡ some c
nth-append n String.[] x c h = cc
nth-append zero (String.◌∷◌ d s) x c h = ap (nth zero) (cons-append d s x) ∙ h
nth-append (suc n) (String.◌∷◌ d s) x c h =
    ap (nth (suc n)) (cons-append d s x) ∙ nth-append n s x c h

abbrev code_or_zero : Option Char → ℕ
code_or_zero none = 0
code_or_zero (some c) = code c

differ :
    (n : ℕ) (a b x y : String) (c d : Char)
    → nth n a ≡ some c
    → nth n b ≡ some d
    → code c == code d ≡ false
    → a ++ x ≢ b ++ y
differ n a b x y c d at_a at_b apart h =
    let same : code c ≡ code d =
      ap code_or_zero (sym (nth-append n a x c at_a) ∙ ap (nth n) h ∙ nth-append n b y d at_b) in
    ground (arith, same, apart)

module _ (p : String) where
  under_prefix : (a b x y : String) → (p ++ a) ++ x ≡ (p ++ b) ++ y → a ++ x ≡ b ++ y
  under_prefix a b x y h =
      append_cancel_left p (a ++ x) (b ++ y) (sym (append_assoc p a x) ∙ h ∙ append_assoc p b y)

  pub id_not_email : (x y : String) → (p ++ ":platform:id:") ++ x ≢ (p ++ ":platform:email:") ++ y
  id_not_email x y h =
      differ 10 ":platform:id:" ":platform:email:" x y "i" "e" refl refl refl
        (under_prefix ":platform:id:" ":platform:email:" x y h)

  pub id_not_auth : (x y : String) → (p ++ ":platform:id:") ++ x ≢ (p ++ ":platform:auth:") ++ y
  id_not_auth x y h =
      differ 10 ":platform:id:" ":platform:auth:" x y "i" "a" refl refl refl
        (under_prefix ":platform:id:" ":platform:auth:" x y h)

  pub email_not_auth :
      (x y : String) → (p ++ ":platform:email:") ++ x ≢ (p ++ ":platform:auth:") ++ y
  email_not_auth x y h =
      differ 10 ":platform:email:" ":platform:auth:" x y "e" "a" refl refl refl
        (under_prefix ":platform:email:" ":platform:auth:" x y h)
