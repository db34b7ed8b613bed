-- ===== src/UserCache/Text.antt =====
-- strings.TrimSpace and strings.ToLower on the texts of internal/usercache.
use Prim.Native.Char.{Char, code}
use rtk_account_manager.Common.{
  String, false, ◌≡◌, if◌then◌else◌, ◌∙◌, ap, refl, Bool-cases, inl, inr, arith,
}
use rtk_account_manager.Channel.Text.{is_space}

abbrev trim_start : String → String
trim_start String.[] = String.[]
trim_start (String.◌∷◌ c s) =
    let rest = trim_start s in if is_space (code c) then rest else String.◌∷◌ c s

-- `c` in front of a text whose end is trimmed already
abbrev cons_trimmed : Char → String → String
cons_trimmed c String.[] = if is_space (code c) then String.[] else String.◌∷◌ c String.[]
cons_trimmed c (String.◌∷◌ d s) = String.◌∷◌ c (String.◌∷◌ d s)

abbrev trim_end : String → String
trim_end String.[] = String.[]
trim_end (String.◌∷◌ c s) = cons_trimmed c (trim_end s)

-- strings.TrimSpace
unfoldable pub trim : String → String
trim s = trim_end (trim_start s)

abbrev map_chars : (Char → Char) → String → String
map_chars lower String.[] = String.[]
map_chars lower (String.◌∷◌ c s) = String.◌∷◌ (lower c) (map_chars lower s)

-- normalizeEmail; `lower` is unicode.ToLower.
unfoldable pub normalize_email : (Char → Char) → String → String
normalize_email lower email = map_chars lower (trim email)

map_chars-again :
    (lower : Char → Char)
    → ((c : Char) → lower (lower c) ≡ lower c)
    → (s : String) → map_chars lower (map_chars lower s) ≡ map_chars lower s
map_chars-again lower again String.[] = refl
map_chars-again lower again (String.◌∷◌ c s) = cc (again c, map_chars-again lower again s)

trim_start-map_chars :
    (lower : Char → Char)
    → ((c : Char) → is_space (code (lower c)) ≡ is_space (code c))
    → (s : String) → trim_start (map_chars lower s) ≡ map_chars lower (trim_start s)
trim_start-map_chars lower spaces String.[] = refl
trim_start-map_chars lower spaces (String.◌∷◌ c s) =
    ground (arith, spaces c, trim_start-map_chars lower spaces s)

cons_trimmed-map_chars :
    (lower : Char → Char)
    → ((c : Char) → is_space (code (lower c)) ≡ is_space (code c))
    → (c : Char) (s : String)
    → cons_trimmed (lower c) (map_chars lower s) ≡ map_chars lower (cons_trimmed c s)
cons_trimmed-map_chars lower spaces c String.[] = elim (Bool-cases (is_space (code c))) [
  | inl space ↦ rw (spaces c, space)
  | inr text ↦ rw (spaces c, text)
]
cons_trimmed-map_chars lower spaces c (String.◌∷◌ d s) = refl

trim_end-map_chars :
    (lower : Char → Char)
    → ((c : Char) → is_space (code (lower c)) ≡ is_space (code c))
    → (s : String) → trim_end (map_chars lower s) ≡ map_chars lower (trim_end s)
trim_end-map_chars lower spaces String.[] = refl
trim_end-map_chars lower spaces (String.◌∷◌ c s) =
    ap (cons_trimmed (lower c)) (trim_end-map_chars lower spaces s)
    ∙ cons_trimmed-map_chars lower spaces c (trim_end s)

-- Nothing is left to trim at the start of a text that does not begin with a space.
trim_start-trim_end : (s : String) → trim_start (trim_end (trim_start s)) ≡ trim_end (trim_start s)
trim_start-trim_end String.[] = refl
trim_start-trim_end (String.◌∷◌ c s) = elim (Bool-cases (is_space (code c))) [
  | inl space ↦ rw space (trim_start-trim_end s)
  | inr text ↦ rw text (begins c (trim_end s) text)
]
  where
    begins :
        (c : Char) (t : String)
        → is_space (code c) ≡ false
        → trim_start (cons_trimmed c t) ≡ cons_trimmed c t
    begins c String.[] text = ground (arith, text)
    begins c (String.◌∷◌ d t) text = ground (arith, text)

trim_end-again : (s : String) → trim_end (trim_end s) ≡ trim_end s
trim_end-again String.[] = refl
trim_end-again (String.◌∷◌ c s) = ends c (trim_end s) (trim_end-again s)
  where
    ends : (c : Char) (t : String) → trim_end t ≡ t → trim_end (cons_trimmed c t) ≡ cons_trimmed c t
    ends c String.[] same = elim (Bool-cases (is_space (code c))) [
      | inl space ↦ rw space
      | inr text ↦ rw (text, text)
    ]
    ends c (String.◌∷◌ d t) same = ap (cons_trimmed c) same

pub trim-trim : (s : String) → trim (trim s) ≡ trim s
unfolding trim
trim-trim s = ap trim_end (trim_start-trim_end s) ∙ trim_end-again (trim_start s)

-- normalizeEmail changes no text twice, if ToLower changes no letter twice and makes no spaces.
pub normalize_email-normalize_email :
    (lower : Char → Char)
    → ((c : Char) → lower (lower c) ≡ lower c)
    → ((c : Char) → is_space (code (lower c)) ≡ is_space (code c))
    → (email : String)
    → normalize_email lower (normalize_email lower email) ≡ normalize_email lower email
unfolding normalize_email trim
normalize_email-normalize_email lower again spaces email =
    let trimmed : trim (map_chars lower (trim email)) ≡ map_chars lower (trim email) =
      ap trim_end (trim_start-map_chars lower spaces (trim email))
      ∙ trim_end-map_chars lower spaces (trim_start (trim email))
      ∙ ap (map_chars lower) (trim-trim email) in
    ap (map_chars lower) trimmed ∙ map_chars-again lower again (trim email)
