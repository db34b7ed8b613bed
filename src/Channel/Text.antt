-- ===== src/Channel/Text.antt =====
-- The tests on text of internal/channel/channel.go, with what they use of strings and hex.
use rtk_account_manager.Common.{
  ℕ, ◌+◌, ◌-◌, ◌%◌, String, Bool, true, false, ◌&&◌, ◌||◌, List, [], ◌∷◌, ltb, leb, ◌==◌,
  if◌then◌else◌, length, take, drop, get_or, all, codes, utf8,
}

-- unicode.IsSpace
unfoldable pub is_space : ℕ → Bool
is_space c =
    (leb 0x9 c && leb c 0xd)
    || c == 0x20
    || c == 0x85
    || c == 0xa0
    || c == 0x1680
    || (leb 0x2000 c && leb c 0x200a)
    || c == 0x2028
    || c == 0x2029
    || c == 0x202f
    || c == 0x205f
    || c == 0x3000

trim_left : List ℕ → List ℕ
trim_left [] = []
trim_left (c ∷ cs) = let rest = trim_left cs in if is_space c then rest else c ∷ cs

-- `c ∷ cs` when `cs` is trimmed already
cons_trimmed : ℕ → List ℕ → List ℕ
cons_trimmed c [] = if is_space c then [] else c ∷ []
cons_trimmed c (d ∷ ds) = c ∷ d ∷ ds

trim_right : List ℕ → List ℕ
trim_right [] = []
trim_right (c ∷ cs) = cons_trimmed c (trim_right cs)

-- strings.TrimSpace, as code points
unfoldable pub trim_space : String → List ℕ
unfolding is_space trim_left cons_trimmed trim_right
trim_space s = trim_right (trim_left (codes s))

abbrev is_empty : List ℕ → Bool
is_empty [] = true
is_empty (c ∷ cs) = false

-- strings.TrimSpace(s) == ""
unfoldable pub is_blank : String → Bool
unfolding trim_space
is_blank s = is_empty (trim_space s)

-- Equality of texts given by code points.
unfoldable pub same_codes : List ℕ → List ℕ → Bool
same_codes [] [] = true
same_codes (a ∷ as') (b ∷ bs) = a == b && same_codes as' bs
same_codes _ _ = false

-- unicode.ToLower on a code point; beyond ASCII it is `lower`.
lower_code : (ℕ → ℕ) → ℕ → ℕ
lower_code lower c =
    if ltb c 0x80 then (if leb b'A' c && leb c b'Z' then c + 32 else c) else lower c

lower_codes : (ℕ → ℕ) → List ℕ → List ℕ
lower_codes lower [] = []
lower_codes lower (c ∷ cs) = lower_code lower c ∷ lower_codes lower cs

-- s == strings.ToLower(s)
unfoldable pub is_lowercase : (ℕ → ℕ) → String → Bool
unfolding lower_code lower_codes same_codes
is_lowercase lower s = same_codes (codes s) (lower_codes lower (codes s))

-- len(s)
abbrev pub byte_length : String → ℕ
byte_length s = length (utf8 (codes s))

is_hex_digit : ℕ → Bool
is_hex_digit c =
    (leb b'0' c && leb c b'9') || (leb b'a' c && leb c b'f') || (leb b'A' c && leb c b'F')

-- `_, err := hex.DecodeString(s)` gives no error.
unfoldable pub hex_decodes : List ℕ → Bool
unfolding is_hex_digit
hex_decodes bytes = all is_hex_digit bytes && length bytes % 2 == 0

-- b[lo:hi]
abbrev slice : List ℕ → ℕ → ℕ → List ℕ
slice bytes lo hi = take (hi - lo) (drop lo bytes)

abbrev byte_at : List ℕ → ℕ → ℕ
byte_at bytes i = get_or bytes i 0

is_uuid_bytes : List ℕ → Bool
is_uuid_bytes b =
    length b == 36
    && byte_at b 8 == b'-'
    && byte_at b 13 == b'-'
    && byte_at b 18 == b'-'
    && byte_at b 23 == b'-'
    && hex_decodes (slice b 0 8)
    && hex_decodes (slice b 9 13)
    && hex_decodes (slice b 14 18)
    && hex_decodes (slice b 19 23)
    && hex_decodes (slice b 24 36)

unfoldable pub is_uuid : String → Bool
unfolding is_uuid_bytes hex_decodes
is_uuid value = is_uuid_bytes (utf8 (codes value))

is_lower_letter : ℕ → Bool
is_lower_letter c = leb b'a' c && leb c b'z'

is_code_character : ℕ → Bool
unfolding is_lower_letter
is_code_character c = is_lower_letter c || (leb b'0' c && leb c b'9') || c == b'_'

matches_code : List ℕ → Bool
matches_code [] = false
matches_code (c ∷ cs) = is_lower_letter c && all is_code_character cs && leb (length cs) 63

-- serviceOptionCodePattern.MatchString: ^[a-z][a-z0-9_]{0,63}$
unfoldable pub is_service_option_code : String → Bool
unfolding is_lower_letter is_code_character matches_code
is_service_option_code s = matches_code (codes s)
