-- ===== src/Session/Json.antt =====
-- components/sparkplug_node/sparkplug_session.c: the search for a key in a STATE payload, and the
-- part of `strtoll` that its reader relies on. A pointer into the payload is the bytes from there to
-- the payload's end.
use esp32_sparkplug.Prelude.{
  ℕ, zero, suc, ◌+◌, ◌-◌, ◌*◌, ◌^◌, ◌++◌, ◌==◌, ltb, leb, ℤ, pos, negsuc, Bool, false, ◌&&◌, ◌||◌,
  Option, none, some, [], ◌∷◌, Bytes, CString, codes, length, drop, starts_with, if◌then◌else◌,
}

-- The quoted key.
abbrev pub key_pattern : CString → CString
key_pattern key = codes "\"" ++ (key ++ codes "\"")

-- The loop over `i`: what follows the first occurrence of the pattern.
unfoldable pub after_pattern : Bytes → Bytes → Option Bytes
after_pattern pattern_bytes [] =
    if starts_with pattern_bytes [] then some (drop (length pattern_bytes) []) else none
after_pattern pattern_bytes (c ∷ cs) =
    if starts_with pattern_bytes (c ∷ cs)
    then some (drop (length pattern_bytes) (c ∷ cs))
    else after_pattern pattern_bytes cs

abbrev pub is_separator : ℕ → Bool
is_separator c = c == b' ' || c == b':'

-- `while (after_key < end && …) after_key++`.
unfoldable pub skip_separators : Bytes → Bytes
skip_separators [] = []
skip_separators (c ∷ cs) = let rest = skip_separators cs in if is_separator c then rest else c ∷ cs

abbrev pub at_value : Bytes → Option Bytes
at_value [] = none
at_value (c ∷ cs) = some (c ∷ cs)

abbrev pub value_after : Option Bytes → Option Bytes
value_after none = none
value_after (some rest) = at_value (skip_separators rest)

-- `find_json_key`: a pattern that does not fit in 64 bytes, or in the payload, is not looked for.
unfoldable pub find_json_key : Bytes → CString → Option Bytes
find_json_key json key =
    if leb 64 (length (key_pattern key)) || ltb (length json) (length (key_pattern key))
    then none
    else value_after (after_pattern (key_pattern key) json)

-- `isspace` in the C locale.
abbrev pub is_space : ℕ → Bool
is_space c = c == b' ' || (leb 9 c && leb c 13)

abbrev pub is_digit : ℕ → Bool
is_digit c = leb b'0' c && leb c b'9'

unfoldable pub skip_spaces : Bytes → Bytes
skip_spaces [] = []
skip_spaces (c ∷ cs) = let rest = skip_spaces cs in if is_space c then rest else c ∷ cs

-- The digits that a text begins with, read from `acc`.
unfoldable pub digits_from : ℕ → Bytes → ℕ
digits_from acc [] = acc
digits_from acc (c ∷ cs) =
    let rest = digits_from (acc * 10 + (c - b'0')) cs in if is_digit c then rest else acc

abbrev pub begins_with_digit : Bytes → Bool
begins_with_digit [] = false
begins_with_digit (c ∷ cs) = is_digit c

-- A magnitude as a `long long`, held at the ends of its range.
abbrev pub clamp_pos : ℕ → ℤ
clamp_pos n = if ltb n (2 ^ 63) then pos n else pos (2 ^ 63 - 1)

abbrev pub negate : ℕ → ℤ
negate zero = pos 0
negate (suc n) = negsuc n

abbrev pub clamp_neg : ℕ → ℤ
clamp_neg n = if leb n (2 ^ 63) then negate n else negsuc (2 ^ 63 - 1)

abbrev pub magnitude : Bytes → (ℕ → ℤ) → Option ℤ
magnitude text clamp = if begins_with_digit text then some (clamp (digits_from 0 text)) else none

abbrev pub signed : Bytes → Option ℤ
signed [] = none
signed (c ∷ cs) =
    if c == b'-'
    then magnitude cs clamp_neg
    else if c == b'+'
    then magnitude cs clamp_pos
    else magnitude (c ∷ cs) clamp_pos

-- `strtoll(text, &end, 10)`; `none` is `end == text`.
unfoldable pub strtoll : Bytes → Option ℤ
strtoll text = signed (skip_spaces text)
