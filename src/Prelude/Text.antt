-- ===== src/Prelude/Text.antt =====
-- C strings and byte buffers as lists of codes, with the routines of the C library that the
-- program calls. A string is its text without the closing NUL.
use Prim.Native.Nat.{ℕ, ◌-◌, ◌<◌}
use Prim.Native.Char.{code}
use Prim.Native.String.{String}
use mathlib.Core.Path.{◌≡◌, refl}
use mathlib.Core.Bool.{Bool, true, false, ◌&&◌}
use mathlib.Core.List.{List, [], ◌∷◌, ◌++◌}
use native.Mathlib.Omega.{arith}
use esp32_sparkplug.Prelude.Tests.{◌==◌}
use esp32_sparkplug.Prelude.Lists.{length, take, length-take, take_all}

abbrev pub Bytes : Type 0
Bytes = List ℕ

abbrev pub CString : Type 0
CString = List ℕ

abbrev pub codes : String → CString
codes String.[] = []
codes (String.◌∷◌ c s) = code c ∷ codes s

-- The text that `snprintf` leaves in a buffer of `size` bytes.
unfoldable pub snprintf_text : ℕ → CString → CString
snprintf_text size text = take (size - 1) text

-- `strncmp(text, prefix, strlen(prefix)) == 0`, and `memcmp` likewise: the bytes begin so.
unfoldable pub starts_with : Bytes → Bytes → Bool
starts_with [] text = true
starts_with (p ∷ ps) [] = false
starts_with (p ∷ ps) (c ∷ cs) = p == c && starts_with ps cs

-- Two strings of equal length that `strncmp` finds equal.
unfoldable pub same_text : CString → CString → Bool
same_text [] [] = true
same_text [] (c ∷ cs) = false
same_text (p ∷ ps) [] = false
same_text (p ∷ ps) (c ∷ cs) = p == c && same_text ps cs

pub length-snprintf_text :
    (size : ℕ) (text : CString) → 0 < size → length (snprintf_text size text) < size
unfolding snprintf_text
length-snprintf_text size text h = omega (arith, length-take (size - 1) text)

-- A text shorter than the buffer is written whole.
pub snprintf_text_fits :
    (size : ℕ) (text : CString) → length text < size → snprintf_text size text ≡ text
unfolding snprintf_text
snprintf_text_fits size text h = take_all (size - 1) text (omega arith)

pub same_text_refl : (a : CString) → same_text a a ≡ true
unfolding same_text
same_text_refl [] = refl
same_text_refl (a ∷ as') = ground (arith, same_text_refl as')

pub eq_of_same_text : (a b : CString) → same_text a b ≡ true → a ≡ b
unfolding same_text
eq_of_same_text [] [] h = refl
eq_of_same_text [] (c ∷ cs) h = cc
eq_of_same_text (p ∷ ps) [] h = cc
eq_of_same_text (p ∷ ps) (c ∷ cs) h = ground (arith, eq_of_same_text ps cs)

-- What begins with `prefix` is `prefix` and a rest.
pub starts_with_append : (prefix rest : Bytes) → starts_with prefix (prefix ++ rest) ≡ true
unfolding starts_with
starts_with_append [] rest = refl
starts_with_append (p ∷ ps) rest = ground (arith, starts_with_append ps rest)
