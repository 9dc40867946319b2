-- ===== src/Prelude/Decimal.antt =====
-- Decimal numerals, as `printf` writes them.
use esp32_sparkplug.Prelude.{
  ℕ, zero, suc, ◌+◌, ◌/◌, ◌%◌, ltb, ℤ, pos, negsuc, ◌++◌, List, [], ◌∷◌, Bytes, CString, codes,
  if◌then◌else◌,
}

-- The decimal digits of `n` in front of `rest`; `n` is fuel enough.
unfoldable pub decimal_onto : ℕ → ℕ → Bytes → Bytes
decimal_onto zero n rest = (48 + n % 10) ∷ rest
decimal_onto (suc fuel) n rest =
    let more = decimal_onto fuel (n / 10) ((48 + n % 10) ∷ rest) in
    if ltb n 10 then (48 + n % 10) ∷ rest else more

-- "%u" and "%d".
unfoldable pub dec : ℕ → CString
unfolding decimal_onto
dec n = decimal_onto n n []

unfoldable pub dec_ℤ : ℤ → CString
unfolding dec
dec_ℤ (pos n) = dec n
dec_ℤ (negsuc n) = codes "-" ++ dec (suc n)

-- Pieces of text, one behind the other.
abbrev pub text_of : List CString → CString
text_of [] = []
text_of (piece ∷ pieces) = piece ++ text_of pieces
