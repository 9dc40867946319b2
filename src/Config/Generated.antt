-- ===== src/Config/Generated.antt =====
-- components/app_config/app_config.c: the node ids that are made up.
use esp32_sparkplug.Prelude.{
  ℕ, zero, suc, ◌+◌, ◌/◌, ◌%◌, ◌^◌, ◌<◌, ◌≡◌, [], ◌∷◌, CString, length, drop, ap, snprintf_text,
  snprintf_text_fits, arith,
}
use esp32_sparkplug.Config.State.{node_id_max_len}
use esp32_sparkplug.Config.NodeId.{hex_digit, hex_onto, generated_id}

hex_digit-injective : (a b : ℕ) → a < 16 → b < 16 → hex_digit a ≡ hex_digit b → a ≡ b
hex_digit-injective a b h k e = ground arith

∷-injective_head : {a b : ℕ} {as' bs : CString} → a ∷ as' ≡ b ∷ bs → a ≡ b
∷-injective_head e = cc

∷-injective_tail : {a b : ℕ} {as' bs : CString} → a ∷ as' ≡ b ∷ bs → as' ≡ bs
∷-injective_tail e = cc

hex_onto-injective :
    (n r s : ℕ) (rest others : CString)
    → r < 16 ^ n
    → s < 16 ^ n
    → hex_onto n r rest ≡ hex_onto n s others
    → (r ≡ s) × (rest ≡ others)
unfolding hex_onto
hex_onto-injective zero r s rest others h k e = (omega arith, e)
hex_onto-injective (suc n) r s rest others h k e =
    let ih =
      hex_onto-injective n (r / 16) (s / 16) (hex_digit (r % 16) ∷ rest)
        (hex_digit (s % 16) ∷ others) (omega arith) (omega arith) e in
    let tail = ih.1 in
    let d =
      hex_digit-injective (r % 16) (s % 16) (omega arith) (omega arith) (∷-injective_head tail) in
    (omega (arith, ih.0, d), ∷-injective_tail tail)

length-hex_onto : (n r : ℕ) (rest : CString) → length (hex_onto n r rest) ≡ n + length rest
unfolding hex_onto
length-hex_onto zero r rest = omega arith
length-hex_onto (suc n) r rest =
    omega (arith, length-hex_onto n (r / 16) (hex_digit (r % 16) ∷ rest))

-- A node id that is made up has 13 characters, so that it fits the buffer of `app_config_init`, and
-- two different 32-bit random numbers make two different node ids.
pub generated_id-injective :
    (r s : ℕ)
    → r < 2 ^ 32
    → s < 2 ^ 32
    → (length (generated_id r) ≡ 13)
      × (snprintf_text (node_id_max_len + 1) (generated_id r) ≡ generated_id r)
      × (generated_id r ≡ generated_id s → r ≡ s)
unfolding generated_id
generated_id-injective r s h k =
    let l : length (generated_id r) ≡ 13 = omega (arith, length-hex_onto 8 r []) in
    (
      l,
      snprintf_text_fits (node_id_max_len + 1) (generated_id r) (omega arith),
      λ e. (hex_onto-injective 8 r s [] [] h k (after_prefix e)).0,
    )
  where
    after_prefix : generated_id r ≡ generated_id s → hex_onto 8 r [] ≡ hex_onto 8 s []
    after_prefix e = ap (drop 5) e
