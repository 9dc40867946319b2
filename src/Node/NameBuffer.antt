-- ===== src/Node/NameBuffer.antt =====
-- components/sparkplug_node/sparkplug_decode.c: the buffer for a metric's name. nanopb's `pb_read`
-- hands over the next `n` bytes where the stream has them.
use esp32_sparkplug.Prelude.{
  ℕ, zero, suc, ◌-◌, ◌≤◌, ◌++◌, ◌≡◌, refl, ap, ◌∙◌, true, some, [], ◌∷◌, Bytes, CString, length,
  take, drop, length-take, length-append, arith,
}
use esp32_sparkplug.Node.Nanopb.{Nanopb, StringDecode}
use esp32_sparkplug.Node.Decode.{append_chunk, decode_string_from, decode_string, name_capacity}

-- `pb_read` as nanopb documents it.
abbrev pub ReadsExactly : Nanopb → Type 0
ReadsExactly pb = (s : Bytes) (n : ℕ) → n ≤ length s → pb.read s n ≡ some (take n s, drop n s)

append_nil : (xs : Bytes) → xs ++ [] ≡ xs
append_nil [] = refl
append_nil (x ∷ xs) = ap (◌∷◌ x) (append_nil xs)

take_nil : (n : ℕ) → take {A = ℕ} n [] ≡ []
take_nil zero = refl
take_nil (suc n) = refl

take_cong : (m n : ℕ) → m ≡ n → (xs : Bytes) → take m xs ≡ take n xs
take_cong m n e xs = ap (λ k. take k xs) e

take_full : (n : ℕ) (xs : Bytes) → name_capacity ≤ n → take (name_capacity - n) xs ≡ []
take_full n xs h = take_cong (63 - n) 0 (omega arith) xs

-- A text read in two parts, of which the buffer keeps `room` bytes.
take_parts :
    (room n more : ℕ) (xs : Bytes)
    → more ≡ room - length (take n xs)
    → take room (take n xs) ++ take more (drop n xs) ≡ take room xs
take_parts zero n zero xs e = refl
take_parts zero n (suc k) xs e = absurd (omega arith)
take_parts (suc r) zero more xs e = take_cong more (suc r) (omega arith) xs
take_parts (suc r) (suc n) more [] e = take_nil more
take_parts (suc r) (suc n) more (x ∷ xs) e = ap (◌∷◌ x) (take_parts r n more xs (omega arith))

length-drop : (n : ℕ) (xs : Bytes) → length (drop n xs) ≡ length xs - n
length-drop zero xs = omega arith
length-drop (suc n) [] = omega arith
length-drop (suc n) (x ∷ xs) = omega (arith, length-drop n xs)

append_assoc : (xs ys zs : Bytes) → (xs ++ ys) ++ zs ≡ xs ++ (ys ++ zs)
append_assoc [] ys zs = refl
append_assoc (x ∷ xs) ys zs = ap (◌∷◌ x) (append_assoc xs ys zs)

-- What the buffer holds once `stream` has been read to its end.
abbrev pub filled : StringDecode → Bytes → CString
filled state stream = state.buffer ++ take (name_capacity - length state.buffer) stream

-- The buffer after a chunk, for a buffer that is not over-full.
append_chunk-buffer :
    (state : StringDecode) (chunk : Bytes)
    → length state.buffer ≤ name_capacity
    → (append_chunk state chunk).buffer ≡ filled state chunk
unfolding append_chunk
append_chunk-buffer state chunk h = grind (arith, append_nil, take_full)

append_chunk-fits :
    (state : StringDecode) (chunk : Bytes)
    → length state.buffer ≤ name_capacity
    → length (append_chunk state chunk).buffer ≤ name_capacity
append_chunk-fits state chunk h = grind (arith, append_chunk-buffer, length-append, length-take)

filled-chunks :
    (n : ℕ) (state : StringDecode) (stream : Bytes)
    → length state.buffer ≤ name_capacity
    → filled (append_chunk state (take n stream)) (drop n stream) ≡ filled state stream
filled-chunks n state stream h =
    ap (λ b. b ++ take (63 - length b) (drop n stream))
      (append_chunk-buffer state (take n stream) h)
    ∙ (append_assoc state.buffer kept _
        ∙ ap (λ xs. state.buffer ++ xs)
            (take_parts room n (63 - length (state.buffer ++ kept)) stream
              (omega (arith, length-append state.buffer kept, length-take room (take n stream)))))
  where
    room : ℕ
    room = name_capacity - length state.buffer

    kept : Bytes
    kept = take room (take n stream)

module _ (pb : Nanopb) (reads : ReadsExactly pb) where
  decode_string_from-filled :
      (fuel : ℕ) (stream : Bytes) (state : StringDecode)
      → length stream ≤ fuel
      → length state.buffer ≤ name_capacity
      → decode_string_from pb fuel (length stream) stream state
        ≡ (true, record { buffer = filled state stream })
  unfolding decode_string_from
  decode_string_from-filled zero [] state h k = grind (arith, append_nil)
  decode_string_from-filled zero (c ∷ cs) state h k = absurd (omega arith)
  decode_string_from-filled (suc fuel) [] state h k = grind (arith, append_nil)
  decode_string_from-filled (suc fuel) (c ∷ cs) state h k =
      grind (
        arith,
        reads,
        length-drop,
        append_chunk-fits,
        filled-chunks,
        decode_string_from-filled fuel,
      )

  -- Reading a name from a stream that has it always ends with success, and the buffer then holds
  -- its first 63 bytes.
  pub decode_string-take :
      (stream : Bytes)
      → decode_string pb stream (record { buffer = [] })
        ≡ (true, record { buffer = take name_capacity stream })
  unfolding decode_string
  decode_string-take stream =
      decode_string_from-filled (length stream) stream (record { buffer = [] }) (omega arith)
        (omega arith)
