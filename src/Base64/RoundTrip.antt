-- ===== src/Base64/RoundTrip.antt =====
-- Decoding undoes encoding.
use iot_eclipse.Base.{
  ℕ, zero, suc, ◌+◌, ◌*◌, ◌/◌, ◌^◌, ◌<◌, ◌≡◌, refl, ◌∙◌, ap, true, false, none, some, [], ◌∷◌, ◌++◌,
  arith, length, drop,
}
use iot_eclipse.Base.Bytes.{Bytes, at, All, IsByte}
use iot_eclipse.Code.{ok}
use iot_eclipse.Memory.{Memory}
use iot_eclipse.StringUtil.Length.{strlen-All}
use iot_eclipse.StringType.{StringT, not_copy_destroy}
use iot_eclipse.StringType.Build.{Grants}
use native.Mathlib.Numerals.{add-one}
use mathlib.Core.List.{append_assoc, append-nil}
use iot_eclipse.Base64.{
  encode_loop, out_0, out_1, out_2, out_3, decode_quantum, decode_loop, padding_index,
  padding_count, encode_with_table, decode_with_table, base64_encode, base64_decode,
  base64_url_encode, base64_url_decode, base64_encode_table, base64_url_encode_table,
}
use iot_eclipse.Base64.Alphabet.{Inverse, IsLetter, base64_Inverse, base64_url_Inverse}
use iot_eclipse.Base64.Encode.{
  IsLetter-0, IsLetter-1, IsLetter-2, IsLetter-3, encode_loop-NonNul, length-encode_loop,
}
use iot_eclipse.Base64.Quantum.{decode_one, decode_two, decode_three}

padding_count_later :
    (a b c d : ℕ) (p : Bytes) (i : ℕ)
    → padding_count (a ∷ b ∷ c ∷ d ∷ p) (suc (suc (suc (suc i)))) ≡ padding_count p i
unfolding padding_count
padding_count_later a b c d p i = simp add-one

module _ {enc dec : Bytes} (inv : Inverse enc dec) where
  decode_loop_step :
      (k : ℕ) (source out : Bytes) {b : Bytes}
      → decode_quantum dec source ≡ some b
      → decode_loop (suc k) dec source out ≡ decode_loop k dec (drop 4 source) (out ++ b)
  unfolding decode_loop
  decode_loop_step k source out e = rw (e, decode_loop)

  drop-encode_loop :
      (b0 b1 b2 : ℕ) (rest : Bytes)
      → drop 4 (encode_loop enc (b0 ∷ b1 ∷ b2 ∷ rest)) ≡ encode_loop enc rest
  unfolding encode_loop
  drop-encode_loop b0 b1 b2 rest = refl

  -- The loop over the quanta of an encoded input gives the input back.
  decode_loop-encode_loop :
      (k : ℕ) (input out : Bytes)
      → All IsByte input
      → k ≡ (length input + 2) / 3
      → decode_loop k dec (encode_loop enc input) out ≡ some (out ++ input)
  decode_loop-encode_loop zero [] out h e = unfold decode_loop in rw append-nil
  decode_loop-encode_loop (suc k) [] out h e = absurd (omega arith)
  decode_loop-encode_loop zero (b0 ∷ rest) out h e = absurd (omega arith)
  decode_loop-encode_loop (suc zero) (b0 ∷ []) out (h0, _) e =
      decode_loop_step zero _ out (decode_one inv b0 h0) ∙ (unfold decode_loop in refl)
  decode_loop-encode_loop (suc (suc k)) (b0 ∷ []) out h e = absurd (omega arith)
  decode_loop-encode_loop (suc zero) (b0 ∷ b1 ∷ []) out (h0, (h1, _)) e =
      decode_loop_step zero _ out (decode_two inv b0 b1 h0 h1) ∙ (unfold decode_loop in refl)
  decode_loop-encode_loop (suc (suc k)) (b0 ∷ b1 ∷ []) out h e = absurd (omega arith)
  decode_loop-encode_loop (suc k) (b0 ∷ b1 ∷ b2 ∷ rest) out (h0, (h1, (h2, h))) e =
      decode_loop_step k _ out (decode_three inv b0 b1 b2 rest h0 h1 h2)
      ∙ rw (drop-encode_loop b0 b1 b2 rest)
          (decode_loop-encode_loop k rest (out ++ b0 ∷ b1 ∷ b2 ∷ []) h (omega arith))
      ∙ ap some (append_assoc out (b0 ∷ b1 ∷ b2 ∷ []) rest)

  letter_index :
      (i : ℕ) (rest : Bytes)
      → IsLetter enc dec i
      → padding_index (at enc i ∷ rest) ≡ suc (padding_index rest)
  unfolding padding_index
  letter_index i rest l = ground arith

  -- The padding that the decoder finds in an encoded input, and where.
  padding-encode_loop :
      (input : Bytes)
      → All IsByte input
      → let e = encode_loop enc input in
        (padding_index e + padding_count e (padding_index e) ≡ length e)
        × (padding_count e (padding_index e) + length input ≡ (length input + 2) / 3 * 3)
  unfolding encode_loop
  padding-encode_loop [] h = unfold padding_index padding_count in (refl, refl)
  padding-encode_loop (b0 ∷ []) (h0, _) =
      rw
        (
          letter_index (out_0 b0) _ (IsLetter-0 inv b0 h0),
          letter_index (out_1 b0 0) _ (IsLetter-1 inv b0 0 h0 (omega arith)),
        )
        (unfold padding_index padding_count in (refl, refl))
  padding-encode_loop (b0 ∷ b1 ∷ []) (h0, (h1, _)) =
      rw
        (
          letter_index (out_0 b0) _ (IsLetter-0 inv b0 h0),
          letter_index (out_1 b0 b1) _ (IsLetter-1 inv b0 b1 h0 h1),
          letter_index (out_2 b1 0) _ (IsLetter-2 inv b1 0 h1 (omega arith)),
        )
        (unfold padding_index padding_count in (refl, refl))
  padding-encode_loop (b0 ∷ b1 ∷ b2 ∷ rest) (h0, (h1, (h2, h))) =
      let e = encode_loop enc rest in
      rw
        (
          letter_index (out_0 b0) _ (IsLetter-0 inv b0 h0),
          letter_index (out_1 b0 b1) _ (IsLetter-1 inv b0 b1 h0 h1),
          letter_index (out_2 b1 b2) _ (IsLetter-2 inv b1 b2 h1 h2),
          letter_index (out_3 b2) e (IsLetter-3 inv b2 h2),
          padding_count_later (at enc (out_0 b0)) (at enc (out_1 b0 b1)) (at enc (out_2 b1 b2))
              (at enc (out_3 b2)) e (padding_index e),
        )
        (omega (arith, padding-encode_loop rest h))

  -- What the encoder returns when every request is granted.
  encode_with_table_lem :
      (input : Bytes) (m : Memory)
      → All IsByte input
      → Grants m
      → length input * 4 + 12 < 2 ^ 64
      → let e = encode_loop enc input in
        (encode_with_table enc input m).0
        ≡ (ok, some (record { buffer = some e; length = length e; kind = not_copy_destroy }))
  unfolding encode_with_table
  encode_with_table_lem input m h g small = ground (
    arith,
    g m.asked,
    g (m.asked + 1),
    strlen-All (encode_loop enc input) (encode_loop-NonNul inv input h),
  )

  decode_with_table_lem :
      (input : Bytes) (m : Memory)
      → All IsByte input
      → Grants m
      → 0 < length input
      → length input * 4 + 12 < 2 ^ 64
      → let e = encode_loop enc input in
        (decode_with_table dec e (length e) m).0 ≡ (ok, some input, length input)
  unfolding decode_with_table
  decode_with_table_lem input m h g pos small =
      let e = encode_loop enc input in
      let quanta =
        decode_loop-encode_loop (length e / 4) input [] h
          (omega (arith, length-encode_loop enc input)) in
      ground (arith, g m.asked, length-encode_loop enc input, padding-encode_loop input h, quanta)

-- `base64_decode` of what `base64_encode` returns gives the bytes back, with their count: for every
-- input of at least one byte, when the requests for memory are granted. The size is bounded so that
-- four times the size does not overflow a `size_t`.
pub base64_decode-encode :
    (input : Bytes) (m n : Memory)
    → All IsByte input
    → 0 < length input
    → length input * 4 + 12 < 2 ^ 64
    → Grants m
    → Grants n
    → (p : Bytes) × (s : StringT) × ((base64_encode input m).0 ≡ (ok, some s))
      × (s.buffer ≡ some p)
      × ((base64_decode p s.length n).0 ≡ (ok, some input, length input))
unfolding base64_encode base64_decode
base64_decode-encode input m n bytes pos small gm gn =
    let e = encode_loop base64_encode_table input in
    (
      e,
      record { buffer = some e; length = length e; kind = not_copy_destroy },
      encode_with_table_lem base64_Inverse input m bytes gm small,
      refl,
      decode_with_table_lem base64_Inverse input n bytes gn pos small,
    )

-- `base64_url_decode` of what `base64_url_encode` returns gives the bytes back, with their count: for
-- every input of at least one byte, when the requests for memory are granted. The size is bounded so
-- that four times the size does not overflow a `size_t`.
pub base64_url_decode-encode :
    (input : Bytes) (m n : Memory)
    → All IsByte input
    → 0 < length input
    → length input * 4 + 12 < 2 ^ 64
    → Grants m
    → Grants n
    → (p : Bytes) × (s : StringT) × ((base64_url_encode input m).0 ≡ (ok, some s))
      × (s.buffer ≡ some p)
      × ((base64_url_decode p s.length n).0 ≡ (ok, some input, length input))
unfolding base64_url_encode base64_url_decode
base64_url_decode-encode input m n bytes pos small gm gn =
    let e = encode_loop base64_url_encode_table input in
    (
      e,
      record { buffer = some e; length = length e; kind = not_copy_destroy },
      encode_with_table_lem base64_url_Inverse input m bytes gm small,
      refl,
      decode_with_table_lem base64_url_Inverse input n bytes gn pos small,
    )

-- If the output can be allocated and its `string_t` cannot, the encoder returns MCL_OK with no
-- string, and the output stays allocated.
pub encode_lost :
    (table input : Bytes) (m : Memory)
    → m.answers m.asked ≡ true
    → m.answers (m.asked + 1) ≡ false
    → let (r, m') = encode_with_table table input m in (r ≡ (ok, none)) × (m'.live ≡ m.live + 1)
unfolding encode_with_table
encode_lost table input m granted refused = ground arith
