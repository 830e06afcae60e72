-- ===== src/Base64/Quantum.antt =====
-- A quantum: four characters of an encoded input, and the bytes that the decoder reads from them.
use iot_eclipse.Base.{
  ℕ, suc, ◌+◌, ◌*◌, ◌/◌, ◌%◌, ◌^◌, ◌<◌, ◌≡◌, ◌∙◌, ap, true, false, some, [], ◌∷◌, arith, ltb, ◌==◌,
}
use iot_eclipse.Base.Bytes.{Bytes, at, IsByte}
use iot_eclipse.Base64.{
  encode_loop, out_0, out_1, out_2, out_3, quantum_loop, decode_quantum, padding_char,
}
use iot_eclipse.Base64.Alphabet.{Inverse, IsLetter}
use iot_eclipse.Base64.Bits.{out_0_lem, out_1_lem, out_2_lem, out_3_lem}
use iot_eclipse.Base64.Encode.{IsLetter-0, IsLetter-1, IsLetter-2, IsLetter-3}

module _ {enc dec : Bytes} (inv : Inverse enc dec) where
  -- One round of the decoder on a letter, and on a padding character.
  letter_round :
      (k i : ℕ) (rest : Bytes) (bits padding : ℕ)
      → IsLetter enc dec i
      → i < 64
      → bits * 64 + i < 2 ^ 32
      → quantum_loop (suc k) dec (at enc i ∷ rest) bits padding
        ≡ quantum_loop k dec rest (bits * 64 + i) padding
  unfolding quantum_loop
  letter_round k i rest bits padding l lt small =
      let known : (i == 0xff) ≡ false = ground arith in
      let fits : (bits * 64 % 2 ^ 32 + i) % 2 ^ 32 ≡ bits * 64 + i = omega arith in
      ground (arith, known, fits)

  padding_round :
      (k : ℕ) (rest : Bytes) (bits padding : ℕ)
      → padding < 2
      → bits * 64 < 2 ^ 32
      → quantum_loop (suc k) dec (padding_char ∷ rest) bits padding
        ≡ quantum_loop k dec rest (bits * 64) (padding + 1)
  unfolding quantum_loop
  padding_round k rest bits padding lt small =
      let allowed : ltb (padding + 1) 3 ≡ true = ground arith in
      let fits : bits * 64 % 2 ^ 32 ≡ bits * 64 = omega arith in ground (arith, allowed, fits)

  -- The first two characters of a round, which always are letters.
  two_letters :
      (k b0 b1 : ℕ) (rest : Bytes)
      → IsByte b0
      → IsByte b1
      → quantum_loop (suc (suc k)) dec (at enc (out_0 b0) ∷ at enc (out_1 b0 b1) ∷ rest) 0 0
        ≡ quantum_loop k dec rest (b0 * 16 + b1 / 16) 0
  two_letters k b0 b1 rest h0 h1 =
      letter_round (suc k) (out_0 b0) _ 0 0 (IsLetter-0 inv b0 h0) (omega (arith, e0))
        (omega (arith, e0))
      ∙ letter_round k (out_1 b0 b1) rest (0 * 64 + out_0 b0) 0 (IsLetter-1 inv b0 b1 h0 h1)
          (omega (arith, e1)) (omega (arith, e0, e1))
      ∙ ap (λ t. quantum_loop k dec rest t 0) (omega (arith, e0, e1))
    where
      e0 : out_0 b0 ≡ b0 / 4
      e0 = out_0_lem b0 h0

      e1 : out_1 b0 b1 ≡ b0 % 4 * 16 + b1 / 16
      e1 = out_1_lem b0 b1 h0 h1

  three_letters :
      (k b0 b1 b2 : ℕ) (rest : Bytes)
      → IsByte b0
      → IsByte b1
      → IsByte b2
      → quantum_loop
          (suc (suc (suc k)))
          dec
          (at enc (out_0 b0) ∷ at enc (out_1 b0 b1) ∷ at enc (out_2 b1 b2) ∷ rest)
          0
          0
        ≡ quantum_loop k dec rest (b0 * 1024 + b1 * 4 + b2 / 64) 0
  three_letters k b0 b1 b2 rest h0 h1 h2 =
      two_letters (suc k) b0 b1 _ h0 h1
      ∙ letter_round k (out_2 b1 b2) rest (b0 * 16 + b1 / 16) 0 (IsLetter-2 inv b1 b2 h1 h2)
          (omega (arith, e2)) (omega (arith, e2))
      ∙ ap (λ t. quantum_loop k dec rest t 0) (omega (arith, e2))
    where
      e2 : out_2 b1 b2 ≡ b1 % 16 * 4 + b2 / 64
      e2 = out_2_lem b1 b2 h1 h2

  quantum_three :
      (b0 b1 b2 : ℕ) (rest : Bytes)
      → IsByte b0
      → IsByte b1
      → IsByte b2
      → quantum_loop 4 dec (encode_loop enc (b0 ∷ b1 ∷ b2 ∷ rest)) 0 0
        ≡ some (b0 * 65536 + b1 * 256 + b2, 0)
  unfolding encode_loop
  quantum_three b0 b1 b2 rest h0 h1 h2 =
      three_letters 1 b0 b1 b2 _ h0 h1 h2
      ∙ letter_round 0 (out_3 b2) (encode_loop enc rest) (b0 * 1024 + b1 * 4 + b2 / 64) 0
          (IsLetter-3 inv b2 h2) (omega (arith, e3)) (omega (arith, e3))
      ∙ (unfold quantum_loop in ap (λ t. some (t, 0)) (omega (arith, e3)))
    where
      e3 : out_3 b2 ≡ b2 % 64
      e3 = out_3_lem b2 h2

  quantum_two :
      (b0 b1 : ℕ)
      → IsByte b0
      → IsByte b1
      → quantum_loop 4 dec (encode_loop enc (b0 ∷ b1 ∷ [])) 0 0 ≡ some (b0 * 65536 + b1 * 256, 1)
  unfolding encode_loop
  quantum_two b0 b1 h0 h1 =
      three_letters 1 b0 b1 0 _ h0 h1 (omega arith)
      ∙ padding_round 0 [] (b0 * 1024 + b1 * 4 + 0 / 64) 0 (omega arith) (omega arith)
      ∙ (unfold quantum_loop in ap (λ t. some (t, 1)) (omega arith))

  quantum_one :
      (b0 : ℕ)
      → IsByte b0
      → quantum_loop 4 dec (encode_loop enc (b0 ∷ [])) 0 0 ≡ some (b0 * 65536, 2)
  unfolding encode_loop
  quantum_one b0 h0 =
      two_letters 2 b0 0 _ h0 (omega arith)
      ∙ padding_round 1 (padding_char ∷ []) (b0 * 16 + 0 / 16) 0 (omega arith) (omega arith)
      ∙ padding_round 0 [] ((b0 * 16 + 0 / 16) * 64) 1 (omega arith) (omega arith)
      ∙ (unfold quantum_loop in ap (λ t. some (t, 2)) (omega arith))

  pub decode_three :
      (b0 b1 b2 : ℕ) (rest : Bytes)
      → IsByte b0
      → IsByte b1
      → IsByte b2
      → decode_quantum dec (encode_loop enc (b0 ∷ b1 ∷ b2 ∷ rest)) ≡ some (b0 ∷ b1 ∷ b2 ∷ [])
  unfolding decode_quantum
  decode_three b0 b1 b2 rest h0 h1 h2 = rw (quantum_three b0 b1 b2 rest h0 h1 h2) (ground arith)

  pub decode_two :
      (b0 b1 : ℕ)
      → IsByte b0
      → IsByte b1
      → decode_quantum dec (encode_loop enc (b0 ∷ b1 ∷ [])) ≡ some (b0 ∷ b1 ∷ [])
  unfolding decode_quantum
  decode_two b0 b1 h0 h1 = rw (quantum_two b0 b1 h0 h1) (ground arith)

  pub decode_one :
      (b0 : ℕ) → IsByte b0 → decode_quantum dec (encode_loop enc (b0 ∷ [])) ≡ some (b0 ∷ [])
  unfolding decode_quantum
  decode_one b0 h0 = rw (quantum_one b0 h0) (ground arith)
