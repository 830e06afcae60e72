-- ===== src/Base64/Encode.antt =====
-- What the encoder writes: four characters for three bytes, within the block that it allocated.
use iot_eclipse.Base.{ℕ, ◌+◌, ◌*◌, ◌/◌, ◌^◌, ◌<◌, ◌≤◌, ◌≡◌, refl, [], ◌∷◌, arith, length}
use iot_eclipse.Base.Bytes.{Bytes, All, IsByte, NonNul}
use iot_eclipse.Base64.{encode_loop, output_size, out_0, out_1, out_2, out_3}
use iot_eclipse.Base64.Alphabet.{Inverse, IsLetter}
use iot_eclipse.Base64.Bits.{out_0_lem, out_1_lem, out_2_lem, out_3_lem}

pub length-encode_loop :
    (table input : Bytes) → length (encode_loop table input) ≡ (length input + 2) / 3 * 4
unfolding encode_loop
length-encode_loop table [] = refl
length-encode_loop table (b0 ∷ []) = refl
length-encode_loop table (b0 ∷ b1 ∷ []) = refl
length-encode_loop table (b0 ∷ b1 ∷ b2 ∷ rest) = omega (arith, length-encode_loop table rest)

-- The characters and the terminator that the encoder writes fit the block that it allocates, if
-- four times the input's size does not overflow a `size_t`.
pub output_fits :
    (table input : Bytes)
    → length input * 4 + 12 < 2 ^ 64
    → length (encode_loop table input) + 1 ≤ output_size (length input)
output_fits table input small = omega (arith, length-encode_loop table input)

module _ {enc dec : Bytes} (inv : Inverse enc dec) where
  pub IsLetter-0 : (b : ℕ) → IsByte b → IsLetter enc dec (out_0 b)
  IsLetter-0 b h = inv (out_0 b) (omega (arith, out_0_lem b h))

  pub IsLetter-1 : (a b : ℕ) → IsByte a → IsByte b → IsLetter enc dec (out_1 a b)
  IsLetter-1 a b ha hb = inv (out_1 a b) (omega (arith, out_1_lem a b ha hb))

  pub IsLetter-2 : (a b : ℕ) → IsByte a → IsByte b → IsLetter enc dec (out_2 a b)
  IsLetter-2 a b ha hb = inv (out_2 a b) (omega (arith, out_2_lem a b ha hb))

  pub IsLetter-3 : (b : ℕ) → IsByte b → IsLetter enc dec (out_3 b)
  IsLetter-3 b h = inv (out_3 b) (omega (arith, out_3_lem b h))

  -- No character of the output is NUL, so the C string ends where the output ends.
  pub encode_loop-NonNul : (input : Bytes) → All IsByte input → All NonNul (encode_loop enc input)
  unfolding encode_loop
  encode_loop-NonNul [] h = tt
  encode_loop-NonNul (b0 ∷ []) (h0, _) = (
    (IsLetter-0 b0 h0).no_nul,
    ((IsLetter-1 b0 0 h0 (omega arith)).no_nul, (omega arith, (omega arith, tt))),
  )
  encode_loop-NonNul (b0 ∷ b1 ∷ []) (h0, (h1, _)) = (
    (IsLetter-0 b0 h0).no_nul,
    (
      (IsLetter-1 b0 b1 h0 h1).no_nul,
      ((IsLetter-2 b1 0 h1 (omega arith)).no_nul, (omega arith, tt)),
    ),
  )
  encode_loop-NonNul (b0 ∷ b1 ∷ b2 ∷ rest) (h0, (h1, (h2, h))) = (
    (IsLetter-0 b0 h0).no_nul,
    (
      (IsLetter-1 b0 b1 h0 h1).no_nul,
      ((IsLetter-2 b1 b2 h1 h2).no_nul, ((IsLetter-3 b2 h2).no_nul, encode_loop-NonNul rest h)),
    ),
  )
