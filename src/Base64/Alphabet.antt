-- ===== src/Base64/Alphabet.antt =====
-- The two alphabets: 64 characters, none of them NUL or the padding character, and a table that
-- leads from each back to its number.
use iot_eclipse.Base.{ℕ, ◌%◌, ◌<◌, ◌≡◌, refl, Bool, true, false, not, ◌&&◌, arith, ◌==◌, ltb}
use iot_eclipse.Base.Bytes.{Bytes, at}
use iot_eclipse.Base.Table.{check_below, check_below_sound}
use iot_eclipse.Base64.{
  padding_char, base64_encode_table, base64_url_encode_table, base64_decode_table,
  base64_url_decode_table,
}

pub record IsLetter (enc dec : Bytes) (i : ℕ) : Type 0 where
  pub back : at dec (at enc i % 256) ≡ i
  pub no_padding : (at enc i == padding_char) ≡ false
  pub no_nul : 0 < at enc i

abbrev pub Inverse : Bytes → Bytes → Type 0
Inverse enc dec = (i : ℕ) → i < 64 → IsLetter enc dec i

abbrev letter : Bytes → Bytes → ℕ → Bool
letter enc dec i =
    (at dec (at enc i % 256) == i) && (not (at enc i == padding_char) && ltb 0 (at enc i))

IsLetter-letter : (enc dec : Bytes) (i : ℕ) → letter enc dec i ≡ true → IsLetter enc dec i
IsLetter-letter enc dec i h = ground arith

Inverse-all : (enc dec : Bytes) → check_below 64 (letter enc dec) ≡ true → Inverse enc dec
Inverse-all enc dec h i lt =
    IsLetter-letter enc dec i (check_below_sound 64 (letter enc dec) i lt h)

pub base64_Inverse : Inverse base64_encode_table base64_decode_table
unfolding check_below
base64_Inverse = Inverse-all base64_encode_table base64_decode_table refl

pub base64_url_Inverse : Inverse base64_url_encode_table base64_url_decode_table
unfolding check_below
base64_url_Inverse = Inverse-all base64_url_encode_table base64_url_decode_table refl
