-- ===== src/StringType/Operations/Hex.antt =====
-- `string_convert_binary_to_hex` loses nothing: the bytes can be read back.
use iot_eclipse.Base.{
  ℕ, ◌+◌, ◌-◌, ◌*◌, ◌/◌, ◌%◌, ◌^◌, ◌<◌, ◌≡◌, refl, some, [], ◌∷◌, ltb, if◌then◌else◌, length, arith,
}
use iot_eclipse.Base.Bytes.{Bytes, at, All, IsByte}
use iot_eclipse.Base.Table.{check_below, agree_below}
use iot_eclipse.Code.{ok}
use iot_eclipse.Memory.{Memory}
use iot_eclipse.StringType.{copy_destroy}
use iot_eclipse.StringType.Build.{Grants}
use iot_eclipse.StringType.Operations.{hex_table, hex_of, string_convert_binary_to_hex}

-- The value of a hexadecimal digit.
unfoldable pub hex_value : ℕ → ℕ
hex_value c = if ltb c 58 then c - 48 else c - 55

-- Bytes read from pairs of digits.
unfoldable pub from_hex : Bytes → Bytes
unfolding hex_value
from_hex (c ∷ d ∷ rest) = (hex_value c * 16 + hex_value d) ∷ from_hex rest
from_hex _ = []

digit_back : (n : ℕ) → n < 16 → hex_value (at hex_table n) ≡ n
unfolding hex_value check_below
digit_back n lt = agree_below 16 (λ i. hex_value (at hex_table i)) (λ i. i) n refl lt

pub length-hex_of : (p : Bytes) → length (hex_of p) ≡ 2 * length p
unfolding hex_of
length-hex_of [] = refl
length-hex_of (b ∷ rest) = omega (arith, length-hex_of rest)

byte_back :
    (b : ℕ)
    → b < 256
    → hex_value (at hex_table (b / 16 % 16)) * 16 + hex_value (at hex_table (b % 16)) ≡ b
byte_back b lt =
    omega (arith, digit_back (b / 16 % 16) (omega arith), digit_back (b % 16) (omega arith))

pub from_hex-hex_of : (p : Bytes) → All IsByte p → from_hex (hex_of p) ≡ p
unfolding from_hex hex_of
from_hex-hex_of [] h = refl
from_hex-hex_of (b ∷ rest) (lt, h) = rw (byte_back b lt, from_hex-hex_of rest h) refl

-- For bytes and a memory that grants its requests, `string_convert_binary_to_hex` returns MCL_OK and
-- a string twice as long as the data, from whose digits the data can be read back.
pub from_hex-convert :
    (p : Bytes) (m : Memory)
    → Grants m
    → All IsByte p
    → 2 * length p < 2 ^ 64 - 1
    → (text : Bytes) × ((string_convert_binary_to_hex p m).0
        ≡ (ok, some (record { buffer = some text; length = 2 * length p; kind = copy_destroy })))
      × (length text ≡ 2 * length p)
      × (from_hex text ≡ p)
unfolding string_convert_binary_to_hex
from_hex-convert p m g bytes small =
    (hex_of p, ground (arith, g m.asked, g (m.asked + 1)), length-hex_of p, from_hex-hex_of p bytes)
