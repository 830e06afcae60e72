-- ===== src/Base64/Bits.antt =====
-- The four output numbers of a round of the encoder in plain arithmetic.
use Prim.Native.Nat.{bit_and, bit_or}
use iot_eclipse.Base.{ℕ, ◌+◌, ◌*◌, ◌/◌, ◌%◌, ◌<◌, ◌≡◌, refl, arith}
use iot_eclipse.Base.Table.{check_below, agree_below}
use iot_eclipse.Base64.{out_0, out_1, out_2, out_3}

pub out_0_lem : (b : ℕ) → b < 256 → out_0 b ≡ b / 4
unfolding check_below out_0
out_0_lem b = agree_below 256 (λ i. bit_and i 0xfc / 4) (λ i. i / 4) b refl

low_two : (b : ℕ) → b < 256 → bit_and b 0x03 ≡ b % 4
unfolding check_below
low_two b = agree_below 256 (λ i. bit_and i 0x03) (λ i. i % 4) b refl

high_four : (b : ℕ) → b < 256 → bit_and b 0xf0 / 16 ≡ b / 16
unfolding check_below
high_four b = agree_below 256 (λ i. bit_and i 0xf0 / 16) (λ i. i / 16) b refl

low_four : (b : ℕ) → b < 256 → bit_and b 0x0f ≡ b % 16
unfolding check_below
low_four b = agree_below 256 (λ i. bit_and i 0x0f) (λ i. i % 16) b refl

high_two : (b : ℕ) → b < 256 → bit_and b 0xc0 / 64 ≡ b / 64
unfolding check_below
high_two b = agree_below 256 (λ i. bit_and i 0xc0 / 64) (λ i. i / 64) b refl

pub out_3_lem : (b : ℕ) → b < 256 → out_3 b ≡ b % 64
unfolding check_below out_3
out_3_lem b = agree_below 256 (λ i. bit_and i 0x3f) (λ i. i % 64) b refl

join_four : (z : ℕ) → z < 64 → bit_or (z / 16 * 16) (z % 16) ≡ z
unfolding check_below
join_four z = agree_below 64 (λ i. bit_or (i / 16 * 16) (i % 16)) (λ i. i) z refl

join_two : (z : ℕ) → z < 64 → bit_or (z / 4 * 4) (z % 4) ≡ z
unfolding check_below
join_two z = agree_below 64 (λ i. bit_or (i / 4 * 4) (i % 4)) (λ i. i) z refl

pub out_1_lem : (a b : ℕ) → a < 256 → b < 256 → out_1 a b ≡ a % 4 * 16 + b / 16
unfolding out_1
out_1_lem a b ha hb =
    let z : ℕ = a % 4 * 16 + b / 16 in
    let hi : z / 16 ≡ a % 4 = omega arith in
    let lo : z % 16 ≡ b / 16 = omega arith in
    rw (low_two a ha, high_four b hb) (rw (hi, lo) at (join_four z (omega arith)))

pub out_2_lem : (a b : ℕ) → a < 256 → b < 256 → out_2 a b ≡ a % 16 * 4 + b / 64
unfolding out_2
out_2_lem a b ha hb =
    let z : ℕ = a % 16 * 4 + b / 64 in
    let hi : z / 4 ≡ a % 16 = omega arith in
    let lo : z % 4 ≡ b / 64 = omega arith in
    rw (low_four a ha, high_two b hb) (rw (hi, lo) at (join_two z (omega arith)))
