-- ===== src/StringUtil/Length.antt =====
-- `strlen` and `string_util_strnlen` agree, and copying a text without NUL copies its bytes.
use iot_eclipse.Base.{
  ℕ, zero, suc, ◌+◌, ◌≤◌, ◌<◌, ◌≡◌, refl, [], ◌∷◌, arith, if◌then◌else◌, ltb, ◌==◌, length, take,
  Bool-cases, inl, inr, ap,
}
use iot_eclipse.Base.Bytes.{Bytes, at, All, NonNul}
use iot_eclipse.StringUtil.{strlen, strnlen, strnlen_loop, strncpy}

pub strlen-le-length : (p : Bytes) → strlen p ≤ length p
unfolding strlen
strlen-le-length [] = omega arith
strlen-le-length (c ∷ p) = ground (arith, strlen-le-length p)

-- Every byte before the length is not NUL, and the byte at it is.
pub at-strlen : (p : Bytes) → at p (strlen p) ≡ 0
unfolding strlen
at-strlen [] = refl
at-strlen (c ∷ p) = ground (arith, at-strlen p)

pub at-ne-nul : (p : Bytes) (i : ℕ) → i < strlen p → 0 < at p i
unfolding strlen
at-ne-nul [] i h = absurd (omega arith)
at-ne-nul (c ∷ p) zero h = ground arith
at-ne-nul (c ∷ p) (suc i) h = ground (arith, at-ne-nul p i)

pub strlen-All : (p : Bytes) → All NonNul p → strlen p ≡ length p
unfolding strlen
strlen-All [] h = refl
strlen-All (c ∷ p) h = ground (arith, strlen-All p h.1)

strnlen_loop-min :
    (k : ℕ) (p : Bytes) (count : ℕ)
    → count ≤ strlen p
    → strnlen_loop k p count ≡ (if ltb (count + k) (strlen p) then count + k else strlen p)
unfolding strnlen_loop
strnlen_loop-min zero p count h = ground arith
strnlen_loop-min (suc k) p count h = elim (Bool-cases (ltb count (strlen p))) [
  | inl more ↦ ground (arith, at-ne-nul p count, strnlen_loop-min k p (count + 1))
  | inr done ↦ let e : count ≡ strlen p = ground arith in ground (arith, at-strlen p, ap (at p) e)
]

-- `string_util_strnlen` returns the smaller of the given maximum and the length that `strlen` gives,
-- for every text and maximum.
pub strnlen-min :
    (p : Bytes) (maximum : ℕ)
    → strnlen p maximum ≡ (if ltb maximum (strlen p) then maximum else strlen p)
unfolding strnlen
strnlen-min p maximum = ground (arith, strnlen_loop-min maximum p 0)

pub length-strncpy : (p : Bytes) (n : ℕ) → length (strncpy p n) ≡ n
unfolding strncpy
length-strncpy p zero = refl
length-strncpy [] (suc n) = ap suc (length-strncpy [] n)
length-strncpy (c ∷ p) (suc n) = ap suc (length-strncpy (if c == 0 then [] else p) n)

-- A text is copied byte for byte as far as its length.
pub strncpy-take : (p : Bytes) (n : ℕ) → n ≤ strlen p → strncpy p n ≡ take n p
unfolding strncpy strlen
strncpy-take p zero h = refl
strncpy-take [] (suc n) h = absurd (omega arith)
strncpy-take (c ∷ p) (suc n) h = elim (Bool-cases (c == 0)) [
  | inl nul ↦ absurd (ground arith)
  | inr more ↦ rw more (ap (◌∷◌ c) (strncpy-take p n (ground arith)))
]
