-- ===== src/StringUtil/Print.antt =====
-- When `string_util_snprintf` may be trusted: its test accepts one length too many.
use iot_eclipse.Base.{
  ℕ, zero, suc, ◌-◌, ◌^◌, ◌<◌, ◌≤◌, ◌≡◌, ◌≢◌, refl, ap, [], ◌∷◌, arith, length, take,
}
use iot_eclipse.Base.Bytes.{Bytes}
use iot_eclipse.Code.{ErrorCode}
use iot_eclipse.StringUtil.{snprintf}

pub take-length : (n : ℕ) (p : Bytes) → length p ≤ n → take n p ≡ p
take-length zero [] h = refl
take-length zero (c ∷ p) h = absurd (omega arith)
take-length (suc n) [] h = refl
take-length (suc n) (c ∷ p) h = ap (◌∷◌ c) (take-length n p (omega arith))

length-take-le : (n : ℕ) (p : Bytes) → length (take n p) ≤ n
length-take-le zero p = omega arith
length-take-le (suc n) [] = omega arith
length-take-le (suc n) (c ∷ p) = omega (arith, length-take-le n p)

-- A text that is not empty and fits with its terminator is written whole, and MCL_OK is returned.
pub snprintf_whole :
    (size : ℕ) (text : Bytes)
    → 0 < length text
    → length text < size
    → length text < 2 ^ 31
    → snprintf size text ≡ (ErrorCode.ok, text)
unfolding snprintf
snprintf_whole size text pos fits int =
    rw (take-length (size - 1) text (omega arith)) (ground arith)

-- A text as long as the buffer loses its last character to the terminator, and the code is MCL_OK
-- all the same.
pub snprintf_cut :
    (size : ℕ) (text : Bytes)
    → 0 < size
    → length text ≡ size
    → size < 2 ^ 31
    → ((snprintf size text).0 ≡ ErrorCode.ok) × ((snprintf size text).1 ≢ text)
unfolding snprintf
snprintf_cut size text pos same int =
    (ground arith, λ e. absurd (omega (arith, length-take-le (size - 1) text, ap length e)))
