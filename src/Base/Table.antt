-- ===== src/Base/Table.antt =====
-- Facts over a small range, checked at every value by evaluation.
use Prim.Native.Nat.{ℕ, zero, suc, ◌<◌}
use mathlib.Core.Path.{◌≡◌}
use mathlib.Core.Bool.{Bool, true, ◌&&◌}
use native.Mathlib.Omega.{arith}
use iot_eclipse.Base.Tests.{◌==◌}

unfoldable pub check_below : ℕ → (ℕ → Bool) → Bool
check_below zero test = true
check_below (suc k) test = check_below k test && test k

pub check_below_sound :
    (bound : ℕ) (test : ℕ → Bool) (i : ℕ)
    → i < bound
    → check_below bound test ≡ true
    → test i ≡ true
unfolding check_below
check_below_sound zero test i lt all = absurd (omega arith)
check_below_sound (suc k) test i lt all = ground (arith, check_below_sound k test i)

pub agree_below :
    (n : ℕ) (f g : ℕ → ℕ) (x : ℕ) → check_below n (λ i. f i == g i) ≡ true → x < n → f x ≡ g x
agree_below n f g x h lt = ground (arith, check_below_sound n (λ i. f i == g i) x lt h)
