-- ===== src/Base/Bytes.antt =====
-- Memory that holds characters. A pointer to characters is the list of the bytes from there to the
-- end of its block; a byte past the end reads as the terminating NUL, which is not stored.

use iot_eclipse.Base.Lists.{get_or}
use Prim.Native.Nat.{ℕ, ◌<◌}
use Prim.Native.Char.{code}
use Prim.Native.String.{String}
use mathlib.Core.List.{List, [], ◌∷◌}

abbrev pub Bytes : Type 0
Bytes = List ℕ

-- `p[i]`
abbrev pub at : Bytes → ℕ → ℕ
at p i = get_or p i 0

-- The codes of a literal of the source.
abbrev pub codes : String → Bytes
codes String.[] = []
codes (String.◌∷◌ c s) = code c ∷ codes s

abbrev pub All {ℓ κ} : {A : Type ℓ} → (A → Type κ) → List A → Type κ
All P [] = Unit
All P (x ∷ xs) = P x × All P xs

abbrev pub IsByte : ℕ → Type 0
IsByte b = b < 256

-- A byte that is no terminator.
abbrev pub NonNul : ℕ → Type 0
NonNul b = 0 < b
