-- ===== src/StringType/Destroy.antt =====
-- Releasing strings, and setting them anew.
use iot_eclipse.Base.{ℕ, ◌+◌, ◌-◌, ◌≤◌, ◌≡◌, refl, ◌≢◌, false, Option, none, some, arith}
use iot_eclipse.Base.Bytes.{Bytes}
use iot_eclipse.Code.{is_ok}
use iot_eclipse.Memory.{Memory}
use iot_eclipse.StringType.{
  StringT, StringKind, string_initialize_new, string_destroy, string_set, not_copy_destroy,
}
use iot_eclipse.StringType.Build.{blocks, string_initialize_new-blocks}

destroy_some :
    (b : Option Bytes) (n : ℕ) (k : StringKind) (m : Memory)
    → let s : Option StringT = some (record { buffer = b; length = n; kind = k }) in
      (string_destroy s m).1.live ≡ m.live - blocks s
unfolding string_destroy
destroy_some none n k m = ground arith
destroy_some (some p) n k m = ground arith

-- `string_destroy` gives back the blocks of its string, and none for a NULL pointer.
pub string_destroy-blocks :
    (s : Option StringT) (m : Memory) → (string_destroy s m).1.live ≡ m.live - blocks s
string_destroy-blocks none m = unfold string_destroy in ground arith
string_destroy-blocks (some s) m = destroy_some s.buffer s.length s.kind m

-- A new string that is destroyed leaves as many blocks as before, whether it could be made or not.
pub destroy-new :
    (value : Option Bytes) (n : ℕ) (m : Memory)
    → let ((_, s), m') = string_initialize_new value n m in (string_destroy s m').1.live ≡ m.live
destroy-new value n m =
    let ((_, s), m') = string_initialize_new value n m in
    omega (arith, string_destroy-blocks s m', string_initialize_new-blocks value n m)

set_some :
    (b value : Option Bytes) (l n : ℕ) (k : StringKind) (m : Memory)
    → let s : StringT = record { buffer = b; length = l; kind = k } in
      blocks (some s) ≤ m.live
      → (b ≡ none → l ≡ 0)
      → let ((code, s'), m') = string_set s value n m in
        (s'.kind ≡ k)
        × (k ≢ not_copy_destroy → m'.live + blocks (some s) ≡ m.live + blocks (some s'))
        × (is_ok code ≡ false → (s'.buffer ≡ none) × (s'.length ≡ 0))
unfolding string_set
set_some none none l n k m h e = ground (arith, e refl)
set_some none (some value) l n k m h e = ground (arith, e refl)
set_some (some b) none l n k m h e = ground arith
set_some (some b) (some value) l n k m h e = ground arith

-- `string_set` keeps the type of its string, and the count of blocks moves with those that the
-- string owns before and after, unless the string takes over the given buffer. If it fails, the
-- string is left empty. A string without a buffer is asked to have the length 0.
pub string_set-blocks :
    (s : StringT) (value : Option Bytes) (n : ℕ) (m : Memory)
    → blocks (some s) ≤ m.live
    → (s.buffer ≡ none → s.length ≡ 0)
    → let ((code, s'), m') = string_set s value n m in
      (s'.kind ≡ s.kind)
      × (s.kind ≢ not_copy_destroy → m'.live + blocks (some s) ≡ m.live + blocks (some s'))
      × (is_ok code ≡ false → (s'.buffer ≡ none) × (s'.length ≡ 0))
string_set-blocks s value n m h e = set_some s.buffer value s.length n s.kind m h e
