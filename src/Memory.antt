-- ===== src/Memory.antt =====
-- MindConnect_Library_V3.1.3.0/src/memory.c: the allocator that every other module calls.
-- `malloc` itself is the environment: `answers` says which requests it grants, and `junk` what a
-- new block holds before it is written. `live` counts the blocks given out and not yet released.
use iot_eclipse.Base.{ℕ, zero, suc, ◌+◌, ◌-◌, Bool, true, false, [], ◌∷◌, ◌==◌, if◌then◌else◌, ◌||◌}
use iot_eclipse.Base.Bytes.{Bytes}

pub record Memory : Type 0 where
  pub answers : ℕ → Bool
  pub junk : ℕ → ℕ
  pub asked : ℕ
  pub live : ℕ

-- A command that may allocate and release.
abbrev pub M : Type 0 → Type 0
M A = Memory → A × Memory

abbrev pub pure : {A : Type 0} → A → M A
pure a m = (a, m)

infixl 5 ◌>>=◌ ◌>>◌
abbrev pub ◌>>=◌ : {A B : Type 0} → M A → (A → M B) → M B
command >>= next = λ memory. let (result, memory') = command memory in next result memory'

abbrev pub ◌>>◌ : {B : Type 0} → M (Unit {0}) → M B → M B
command >> next = command >>= λ _. next

-- `memory_malloc`: the next answer of the environment.
unfoldable pub memory_malloc : M Bool
memory_malloc m =
    if m.answers m.asked
    then (true, record m { asked = m.asked + 1; live = m.live + 1 })
    else (false, record m { asked = m.asked + 1 })

-- `memory_allocate`: a request of no bytes is refused; true for a pointer that is not NULL.
unfoldable pub memory_allocate : ℕ → M Bool
unfolding memory_malloc
memory_allocate bytes = if bytes == 0 then pure false else memory_malloc

-- `memory_allocate_with_zero`
unfoldable pub memory_allocate_with_zero : ℕ → ℕ → M Bool
unfolding memory_malloc
memory_allocate_with_zero count bytes =
    if count == 0 || bytes == 0 then pure false else memory_malloc

-- `memory_free`
unfoldable pub memory_free : M (Unit {0})
memory_free m = (tt, record m { live = m.live - 1 })

-- `memory_release`: nothing happens to a NULL pointer.
unfoldable pub memory_release : Bool → M (Unit {0})
unfolding memory_free
memory_release present = if present then memory_free else pure tt

-- `memory_reallocate`: if the block cannot be resized it is released, and the result is NULL.
unfoldable pub memory_reallocate : ℕ → M Bool
unfolding memory_release
memory_reallocate bytes m =
    if bytes == 0
    then (false, m)
    else if m.answers m.asked
    then (true, record m { asked = m.asked + 1 })
    else (let (_, m') = memory_release true (record m { asked = m.asked + 1 }) in (false, m'))

-- What a new block of `n` bytes holds.
unfoldable pub fresh_from : Memory → ℕ → ℕ → Bytes
fresh_from m zero i = []
fresh_from m (suc n) i = m.junk i ∷ fresh_from m n (i + 1)
