-- ===== src/StringType/Build.antt =====
-- What a new string holds, and the blocks that it takes.
use iot_eclipse.Base.{
  ℕ, suc, ◌+◌, ◌-◌, ◌<◌, ◌∙◌, ◌^◌, ◌≡◌, true, false, Option, none, some, arith, if◌then◌else◌,
  length,
}
use iot_eclipse.Base.Bytes.{Bytes, All, NonNul}
use iot_eclipse.Code.{ErrorCode, ok, out_of_memory, is_ok}
use iot_eclipse.Memory.{Memory}
use iot_eclipse.StringUtil.{strncpy}
use iot_eclipse.StringUtil.Length.{strlen-All, strncpy-take}
use iot_eclipse.StringUtil.Print.{take-length}
use iot_eclipse.StringType.{
  StringT, StringKind, copy_destroy, frees, string_initialize_new, string_initialize_dynamic,
}

-- The environment grants every request.
abbrev pub Grants : Memory → Type 0
Grants m = (k : ℕ) → m.answers k ≡ true

-- The blocks of a buffer that its string frees.
abbrev pub buffer_blocks : Option Bytes → StringKind → ℕ
buffer_blocks none kind = 0
buffer_blocks (some _) kind = if frees kind then 1 else 0

-- The blocks that `string_destroy` gives back.
abbrev pub blocks : Option StringT → ℕ
blocks none = 0
blocks (some s) = suc (buffer_blocks s.buffer s.kind)

-- The code is MCL_OK exactly when there is a string.
abbrev pub Agree : ErrorCode → Option StringT → Type 0
Agree code none = code ≡ out_of_memory
Agree code (some s) = code ≡ ok

-- There is a result exactly when the code is MCL_OK.
abbrev pub Returned : {A : Type 0} → ErrorCode → Option A → Type 0
Returned code none = is_ok code ≡ false
Returned code (some _) = is_ok code ≡ true

-- A copying initializer takes just the blocks of the string that it returns: on every failure it
-- has released what it took, and returns no string.
pub string_initialize_new-blocks :
    (value : Option Bytes) (n : ℕ) (m : Memory)
    → let ((code, s), m') = string_initialize_new value n m in
      Agree code s × (m'.live ≡ m.live + blocks s)
unfolding string_initialize_new
string_initialize_new-blocks none n m = ground arith
string_initialize_new-blocks (some value) n m = ground arith

-- The initializer that takes over its buffer takes one block beside it, or none if it fails.
pub string_initialize_dynamic_blocks :
    (value : Bytes) (n : ℕ) (m : Memory)
    → let ((code, s), m') = string_initialize_dynamic (some value) n m in
      Agree code s × (m'.live ≡ m.live + (if is_ok code then 1 else 0))
unfolding string_initialize_dynamic
string_initialize_dynamic_blocks value n m = ground arith

copy-All : (text : Bytes) → All NonNul text → strncpy text (length text) ≡ text
copy-All text nn =
    strncpy-take text (length text) (omega (arith, strlen-All text nn))
    ∙ take-length (length text) text (omega arith)

-- `string_initialize_new` copies a text without NUL whole, with its length, if memory is granted and
-- the length with a terminator can be counted.
pub string_initialize_new_text :
    (text : Bytes) (m : Memory)
    → All NonNul text
    → length text < 2 ^ 64 - 1
    → Grants m
    → (string_initialize_new (some text) (length text) m).0
      ≡ (ok, some (record { buffer = some text; length = length text; kind = copy_destroy }))
unfolding string_initialize_new
string_initialize_new_text text m nn small g =
    ground (arith, g m.asked, g (m.asked + 1), strlen-All text nn, copy-All text nn)
