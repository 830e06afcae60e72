-- ===== src/StringType.antt =====
-- MindConnect_Library_V3.1.3.0/src/string_type.c: strings with their length and owner.
-- A `string_t *` that is NULL is `none`. Each allocated string is one block, and a second one for
-- its buffer if the string owns it.
pub mod Build
pub mod Destroy
pub mod Compare
pub mod Operations
pub mod Split
mod Examples
use iot_eclipse.Base.{
  ℕ, zero, suc, ◌+◌, ◌-◌, ◌*◌, ◌/◌, ◌%◌, ◌^◌, Bool, true, false, ◌&&◌, ◌||◌, Option, none, some,
  List, [], ◌∷◌, ◌++◌, ◌==◌, ltb, if◌then◌else◌, length, drop, take,
}
use iot_eclipse.Base.Bytes.{Bytes, at, codes}
use iot_eclipse.Code.{ErrorCode, ok, fail, out_of_memory, is_ok}
use iot_eclipse.Memory.{
  Memory, M, pure, ◌>>=◌, ◌>>◌, memory_allocate, memory_allocate_with_zero, memory_release,
  fresh_from,
}
use iot_eclipse.StringUtil.{strlen, strncpy, strncat, strncmp, snprintf, find}

-- `E_MCL_STRING_TYPE`
pub data StringKind : Type 0 where
  copy_destroy not_copy_destroy not_copy_not_destroy : StringKind

-- `string_t`. The bytes of a buffer stand without the terminator that the code writes behind them.
pub record StringT : Type 0 where
  pub buffer : Option Bytes
  pub length : ℕ
  pub kind : StringKind

abbrev pub is_copy : StringKind → Bool
is_copy copy_destroy = true
is_copy _ = false

-- The types whose buffer `string_release` frees.
abbrev pub frees : StringKind → Bool
frees not_copy_not_destroy = false
frees _ = true

-- `mcl_size_t` addition
abbrev pub add_size : ℕ → ℕ → ℕ
add_size a b = (a + b) % 2 ^ 64

-- A buffer of `n` bytes and a terminator, filled by `fill` from what the block held.
allocate_buffer : StringT → ℕ → (Bytes → Bytes) → M (ErrorCode × StringT)
unfolding memory_allocate fresh_from
allocate_buffer s n fill m =
    let (granted, m') = memory_allocate (add_size n 1) m in
    (
      if granted
          then (ok, record s { buffer = some (fill (fresh_from m n 0)); length = n })
          else (out_of_memory, record s { buffer = none }),
      m',
    )

-- `_initialize`
unfoldable pub initialize : StringT → Option Bytes → ℕ → M (ErrorCode × StringT)
unfolding allocate_buffer strlen strncpy
initialize s (some value) value_length =
    let n = if ltb 0 value_length then value_length else strlen value in
    if is_copy s.kind
    then allocate_buffer s n (λ _. strncpy value n)
    else pure (ok, record s { buffer = some value; length = n })
initialize s none value_length =
    if ltb 0 value_length && is_copy s.kind
    then allocate_buffer s value_length (λ junk. junk)
    else pure (ok, record s { buffer = none; length = 0 })

-- `sizeof(string_t)`
abbrev pub string_size : ℕ
string_size = 24

-- The fields that `_initialize` has not set yet are not read.
abbrev pub new_string : StringKind → StringT
new_string kind = record { buffer = none; length = 0; kind = kind }

-- A string whose `_initialize` failed is freed again.
keep_if_ok : ErrorCode × StringT → M (ErrorCode × Option StringT)
unfolding memory_release
keep_if_ok (code, s) =
    if is_ok code then pure (code, some s) else (memory_release true >> pure (code, none))

-- What the four functions that create a string have in common: a new `string_t` of the given type.
create : StringKind → Option Bytes → ℕ → M (ErrorCode × Option StringT)
unfolding memory_allocate initialize keep_if_ok
create kind value value_length = do
  granted ← memory_allocate string_size
  if granted
      then initialize (new_string kind) value value_length >>= keep_if_ok
      else pure (out_of_memory, none)

-- `string_initialize`
unfoldable pub string_initialize : StringT → M (ErrorCode × Option StringT)
unfolding create
string_initialize other = create copy_destroy other.buffer other.length

-- `string_initialize_new`
unfoldable pub string_initialize_new : Option Bytes → ℕ → M (ErrorCode × Option StringT)
unfolding create
string_initialize_new = create copy_destroy

-- `string_initialize_dynamic`
unfoldable pub string_initialize_dynamic : Option Bytes → ℕ → M (ErrorCode × Option StringT)
unfolding create
string_initialize_dynamic = create not_copy_destroy

-- `string_initialize_static`
unfoldable pub string_initialize_static : Option Bytes → ℕ → M (ErrorCode × Option StringT)
unfolding create
string_initialize_static = create not_copy_not_destroy

-- `string_release`
release : Option Bytes → StringT → M StringT
unfolding memory_release
release none s = pure s
release (some _) s = do memory_release (frees s.kind); pure (record s { buffer = none; length = 0 })

unfoldable pub string_release : StringT → M StringT
unfolding release
string_release s = release s.buffer s

-- `string_destroy`; the caller's pointer is NULL afterwards.
unfoldable pub string_destroy : Option StringT → M (Unit {0})
unfolding string_release memory_release
string_destroy none = pure tt
string_destroy (some s) = do _ ← string_release s; memory_release true

-- `string_set`: the old buffer is released first, and is gone also if the new one fails.
unfoldable pub string_set : StringT → Option Bytes → ℕ → M (ErrorCode × StringT)
unfolding string_release initialize
string_set s value value_length = do
  emptied ← string_release s
  initialize emptied value value_length

-- `string_compare_with_cstr`; `aliased` says that the buffer and `other` are the same pointer.
compare_buffer : Bool → ℕ → Option Bytes → Option Bytes → ErrorCode
unfolding strlen strncmp
compare_buffer aliased n none other = fail
compare_buffer aliased n (some buffer) none = fail
compare_buffer aliased n (some buffer) (some other) =
    if aliased
    then ok
    else if strlen other == n
    then (if strncmp buffer other n then ok else fail)
    else fail

unfoldable pub string_compare_with_cstr : Bool → Option StringT → Option Bytes → ErrorCode
unfolding compare_buffer
string_compare_with_cstr aliased none other = fail
string_compare_with_cstr aliased (some s) other = compare_buffer aliased s.length s.buffer other

-- `string_compare`
unfoldable pub string_compare : Bool → Option StringT → StringT → ErrorCode
unfolding string_compare_with_cstr
string_compare aliased s other = string_compare_with_cstr aliased s other.buffer
