-- ===== src/StringType/Split.antt =====
-- `string_split` of string_type.c, over the list of list.c seen as the sequence of its items: one
-- block for the list and one for each node. (`LinkedList` has the pointers.)
pub mod Blocks
use iot_eclipse.Base.{
  ℕ, zero, suc, ◌+◌, ◌-◌, ◌^◌, Bool, true, false, not, ◌&&◌, Option, none, some, List, [], ◌∷◌,
  ◌++◌, ltb, ◌==◌, if◌then◌else◌, length, drop,
}
use iot_eclipse.Base.Bytes.{Bytes, at}
use iot_eclipse.Code.{ErrorCode, ok, out_of_memory, limit_exceeded, is_ok}
use iot_eclipse.Memory.{M, pure, ◌>>=◌, ◌>>◌, memory_allocate, memory_release}
use iot_eclipse.StringType.{StringT, string_initialize_new, string_destroy}

-- `list_initialize`: true for a list; `sizeof(list_t)` is 32.
unfoldable pub list_initialize : M Bool
unfolding memory_allocate
list_initialize = memory_allocate 32

-- `list_add`; `sizeof(list_node_t)` is 24.
unfoldable pub list_add : {A : Type 0} → List A → A → M (ErrorCode × List A)
unfolding memory_allocate
list_add items item =
    if ltb (length items) (2 ^ 64 - 1)
    then (do
      granted ← memory_allocate 24
      pure (if granted then (ok, items ++ (item ∷ [])) else (out_of_memory, items)))
    else pure (limit_exceeded, items)

-- `list_destroy_with_content` with `string_destroy`.
unfoldable pub destroy_strings : List StringT → M (Unit {0})
unfolding memory_release
destroy_strings [] = memory_release true
destroy_strings (s ∷ rest) = do string_destroy (some s); memory_release true; destroy_strings rest

unfoldable pub add_string : List StringT → ErrorCode × Option StringT → M (ErrorCode × List StringT)
add_string items (code, none) = pure (code, items)
add_string items (code, some s) = do
  (added, items') ← list_add items s
  if is_ok added then pure (added, items') else (string_destroy (some s) >> pure (added, items))

-- A part of the text is copied into a new string, which joins the list, or is destroyed.
unfoldable pub add_part : List StringT → Bytes → ℕ → M (ErrorCode × List StringT)
add_part items start n = string_initialize_new (some start) n >>= add_string items

-- The loop's variables: `temp_buffer` as an offset, and `temp_length`.
pub record Cursor : Type 0 where
  pub offset : ℕ
  pub pending : ℕ

abbrev pub cursor : ℕ → ℕ → Cursor
cursor a b = record { offset = a; pending = b }

-- The loop over the characters, `k` rounds before the end. It leaves early if a part is not added.
unfoldable pub split_loop :
    ℕ → Bytes → ℕ → ℕ → Cursor → List StringT → M (ErrorCode × List StringT × Cursor)
split_loop zero p token index c items m = ((ok, items, c), m)
split_loop (suc k) p token index c items m = elim (at p index == token) [
  | false ↦ split_loop k p token (index + 1) (cursor c.offset (c.pending + 1)) items m
  | true ↦ elim (ltb 0 c.pending) [
    | false ↦ split_loop k p token (index + 1) (cursor (c.offset + 1) 0) items m
    | true ↦
        let ((code, items'), m') = add_part items (drop c.offset p) c.pending m in
        elim (is_ok code) [
          | true ↦
              split_loop k p token (index + 1) (cursor (c.offset + (c.pending + 1)) 0) items' m'
          | false ↦ ((code, items', cursor c.offset 0), m')
        ]
  ]
]

-- What is left behind the last token.
unfoldable pub split_rest : Bytes → ErrorCode × List StringT × Cursor → M (ErrorCode × List StringT)
split_rest p (code, items, c) =
    if is_ok code && (ltb 0 c.pending && not (at p c.offset == 0))
    then add_part items (drop c.offset p) c.pending
    else pure (code, items)

unfoldable pub split_end : ErrorCode × List StringT → M (ErrorCode × Option (List StringT))
split_end (code, items) =
    if is_ok code then pure (code, some items) else (destroy_strings items >> pure (code, none))

-- `string_split`, for a string that has a buffer `p` and a length `n`.
unfoldable pub string_split : Bytes → ℕ → ℕ → M (ErrorCode × Option (List StringT))
unfolding list_initialize
string_split p n token = do
  granted ← list_initialize
  if granted
      then (split_loop n p token 0 (cursor 0 0) [] >>= split_rest p) >>= split_end
      else pure (out_of_memory, none)
