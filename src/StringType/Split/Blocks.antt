-- ===== src/StringType/Split/Blocks.antt =====
-- The blocks that `string_split` holds: on every failure it has released all that it took.
use iot_eclipse.Base.{
  ℕ, zero, suc, ◌+◌, ◌-◌, ◌≤◌, ◌≡◌, refl, false, Option, none, some, List, [], ◌∷◌, ◌++◌, arith,
  if◌then◌else◌, drop,
}
use iot_eclipse.Base.Bytes.{Bytes}
use iot_eclipse.Code.{ErrorCode, is_ok}
use iot_eclipse.Memory.{Memory, memory_free, ◌>>=◌}
use iot_eclipse.StringType.{StringT, string_initialize_new, string_destroy}
use iot_eclipse.StringType.Build.{Returned, blocks, string_initialize_new-blocks}
use iot_eclipse.StringType.Destroy.{string_destroy-blocks}
use iot_eclipse.StringType.Split.{
  Cursor, cursor, list_add, add_string, add_part, split_loop, split_rest, split_end,
  destroy_strings, string_split,
}

-- The blocks of the strings of a list and of the nodes that hold them.
abbrev pub held : List StringT → ℕ
held [] = 0
held (s ∷ rest) = suc (blocks (some s)) + held rest

held-append : (xs ys : List StringT) → held (xs ++ ys) ≡ held xs + held ys
held-append [] ys = omega arith
held-append (s ∷ xs) ys = omega (arith, held-append xs ys)

list_add-held :
    (items : List StringT) (s : StringT) (m : Memory)
    → let ((code, items'), m') = list_add items s m in
      m'.live + held items + (if is_ok code then blocks (some s) else 0) ≡ m.live + held items'
unfolding list_add
list_add-held items s m = ground (arith, held-append items (s ∷ []))

list_add_code :
    (items : List StringT) (s : StringT) (m : Memory)
    → let ((code, items'), m') = list_add items s m in
      is_ok code ≡ false → (m'.live ≡ m.live) × (items' ≡ items)
unfolding list_add
list_add_code items s m = ground arith

add_string-held :
    (items : List StringT) (code : ErrorCode) (s : Option StringT) (m : Memory)
    → blocks s ≤ m.live
    → let ((_, items'), m') = add_string items (code, s) m in
      m'.live + held items + blocks s ≡ m.live + held items'
unfolding add_string
add_string-held items code none m h = omega arith
add_string-held items code (some s) m h =
    let ((added, items'), m') = list_add items s m in
    ground
      (arith, list_add-held items s m, list_add_code items s m, string_destroy-blocks (some s) m')

add_part-held :
    (items : List StringT) (start : Bytes) (n : ℕ) (m : Memory)
    → let ((_, items'), m') = add_part items start n m in
      m'.live + held items ≡ m.live + held items'
unfolding add_part
add_part-held items start n m =
    let ((code, s), m') = string_initialize_new (some start) n m in
    let made = string_initialize_new-blocks (some start) n m in
    omega (arith, made.1, add_string-held items code s m' (omega (arith, made.1)))

split_loop-held :
    (k : ℕ) (p : Bytes) (token index : ℕ) (c : Cursor) (items : List StringT) (m : Memory)
    → let ((_, items', _), m') = split_loop k p token index c items m in
      m'.live + held items ≡ m.live + held items'
unfolding split_loop
split_loop-held zero p token index c items m = refl
split_loop-held (suc k) p token index c items m =
    let ((code, items'), m') = add_part items (drop c.offset p) c.pending m in
    ground (
      arith,
      add_part-held items (drop c.offset p) c.pending m,
      split_loop-held k p token (index + 1) (cursor c.offset (c.pending + 1)) items m,
      split_loop-held k p token (index + 1) (cursor (c.offset + 1) 0) items m,
      split_loop-held k p token (index + 1) (cursor (c.offset + (c.pending + 1)) 0) items' m',
    )

split_rest-held :
    (p : Bytes) (code : ErrorCode) (items : List StringT) (c : Cursor) (m : Memory)
    → let ((_, items'), m') = split_rest p (code, items, c) m in
      m'.live + held items ≡ m.live + held items'
unfolding split_rest
split_rest-held p code items c m = ground (arith, add_part-held items (drop c.offset p) c.pending m)

destroy_strings-held :
    (items : List StringT) (m : Memory)
    → (destroy_strings items m).1.live ≡ m.live - (held items + 1)
unfolding destroy_strings memory_free
destroy_strings-held [] m = ground arith
destroy_strings-held (s ∷ rest) m =
    let m' = (string_destroy (some s) m).1 in
    omega (
      arith,
      string_destroy-blocks (some s) m,
      destroy_strings-held rest (record m' { live = m'.live - 1 }),
    )

-- The blocks of the list that `string_split` returns: that of the list, and those of its items.
abbrev pub list_blocks : Option (List StringT) → ℕ
list_blocks none = 0
list_blocks (some items) = held items + 1

split_end-Returned :
    (r : ErrorCode × List StringT) (m : Memory)
    → let ((code, result), _) = split_end r m in Returned code result
unfolding split_end
split_end-Returned (code, items) m = ground arith

split_end-held :
    (code : ErrorCode) (items : List StringT) (m : Memory)
    → held items + 1 ≤ m.live
    → let ((_, result), m') = split_end (code, items) m in
      m'.live + (held items + 1) ≡ m.live + list_blocks result
unfolding split_end
split_end-held code items m h = ground (arith, destroy_strings-held items m)

split_parts_held :
    (p : Bytes) (n token : ℕ) (m : Memory)
    → 1 ≤ m.live
    → let ((_, result), m') =
        ((split_loop n p token 0 (cursor 0 0) [] >>= split_rest p) >>= split_end) m in
      m'.live + 1 ≡ m.live + list_blocks result
split_parts_held p n token m h =
    let ((code, items, c), m1) = split_loop n p token 0 (cursor 0 0) [] m in
    let ((code', items'), m2) = split_rest p (code, items, c) m1 in
    let first = split_loop-held n p token 0 (cursor 0 0) [] m in
    let second = split_rest-held p code items c m1 in
    omega (arith, first, second, split_end-held code' items' m2 (omega (arith, first, second)))

-- `string_split` returns a list exactly when its code is MCL_OK, and takes just the blocks of the list
-- that it returns: so on every failure it returns none, and has released the parts that it made
-- before, their nodes and the list.
pub string_split_blocks :
    (p : Bytes) (n token : ℕ) (m : Memory)
    → let ((code, result), m') = string_split p n token m in
      Returned code result × (m'.live ≡ m.live + list_blocks result)
unfolding string_split
string_split_blocks p n token m =
    let m' = record m { asked = m.asked + 1; live = m.live + 1 } in
    let (r, m'') = (split_loop n p token 0 (cursor 0 0) [] >>= split_rest p) m' in
    ground (arith, split_parts_held p n token m' (omega arith), split_end-Returned r m'')
