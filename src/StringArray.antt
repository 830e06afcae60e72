-- ===== src/StringArray.antt =====
-- MindConnect_Library_V3.1.3.0/src/string_array.c: arrays of strings that grow by a fixed increment.
-- An array whose `items` are not NULL is a record, and `sizeof(string_array_item_t)` is 16.
pub mod Growth
pub mod Text
pub mod Blocks
mod Examples
use iot_eclipse.Base.{
  ℕ, ◌+◌, ◌-◌, ◌*◌, ◌/◌, ◌%◌, ◌^◌, Bool, true, false, not, Option, none, some, List, [], ◌∷◌, ◌++◌,
  ◌==◌, ltb, leb, if◌then◌else◌, length, take, drop, replicate, get_elem?, set,
}
use iot_eclipse.Base.Bytes.{Bytes}
use iot_eclipse.Code.{ErrorCode, ok, out_of_memory, invalid_parameter, is_ok}
use iot_eclipse.Memory.{
  M, pure, ◌>>=◌, ◌>>◌, memory_allocate, memory_reallocate, memory_release, fresh_from,
}
use iot_eclipse.StringUtil.{strlen}
use iot_eclipse.StringType.{StringT, add_size, string_initialize_dynamic, string_destroy}

-- `string_array_item_t`
pub record Item : Type 0 where
  pub string : Option StringT
  pub destroy : Bool

abbrev pub empty_item : Item
empty_item = record { string = none; destroy = false }

-- `string_array_t`
pub record StringArray : Type 0 where
  pub items : List Item
  pub increment_value : ℕ
  pub count : ℕ
  pub index : ℕ
  pub total_length : ℕ

-- `DEFAULT_INCREMENT_VALUE`
abbrev pub default_increment_value : ℕ
default_increment_value = 5

-- The bytes of `count` items, and the items that a block of that size has room for.
abbrev pub items_size : ℕ → ℕ
items_size count = count * 16 % 2 ^ 64

abbrev pub room : ℕ → ℕ
room count = items_size count / 16

abbrev pub new_array : ℕ → StringArray
new_array count = record {
  items = replicate (room count) empty_item;
  increment_value = default_increment_value;
  count = count;
  index = 0;
  total_length = 0;
}

allocate_items : ℕ → M (ErrorCode × Option StringArray)
unfolding memory_allocate memory_release
allocate_items count = do
  granted ← memory_allocate (items_size count)
  if granted
      then pure (ok, some (new_array count))
      else (memory_release true >> pure (out_of_memory, none))

-- `string_array_initialize`; `sizeof(string_array_t)` is 40.
unfoldable pub string_array_initialize : ℕ → M (ErrorCode × Option StringArray)
unfolding allocate_items memory_allocate
string_array_initialize count = if not (ltb 0 count) then pure (invalid_parameter, none) else (do
  granted ← memory_allocate 40
  if granted then allocate_items count else pure (out_of_memory, none))

-- `string_array_set_increment`
unfoldable pub string_array_set_increment : StringArray → ℕ → ErrorCode × StringArray
string_array_set_increment a increment_value =
    if not (ltb 0 increment_value)
    then (invalid_parameter, a)
    else (ok, record a { increment_value = increment_value })

-- The end of `string_array_add`.
unfoldable pub store_item : StringArray → StringT → Bool → StringArray
store_item a string destroy = record a {
  items = set a.items a.index (record { string = some string; destroy = destroy });
  index = add_size a.index 1;
  total_length = add_size a.total_length string.length;
}

-- The array after its items were resized.
unfoldable pub resized : StringArray → ℕ → ℕ → StringArray
resized a increment new_count = record a {
  items = take (room new_count) a.items ++ replicate (room new_count - length a.items) empty_item;
  increment_value = increment;
  count = new_count;
}

-- `string_array_add`. There is no array any more once its items could not be resized: they are NULL
-- then, and have been released.
unfoldable pub string_array_add : StringArray → StringT → Bool → M (ErrorCode × Option StringArray)
unfolding memory_reallocate
string_array_add a string destroy =
    if leb a.count a.index
    then (do
      let increment = if a.increment_value == 0 then default_increment_value else a.increment_value
      let new_count = add_size a.count increment
      granted ← memory_reallocate (items_size new_count)
      pure (
          if granted
          then (ok, some (store_item (resized a increment new_count) string destroy))
          else (out_of_memory, none)))
    else pure (ok, some (store_item a string destroy))

-- `string_array_get`
unfoldable pub string_array_get : StringArray → ℕ → Option StringT
string_array_get a i =
    if ltb i a.index
    then elim (get_elem? a.items i) [ none ↦ none | some item ↦ item.string ]
    else none

-- The loop of `string_array_destroy`
unfoldable pub destroy_items : List Item → M (Unit {0})
destroy_items [] = pure tt
destroy_items (item ∷ rest) =
    (if item.destroy then string_destroy item.string else pure tt) >> destroy_items rest

-- `string_array_destroy`, for an array that is there.
unfoldable pub string_array_destroy : StringArray → M (Unit {0})
unfolding memory_release
string_array_destroy a = do
  destroy_items (take a.count a.items)
  memory_release true
  memory_release true

-- The characters of the string of an item, and its length. (A string without a buffer adds nothing.)
abbrev pub item_text : Item → Bytes
item_text item = elim item.string [ none ↦ [] | some s ↦ elim s.buffer [ none ↦ [] | some p ↦ p ] ]

abbrev pub item_length : Item → ℕ
item_length item = elim item.string [ none ↦ 0 | some s ↦ s.length ]

-- `strncat` at an offset of a block: at most `n` characters, and a terminator, behind the text that
-- begins there.
unfoldable pub strncat_at : Bytes → ℕ → Bytes → ℕ → Bytes
unfolding strlen
strncat_at block offset source n =
    let start = offset + strlen (drop offset block) in
    let text = take (if ltb n (strlen source) then n else strlen source) source in
    take start block ++ (text ++ (0 ∷ drop (start + (length text + 1)) block))

-- The loop of `string_array_to_string`; `temp_buffer` is an offset.
unfoldable pub join_loop : List Item → Bytes → ℕ → Bytes
join_loop [] block offset = block
join_loop (item ∷ rest) block offset =
    join_loop rest (strncat_at block offset (item_text item) (item_length item))
      (offset + item_length item)

-- The string takes over the buffer, which is freed if there is no string.
unfoldable pub join_end : Bytes → ℕ → M (Option StringT)
unfolding memory_release
join_end block n = do
  (code, s) ← string_initialize_dynamic (some block) n
  if is_ok code then pure s else (memory_release true >> pure none)

-- `string_array_to_string`
unfoldable pub string_array_to_string : StringArray → M (Option StringT)
unfolding memory_allocate fresh_from
string_array_to_string a m =
    if a.total_length == 0
    then (none, m)
    else (let (granted, m') = memory_allocate (add_size a.total_length 1) m in
        if granted
        then join_end (join_loop (take a.index a.items) (0 ∷ fresh_from m a.total_length 1) 0)
            a.total_length m'
        else (none, m'))
