-- ===== src/StringArray/Blocks.antt =====
-- The blocks that an array holds, and gives back.
use iot_eclipse.Base.{
  ℕ, ◌+◌, ◌-◌, ◌≤◌, ◌≡◌, true, false, Option, none, some, List, [], ◌∷◌, if◌then◌else◌, take, arith,
}
use iot_eclipse.Code.{is_ok}
use iot_eclipse.Memory.{Memory, fresh_from}
use iot_eclipse.StringType.{string_destroy, string_initialize_dynamic}
use iot_eclipse.StringType.Build.{blocks}
use iot_eclipse.StringType.Destroy.{string_destroy-blocks}
use iot_eclipse.StringArray.{
  Item, StringArray, join_end, join_loop, string_array_to_string, destroy_items,
  string_array_destroy, string_array_initialize,
}

-- The blocks of the strings that an array destroys with itself.
abbrev pub owned : List Item → ℕ
owned [] = 0
owned (item ∷ rest) = (if item.destroy then blocks item.string else 0) + owned rest

destroy_items-owned :
    (items : List Item) (m : Memory) → (destroy_items items m).1.live ≡ m.live - owned items
unfolding destroy_items
destroy_items-owned [] m = omega arith
destroy_items-owned (item ∷ rest) m = ground (
  arith,
  string_destroy-blocks item.string m,
  destroy_items-owned rest m,
  destroy_items-owned rest (string_destroy item.string m).1,
)

-- `string_array_destroy` gives back the two blocks of the array and those of the strings that were
-- added to be destroyed with it, and leaves the others.
pub string_array_destroy_blocks :
    (a : StringArray) (m : Memory)
    → (string_array_destroy a m).1.live ≡ m.live - (owned (take a.count a.items) + 2)
unfolding string_array_destroy
string_array_destroy_blocks a m = ground (arith, destroy_items-owned (take a.count a.items) m)

-- The blocks of an array that is there.
abbrev pub array_blocks : Option StringArray → ℕ
array_blocks none = 0
array_blocks (some a) = 2

-- `string_array_initialize` takes just the two blocks of the array that it returns: if the second is
-- refused, the first is released.
pub string_array_initialize_blocks :
    (count : ℕ) (m : Memory)
    → let ((code, a), m') = string_array_initialize count m in m'.live ≡ m.live + array_blocks a
unfolding string_array_initialize
string_array_initialize_blocks count m = ground arith

dynamic_blocks :
    (block : List ℕ) (n : ℕ) (m : Memory)
    → let ((code, s), m') = string_initialize_dynamic (some block) n m in
      (is_ok code ≡ true → m'.live + 1 ≡ m.live + blocks s)
      × (is_ok code ≡ false → m'.live ≡ m.live)
unfolding string_initialize_dynamic
dynamic_blocks block n m = ground arith

join_end-blocks :
    (block : List ℕ) (n : ℕ) (m : Memory)
    → 1 ≤ m.live
    → let (s, m') = join_end block n m in m'.live + 1 ≡ m.live + blocks s
unfolding join_end
join_end-blocks block n m h = ground (arith, dynamic_blocks block n m)

-- `string_array_to_string` takes just the blocks of the string that it returns, and none if any of
-- its allocations fails.
pub string_array_to_string-blocks :
    (a : StringArray) (m : Memory)
    → let (s, m') = string_array_to_string a m in m'.live ≡ m.live + blocks s
unfolding string_array_to_string
string_array_to_string-blocks a m =
    let block = join_loop (take a.index a.items) (0 ∷ fresh_from m a.total_length 1) 0 in
    let m' = record m { asked = m.asked + 1; live = m.live + 1 } in
    ground (arith, join_end-blocks block a.total_length m' (omega arith))
