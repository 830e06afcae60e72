-- ===== src/StringArray/Examples.antt =====
-- An array of one string, and the theorems at it.
use iot_eclipse.Base.{◌+◌, ◌-◌, ◌≡◌, refl, true, some, [], ◌∷◌, arith, ltb}
use iot_eclipse.Base.Bytes.{codes}
use iot_eclipse.Memory.{Memory}
use iot_eclipse.StringType.{StringT, copy_destroy}
use iot_eclipse.StringType.Build.{blocks}
use iot_eclipse.StringArray.{
  StringArray, string_array_initialize, string_array_add, string_array_to_string,
  string_array_destroy,
}
use iot_eclipse.StringArray.Growth.{WellFormed, Added, string_array_add-get}
use iot_eclipse.StringArray.Text.{joined, Joined, string_array_to_string-joined}
use iot_eclipse.StringArray.Blocks.{
  array_blocks, string_array_destroy_blocks, string_array_initialize_blocks,
  string_array_to_string-blocks,
}

abbrev plenty : Memory
plenty = record { answers = λ _. true; junk = λ _. 0; asked = 0; live = 7 }

abbrev once : Memory
once = record { answers = λ k. ltb k 1; junk = λ _. 0; asked = 0; live = 7 }

abbrev name : StringT
name = record { buffer = some (codes "id"); length = 2; kind = copy_destroy }

abbrev full : StringArray
full = record {
  items = (record { string = some name; destroy = true }) ∷ [];
  increment_value = 5;
  count = 1;
  index = 1;
  total_length = 2;
}

full-WellFormed : WellFormed full
full-WellFormed = record {
  inside = omega arith;
  whole = refl;
  small = omega arith;
  step = omega arith;
}

string_array_add-get_example :
    let ((code, b), m') = string_array_add full name true plenty in Added full name plenty code b m'
string_array_add-get_example =
    string_array_add-get full name true plenty full-WellFormed (omega arith)

string_array_to_string-joined_example :
    (s : StringT) × ((string_array_to_string full plenty).0 ≡ some s) × Joined full.items s
unfolding joined
string_array_to_string-joined_example =
    string_array_to_string-joined full plenty (λ k. refl)
      (((omega arith, (omega arith, tt)), refl), tt) refl (omega arith) (omega arith)

string_array_destroy_blocks_test : (string_array_destroy full plenty).1.live ≡ 7 - (2 + 2)
string_array_destroy_blocks_test = string_array_destroy_blocks full plenty

string_array_initialize_blocks_test :
    let ((code, a), m') = string_array_initialize 4 once in m'.live ≡ 7 + array_blocks a
string_array_initialize_blocks_test = string_array_initialize_blocks 4 once

string_array_to_string-blocks_example :
    let (s, m') = string_array_to_string full once in m'.live ≡ 7 + blocks s
string_array_to_string-blocks_example = string_array_to_string-blocks full once
