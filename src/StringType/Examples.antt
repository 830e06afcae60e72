-- ===== src/StringType/Examples.antt =====
-- Tests of the functions of string_type.c, and the theorems at concrete strings.
use iot_eclipse.Base.{
  ℕ, ◌+◌, ◌≡◌, ◌≢◌, ◌↔◌, refl, true, false, none, some, [], ◌∷◌, arith, take, length, ltb,
}
use iot_eclipse.Base.Bytes.{Bytes, codes}
use iot_eclipse.Code.{ok, out_of_memory, is_ok}
use iot_eclipse.Memory.{Memory}
use iot_eclipse.StringUtil.{strlen, find}
use iot_eclipse.StringType.{
  StringT, copy_destroy, not_copy_destroy, string_initialize_new, string_destroy, string_set,
  string_compare_with_cstr,
}
use iot_eclipse.StringType.Build.{
  Agree, blocks, string_initialize_new-blocks, string_initialize_new_text,
}
use iot_eclipse.StringType.Destroy.{destroy-new, string_set-blocks}
use iot_eclipse.StringType.{not_copy_destroy}
use iot_eclipse.StringType.Build.{Returned}
use iot_eclipse.StringType.Compare.{compare-text}
use iot_eclipse.StringType.Operations.{
  string_concatenate, string_replace, string_convert_binary_to_hex,
}
use iot_eclipse.StringType.Operations.Concatenate.{
  IsText, Settled, string_concatenate_text, string_concatenate-blocks,
}
use iot_eclipse.StringType.Operations.Replace.{string_replace_text, string_replace_loses}
use iot_eclipse.StringType.Operations.Hex.{from_hex, from_hex-convert}
use iot_eclipse.StringType.Split.{string_split}
use iot_eclipse.StringType.Split.Blocks.{list_blocks, string_split_blocks}

-- Every request is granted, and the first `n` requests only.
abbrev pub plenty : Memory
plenty = record { answers = λ _. true; junk = λ _. 0; asked = 0; live = 5 }

abbrev pub scarce : ℕ → Memory
scarce n = record { answers = λ k. ltb k n; junk = λ _. 0; asked = 0; live = 5 }

abbrev text : Bytes
text = codes "2.0"

abbrev version : StringT
version = record { buffer = some text; length = 3; kind = copy_destroy }

failed_test : (string_initialize_new (some text) 0 (scarce 1)).1.live ≡ 5
unfolding string_initialize_new
failed_test = refl

string_initialize_new-blocks_test :
    let ((code, s), m') = string_initialize_new (some text) 3 (scarce 1) in
    Agree code s × (m'.live ≡ 5 + blocks s)
string_initialize_new-blocks_test = string_initialize_new-blocks (some text) 3 (scarce 1)

string_initialize_new_text_test :
    (string_initialize_new (some text) 3 plenty).0 ≡ (ok, some version)
string_initialize_new_text_test =
    string_initialize_new_text text plenty (omega arith) (omega arith) (λ k. refl)

destroy-new_test :
    let ((_, s), m') = string_initialize_new (some text) 3 plenty in
    (string_destroy s m').1.live ≡ 5
destroy-new_test = destroy-new (some text) 3 plenty

string_set-blocks_example :
    let ((code, s'), m') = string_set version (some (codes "1.0")) 3 (scarce 0) in
    (s'.kind ≡ copy_destroy)
    × (copy_destroy ≢ not_copy_destroy → m'.live + 2 ≡ 5 + blocks (some s'))
    × (is_ok code ≡ false → (s'.buffer ≡ none) × (s'.length ≡ 0))
string_set-blocks_example =
    string_set-blocks version (some (codes "1.0")) 3 (scarce 0) (omega arith) (λ e. ground arith)

compare-text_example :
    (string_compare_with_cstr false (some version) (some (codes "2.1")) ≡ ok)
    ↔ (take (strlen text) text ≡ take (strlen (codes "2.1")) (codes "2.1"))
compare-text_example = compare-text version text (codes "2.1") refl (unfold strlen in refl)

abbrev one_one : StringT
one_one = record { buffer = some (codes "1.1"); length = 3; kind = copy_destroy }

version-IsText : IsText version text
version-IsText = record {
  buffer = refl;
  size = refl;
  plain = (omega arith, (omega arith, (omega arith, tt)));
}

one-IsText : IsText one_one (codes "1.1")
one-IsText = record {
  buffer = refl;
  size = refl;
  plain = (omega arith, (omega arith, (omega arith, tt)));
}

string_concatenate_text_example :
    (string_concatenate version one_one plenty).0
    ≡ some (ok, some (record { buffer = some (codes "2.01.1"); length = 6; kind = copy_destroy }))
string_concatenate_text_example =
    string_concatenate_text version one_one text (codes "1.1") plenty version-IsText one-IsText
      (λ k. refl) (omega arith) (omega arith)

string_concatenate-blocks_example : Settled 5 (string_concatenate version one_one (scarce 1))
string_concatenate-blocks_example =
    string_concatenate-blocks version one_one (scarce 1) (omega arith)

found : find text (codes ".") ≡ some 1
unfolding find
found = refl

string_replace_text_example :
    (string_replace version text (codes ".") (codes "--") plenty).0
    ≡ (ok, some (record { buffer = some (codes "2--0"); length = 4; kind = not_copy_destroy }))
string_replace_text_example =
    string_replace_text version text (codes ".") (codes "--") 1 plenty version-IsText
      (omega arith, tt) (omega arith, (omega arith, tt)) (λ k. refl) found (omega arith)

string_replace_loses_example :
    let ((code, r), m') = string_replace version text (codes ".") (codes "-") (scarce 1) in
    (code ≡ out_of_memory) × (r ≡ none) × (m'.live ≡ 6)
unfolding strlen
string_replace_loses_example =
    string_replace_loses version text (codes ".") (codes "-") 1 (scarce 1) found (omega arith) refl
      refl

from_hex-convert_example :
    (digits : Bytes) × ((string_convert_binary_to_hex (10 ∷ 255 ∷ []) plenty).0
      ≡ (ok, some (record { buffer = some digits; length = 4; kind = copy_destroy })))
    × (length digits ≡ 4)
    × (from_hex digits ≡ 10 ∷ 255 ∷ [])
from_hex-convert_example =
    from_hex-convert (10 ∷ 255 ∷ []) plenty (λ k. refl) (omega arith, (omega arith, tt))
      (omega arith)

string_split_blocks_example :
    let ((code, result), m') = string_split text 3 46 (scarce 4) in
    Returned code result × (m'.live ≡ 5 + list_blocks result)
string_split_blocks_example = string_split_blocks text 3 46 (scarce 4)
