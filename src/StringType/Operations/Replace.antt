-- ===== src/StringType/Operations/Replace.antt =====
-- What `string_replace` returns, and the block that it loses.
use iot_eclipse.Base.{
  ℕ, suc, zero, ◌+◌, ◌-◌, ◌%◌, ◌^◌, ◌<◌, ◌≤◌, ◌≡◌, true, false, none, some, [], ◌∷◌, ◌++◌, length,
  length-drop, length-take, length-append, take, arith, ◌∙◌, ap, drop,
}
use mathlib.Core.List.{append_assoc}
use iot_eclipse.Base.Bytes.{Bytes, All, NonNul}
use iot_eclipse.Code.{ok, out_of_memory}
use iot_eclipse.Memory.{Memory}
use iot_eclipse.StringUtil.{strlen, strncat, find}
use iot_eclipse.StringUtil.Length.{strlen-All}
use iot_eclipse.StringUtil.Print.{take-length}
use iot_eclipse.StringType.{StringT, not_copy_destroy, string_initialize_dynamic}
use iot_eclipse.StringUtil.Find.{find-Matches}
use iot_eclipse.StringType.Build.{Grants}
use iot_eclipse.StringType.Operations.Concatenate.{IsText}
use iot_eclipse.StringType.Operations.{replaced, replace_at, string_replace}

strncat_plain :
    (before source : Bytes) (n : ℕ)
    → All NonNul before
    → All NonNul source
    → n ≤ length source
    → strncat before source n ≡ before ++ take n source
unfolding strncat
strncat_plain before source n nn nn' le =
    rw (strlen-All before nn, take-length (length before) before (omega arith))
      (ap (λ k. before ++ take k source) (ground (arith, strlen-All source nn')))

NonNul-take : (n : ℕ) (p : Bytes) → All NonNul p → All NonNul (take n p)
NonNul-take zero p nn = tt
NonNul-take (suc n) [] nn = tt
NonNul-take (suc n) (c ∷ p) (nn, rest) = (nn, NonNul-take n p rest)

NonNul-drop : (n : ℕ) (p : Bytes) → All NonNul p → All NonNul (drop n p)
NonNul-drop zero p nn = nn
NonNul-drop (suc n) [] nn = tt
NonNul-drop (suc n) (c ∷ p) (nn, rest) = NonNul-drop n p rest

NonNul-append : (p q : Bytes) → All NonNul p → All NonNul q → All NonNul (p ++ q)
NonNul-append [] q nn nn' = nn'
NonNul-append (c ∷ p) q (nn, rest) nn' = (nn, NonNul-append p q rest nn')

replaced_text :
    (source old new : Bytes) (start : ℕ)
    → All NonNul source
    → All NonNul old
    → All NonNul new
    → start + length old ≤ length source
    → replaced source (length source) old new start
      ≡ take start source ++ (new ++ drop (start + length old) source)
unfolding replaced
replaced_text source old new start plain plain_old plain_new fits =
    let k = start + length old in
    let a = take start source in
    let c = drop k source in
    let front : strncat [] source start ≡ a =
      strncat_plain [] source start tt plain (omega arith) in
    let middle : strncat a new (length new) ≡ a ++ new =
      strncat_plain a new (length new) (NonNul-take start source plain) plain_new (omega arith)
      ∙ ap (◌++◌ a) (take-length (length new) new (omega arith)) in
    let end : strncat (a ++ new) c (length source - k) ≡ (a ++ new) ++ c =
      strncat_plain (a ++ new) c (length source - k)
        (NonNul-append a new (NonNul-take start source plain) plain_new)
        (NonNul-drop k source plain) (omega (arith, length-drop k source))
      ∙ ap (◌++◌ (a ++ new))
          (take-length (length source - k) c (omega (arith, length-drop k source))) in
    rw (strlen-All old plain_old, strlen-All new plain_new, front, middle, end)
      (append_assoc a new c)

dynamic_text :
    (value : Bytes) (n : ℕ) (m : Memory)
    → m.answers m.asked ≡ true
    → strlen value ≡ n
    → (string_initialize_dynamic (some value) n m).0
      ≡ (ok, some (record { buffer = some value; length = n; kind = not_copy_destroy }))
unfolding string_initialize_dynamic
dynamic_text value n m granted e = ground (arith, granted, e)

replace_step :
    (s : StringT) (source old new : Bytes) (start n : ℕ) (m : Memory)
    → find source old ≡ some start
    → (s.length + (2 ^ 64 - strlen old) + strlen new) % 2 ^ 64 ≡ n
    → n < 2 ^ 64 - 1
    → m.answers m.asked ≡ true
    → string_replace s source old new m
      ≡ string_initialize_dynamic
          (some (replaced source s.length old new start))
          n
          (record m { asked = m.asked + 1; live = m.live + 1 })
unfolding string_replace replace_at
replace_step s source old new start n m found e small granted =
    rw (found, e) (ground (arith, granted, small))

-- `string_replace` puts the new text in the place of the old one where `string_util_find` finds it, if
-- memory is granted, the texts have no NUL, and the lengths of source and new text come to less
-- than 2 ^ 64 - 1: the string that it returns, with MCL_OK, holds the source as far as the start
-- index, the new text, and the source from behind the old one, with the length of all that.
pub string_replace_text :
    (s : StringT) (source old new : Bytes) (start : ℕ) (m : Memory)
    → IsText s source
    → All NonNul old
    → All NonNul new
    → Grants m
    → find source old ≡ some start
    → length source + length new < 2 ^ 64 - 1
    → let value = take start source ++ (new ++ drop (start + length old) source) in
      (string_replace s source old new m).0
      ≡ (ok, some (record { buffer = some value; length = length value; kind = not_copy_destroy }))
string_replace_text s source old new start m is plain_old plain_new g found small =
    let k = start + length old in
    let value = take start source ++ (new ++ drop k source) in
    let fits : k ≤ length source = omega (
      arith,
      (find-Matches source old start found).1,
      strlen-All old plain_old,
      strlen-All source is.plain,
    ) in
    let text = replaced_text source old new start is.plain plain_old plain_new fits in
    let size : length value ≡ length source - length old + length new = omega (
      arith,
      length-append (take start source) (new ++ drop k source),
      length-append new (drop k source),
      length-take start source,
      length-drop k source,
      fits,
    ) in
    let whole : strlen value ≡ length value = strlen-All value (
      NonNul-append (take start source) (new ++ drop k source) (NonNul-take start source is.plain)
        (NonNul-append new (drop k source) plain_new (NonNul-drop k source is.plain))) in
    let target : (s.length + (2 ^ 64 - strlen old) + strlen new) % 2 ^ 64 ≡ length value =
      omega
        (arith, size, is.size, fits, small, strlen-All old plain_old, strlen-All new plain_new) in
    let m' = record m { asked = m.asked + 1; live = m.live + 1 } in
    let step =
      replace_step s source old new start (length value) m found target (omega (arith, size, small))
        (g m.asked) in
    ap (λ r. r.0) step
    ∙ ap (λ t. (string_initialize_dynamic (some t) (length value) m').0)
        (ap (λ n. replaced source n old new start) is.size ∙ text)
    ∙ dynamic_text value (length value) m' (g (m.asked + 1)) whole

-- Where the old text is found and the target block is granted, but not the string for it,
-- `string_replace` returns MCL_OUT_OF_MEMORY and no string, and keeps the target block for good.
pub string_replace_loses :
    (s : StringT) (source old new : Bytes) (start : ℕ) (m : Memory)
    → find source old ≡ some start
    → (s.length + (2 ^ 64 - strlen old) + strlen new) % 2 ^ 64 < 2 ^ 64 - 1
    → m.answers m.asked ≡ true
    → m.answers (m.asked + 1) ≡ false
    → let ((code, r), m') = string_replace s source old new m in
      (code ≡ out_of_memory) × (r ≡ none) × (m'.live ≡ m.live + 1)
unfolding string_replace replace_at string_initialize_dynamic
string_replace_loses s source old new start m found size first second =
    ground (arith, found, first, second)
