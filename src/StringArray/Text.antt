-- ===== src/StringArray/Text.antt =====
-- An array becomes one string that holds its strings one after the other.
use iot_eclipse.Base.{
  ℕ, ◌+◌, ◌-◌, ◌^◌, ◌<◌, ◌≡◌, refl, some, List, [], ◌∷◌, ◌++◌, ltb, if◌then◌else◌, length,
  length-append, take, drop, arith, ◌∙◌, sym, ap,
}
use mathlib.Core.List.{append_assoc, append-nil}
use iot_eclipse.Base.Bytes.{Bytes, at, All, NonNul}
use iot_eclipse.Code.{ok}
use iot_eclipse.Memory.{Memory, fresh_from}
use iot_eclipse.StringUtil.{strlen}
use iot_eclipse.StringUtil.Length.{strlen-All}
use iot_eclipse.StringUtil.Print.{take-length}
use iot_eclipse.StringType.{StringT, not_copy_destroy, string_initialize_dynamic}
use iot_eclipse.StringType.Build.{Grants}
use iot_eclipse.StringArray.{
  Item, StringArray, item_text, item_length, strncat_at, join_loop, join_end,
  string_array_to_string,
}

-- The length of the string is that of its text.
abbrev pub Plain : Item → Type 0
Plain item = All NonNul (item_text item) × (item_length item ≡ length (item_text item))

-- The strings one after the other.
unfoldable pub joined : List Item → Bytes
joined [] = []
joined (item ∷ rest) = item_text item ++ joined rest

take-front : (xs ys : Bytes) → take (length xs) (xs ++ ys) ≡ xs
take-front [] ys = refl
take-front (x ∷ xs) ys = ap (◌∷◌ x) (take-front xs ys)

drop-front : (xs ys : Bytes) → drop (length xs) (xs ++ ys) ≡ ys
drop-front [] ys = refl
drop-front (x ∷ xs) ys = drop-front xs ys

at-front : (xs ys : Bytes) → at (xs ++ ys) (length xs) ≡ at ys 0
at-front [] ys = refl
at-front (x ∷ xs) ys = at-front xs ys

whole_text :
    (text : Bytes)
    → All NonNul text
    → take (if ltb (length text) (strlen text) then length text else strlen text) text ≡ text
whole_text text nn =
    ground (arith, strlen-All text nn, take-length (length text) text (omega arith))

strncat_step :
    (block source text : Bytes) (offset n start : ℕ)
    → offset + strlen (drop offset block) ≡ start
    → take (if ltb n (strlen source) then n else strlen source) source ≡ text
    → strncat_at block offset source n
      ≡ take start block ++ (text ++ (0 ∷ drop (start + (length text + 1)) block))
unfolding strncat_at
strncat_step block source text offset n start e f = rw (e, f) refl

no_text : (rest : Bytes) → strlen (0 ∷ rest) ≡ 0
unfolding strlen
no_text rest = refl

-- At the end of what was written before, a plain text is appended with its terminator.
strncat_at-append :
    (before rest text : Bytes)
    → All NonNul text
    → (tail : Bytes) × (strncat_at (before ++ (0 ∷ rest)) (length before) text (length text)
        ≡ (before ++ text) ++ (0 ∷ tail))
strncat_at-append before rest text nn =
    let block = before ++ (0 ∷ rest) in
    let start : length before + strlen (drop (length before) block) ≡ length before =
      omega (arith, ap strlen (drop-front before (0 ∷ rest)), no_text rest) in
    let tail = drop (length before + (length text + 1)) block in
    (
      tail,
      strncat_step block text text (length before) (length text) (length before) start
            (whole_text text nn)
          ∙ ap (λ b. b ++ (text ++ (0 ∷ tail))) (take-front before (0 ∷ rest))
          ∙ sym (append_assoc before text (0 ∷ tail)),
    )

join_loop-joined :
    (items : List Item) (before rest : Bytes)
    → All Plain items
    → (tail : Bytes) × (join_loop items (before ++ (0 ∷ rest)) (length before)
        ≡ (before ++ joined items) ++ (0 ∷ tail))
unfolding join_loop joined
join_loop-joined [] before rest plain = (rest, ap (λ b. b ++ (0 ∷ rest)) (sym (append-nil before)))
join_loop-joined (item ∷ items) before rest ((nn, same), plain) =
    let (tail, one) = strncat_at-append before rest (item_text item) nn in
    let (tail', more) = join_loop-joined items (before ++ item_text item) tail plain in
    (
      tail',
      rw (same, one, ← length-append before (item_text item))
          (more ∙ ap (λ b. b ++ (0 ∷ tail')) (append_assoc before (item_text item) (joined items))),
    )

abbrev whole : Bytes → ℕ → StringT
whole block n = record { buffer = some block; length = n; kind = not_copy_destroy }

dynamic_lem :
    (block : Bytes) (n : ℕ) (m : Memory)
    → Grants m
    → 0 < n
    → (string_initialize_dynamic (some block) n m).0 ≡ (ok, some (whole block n))
unfolding string_initialize_dynamic
dynamic_lem block n m g pos = ground (arith, g m.asked)

join_end_lem :
    (block : Bytes) (n : ℕ) (m : Memory)
    → Grants m
    → 0 < n
    → (join_end block n m).0 ≡ some (whole block n)
unfolding join_end
join_end_lem block n m g pos = ground (arith, dynamic_lem block n m g pos)

to_string_step :
    (a : StringArray) (m : Memory)
    → Grants m
    → 0 < a.total_length
    → a.total_length < 2 ^ 64 - 1
    → (string_array_to_string a m).0
      ≡ some (
          whole
            (join_loop (take a.index a.items) (0 ∷ fresh_from m a.total_length 1) 0)
            a.total_length)
unfolding string_array_to_string
to_string_step a m g pos small =
    let block = join_loop (take a.index a.items) (0 ∷ fresh_from m a.total_length 1) 0 in
    let m' = record m { asked = m.asked + 1; live = m.live + 1 } in
    ground (arith, g m.asked, join_end_lem block a.total_length m' g pos)

-- A string as long as the strings of the items are together, which holds them one after the other,
-- with a terminator behind them.
pub record Joined (items : List Item) (s : StringT) : Type 0 where
  pub block : Bytes
  pub buffer : s.buffer ≡ some block
  pub text : take s.length block ≡ joined items
  pub terminated : at block s.length ≡ 0
  pub size : s.length ≡ length (joined items)

-- `string_array_to_string` returns the strings of the array joined, if its memory is granted, the
-- array's total length is that of its strings and is neither 0 nor the largest size, and each
-- string is a text without NUL that has its length.
pub string_array_to_string-joined :
    (a : StringArray) (m : Memory)
    → Grants m
    → All Plain (take a.index a.items)
    → a.total_length ≡ length (joined (take a.index a.items))
    → 0 < a.total_length
    → a.total_length < 2 ^ 64 - 1
    → (s : StringT) × ((string_array_to_string a m).0 ≡ some s) × Joined (take a.index a.items) s
string_array_to_string-joined a m g plain total pos small =
    let items = take a.index a.items in
    let (tail, e) = join_loop-joined items [] (fresh_from m a.total_length 1) plain in
    (
      _,
      to_string_step a m g pos small,
      record {
        block = joined items ++ (0 ∷ tail);
        buffer = ap some e;
        text =
            ap (λ n. take n (joined items ++ (0 ∷ tail))) total
            ∙ take-front (joined items) (0 ∷ tail);
        terminated =
            ap (at (joined items ++ (0 ∷ tail))) total ∙ at-front (joined items) (0 ∷ tail);
        size = total;
      },
    )
