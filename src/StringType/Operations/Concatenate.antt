-- ===== src/StringType/Operations/Concatenate.antt =====
-- `string_concatenate` makes a text of two.
use iot_eclipse.Base.{
  Bool, ℕ, suc, zero, ◌+◌, ◌-◌, ◌^◌, ◌<◌, ◌≡◌, refl, true, false, Option, none, some, ◌++◌, length,
  length-append, arith, ◌∙◌, sym, ap,
}
use iot_eclipse.Base.Bytes.{Bytes, All, NonNul}
use iot_eclipse.Code.{ErrorCode, ok, is_ok}
use iot_eclipse.Memory.{Memory, fresh_from}
use iot_eclipse.StringUtil.{snprintf}
use iot_eclipse.StringUtil.Length.{strlen-All}
use iot_eclipse.StringUtil.Print.{take-length, snprintf_whole}
use iot_eclipse.StringType.{StringT, copy_destroy, add_size, string_initialize_new}
use iot_eclipse.StringType.Build.{Grants, Returned, blocks, string_initialize_new-blocks}
use iot_eclipse.StringType.Destroy.{string_destroy-blocks}
use iot_eclipse.StringType.Operations.{text_of, overwrite, print_on, print_to, string_concatenate}

-- A string that is a text without NUL, with its length.
pub record IsText (s : StringT) (text : Bytes) : Type 0 where
  pub buffer : s.buffer ≡ some text
  pub size : s.length ≡ length text
  pub plain : All NonNul text

text_of-plain : (text : Bytes) → All NonNul text → text_of (some text) ≡ text
unfolding text_of
text_of-plain text nn = rw (strlen-All text nn) (take-length (length text) text (omega arith))

length-fresh_from : (m : Memory) (n i : ℕ) → length (fresh_from m n i) ≡ n
unfolding fresh_from
length-fresh_from m zero i = refl
length-fresh_from m (suc n) i = ap suc (length-fresh_from m n (i + 1))

-- A block that is all junk, and the string on it.
junk_string :
    (n : ℕ) (m : Memory)
    → Grants m
    → 0 < n
    → n < 2 ^ 64 - 1
    → (junk : Bytes) × ((string_initialize_new none n m).0
        ≡ (ok, some (record { buffer = some junk; length = n; kind = copy_destroy })))
      × (length junk ≡ n)
unfolding string_initialize_new
junk_string n m g pos small =
    let m' = record m { asked = m.asked + 1; live = m.live + 1 } in
    (fresh_from m' n 0, ground (arith, g m.asked, g (m.asked + 1)), length-fresh_from m' n 0)

overwrite_all : (text block : Bytes) → length block ≡ length text → overwrite text block ≡ text
unfolding overwrite
overwrite_all text block same = ground arith

print_step :
    (size : ℕ) (text junk : Bytes) (n : ℕ) (m : Memory)
    → snprintf size text ≡ (ok, text)
    → length junk ≡ length text
    → (print_to size text
        (ok, some (record { buffer = some junk; length = n; kind = copy_destroy }))
        m).0
      ≡ some (ok, some (record { buffer = some text; length = n; kind = copy_destroy }))
unfolding print_to print_on
print_step size text junk n m whole same = rw (whole, overwrite_all text junk same) refl

-- Two texts are joined by `string_concatenate`, if memory is granted, they are not both empty, and
-- the result can be counted by the formatted print.
pub string_concatenate_text :
    (s t : StringT) (a b : Bytes) (m : Memory)
    → IsText s a
    → IsText t b
    → Grants m
    → 0 < length a + length b
    → length a + length b < 2 ^ 31
    → (string_concatenate s t m).0
      ≡ some (
        ok,
        some (record { buffer = some (a ++ b); length = length a + length b; kind = copy_destroy }),
      )
unfolding string_concatenate
string_concatenate_text s t a b m is is' g pos small =
    let n : add_size s.length t.length ≡ length a + length b = omega (arith, is.size, is'.size) in
    let size = length-append a b in
    let (junk, made, same) = junk_string (length a + length b) m g pos (omega arith) in
    let whole =
      snprintf_whole (add_size (length a + length b) 1) (a ++ b) (omega (arith, size))
        (omega (arith, size)) (omega (arith, size)) in
    rw (n, is.buffer, is'.buffer, text_of-plain a is.plain, text_of-plain b is'.plain, made)
      (print_step (add_size (length a + length b) 1) (a ++ b) junk (length a + length b) _ whole
        (same ∙ sym size))

-- A run that wrote nothing through NULL: it returns a string exactly when the code is MCL_OK, and the
-- string that it returns is all that it holds beside `base`.
abbrev pub Settled : ℕ → Option (ErrorCode × Option StringT) × Memory → Type 0
Settled base (none, m) = ⊥
Settled base (some (code, r), m) = Returned code r × (m.live ≡ base + blocks r)

abbrev has_buffer : Option Bytes → Bool
has_buffer none = false
has_buffer (some _) = true

print_on-Settled :
    (size : ℕ) (text : Bytes) (s : StringT) (buffer : Option Bytes) (m : Memory) (base : ℕ)
    → s.buffer ≡ buffer
    → has_buffer buffer ≡ true
    → m.live ≡ base + blocks (some s)
    → Settled base (print_on size text s buffer m)
unfolding print_on
print_on-Settled size text s none m base e there h = absurd (ground (arith, there))
print_on-Settled size text s (some block) m base e there h =
    ground (arith, e, h, string_destroy-blocks (some s) m)

-- A new string has a buffer.
abbrev Buffered : ErrorCode × Option StringT → Type 0
Buffered (code, none) = is_ok code ≡ false
Buffered (code, some s) = (is_ok code ≡ true) × (has_buffer s.buffer ≡ true)

new-Buffered : (n : ℕ) (m : Memory) → 0 < n → Buffered (string_initialize_new none n m).0
unfolding string_initialize_new
new-Buffered n m pos = ground arith

print_to-Settled :
    (size : ℕ) (text : Bytes) (r : ErrorCode × Option StringT) (m : Memory) (base : ℕ)
    → Buffered r
    → m.live ≡ base + blocks r.1
    → Settled base (print_to size text r m)
unfolding print_to
print_to-Settled size text (code, none) m base bad h = (bad, h)
print_to-Settled size text (code, some s) m base (_, there) h =
    print_on-Settled size text s s.buffer m base refl there h

-- If the lengths of two strings do not come to 0, `string_concatenate` returns a string exactly when
-- its code is MCL_OK, and takes just the blocks of the string that it returns: a string that could
-- not be printed is destroyed, and is not returned.
pub string_concatenate-blocks :
    (s t : StringT) (m : Memory)
    → 0 < add_size s.length t.length
    → Settled m.live (string_concatenate s t m)
unfolding string_concatenate
string_concatenate-blocks s t m pos =
    let n = add_size s.length t.length in
    let (r, m') = string_initialize_new none n m in
    print_to-Settled (add_size n 1) (text_of s.buffer ++ text_of t.buffer) r m' m.live
      (new-Buffered n m pos) (string_initialize_new-blocks none n m).1

-- Two strings without text have nothing to print to: the code writes through NULL.
string_concatenate_empty :
    (s t : StringT) (m : Memory)
    → add_size s.length t.length ≡ 0
    → m.answers m.asked ≡ true
    → (string_concatenate s t m).0 ≡ none
unfolding string_concatenate print_to print_on string_initialize_new
string_concatenate_empty s t m e granted = rw e (ground (arith, granted))
