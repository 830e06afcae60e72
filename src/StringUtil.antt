-- ===== src/StringUtil.antt =====
-- MindConnect_Library_V3.1.3.0/src/string_util.c: searching, measuring and copying characters.
-- `strlen`, `strncmp`, `strncpy` and `strncat` are those of the C library.
pub mod Length
pub mod Find
pub mod Print
mod Examples
use iot_eclipse.Base.{
  ℕ, zero, suc, ◌+◌, ◌-◌, ◌<◌, ◌^◌, Bool, true, false, ◌&&◌, ◌||◌, not, Option, none, some, List,
  [], ◌∷◌, ◌++◌, ◌==◌, ltb, leb, if◌then◌else◌, length, take,
}
use iot_eclipse.Base.Bytes.{Bytes, at}
use iot_eclipse.Code.{ErrorCode}

-- `strlen`: the bytes before the first NUL.
unfoldable pub strlen : Bytes → ℕ
strlen [] = 0
strlen (c ∷ p) = if c == 0 then 0 else suc (strlen p)

-- The loop of `string_util_strnlen`, with the rounds that are left.
unfoldable pub strnlen_loop : ℕ → Bytes → ℕ → ℕ
strnlen_loop zero buffer count = count
strnlen_loop (suc k) buffer count =
    let rest = strnlen_loop k buffer (count + 1) in if at buffer count == 0 then count else rest

-- `string_util_strnlen`
unfoldable pub strnlen : Bytes → ℕ → ℕ
unfolding strnlen_loop
strnlen buffer maximum_length = strnlen_loop maximum_length buffer 0

-- `string_util_strncpy`: `count` bytes, and NUL behind the end of the source.
unfoldable pub strncpy : Bytes → ℕ → Bytes
strncpy source zero = []
strncpy [] (suc n) = 0 ∷ strncpy [] n
strncpy (c ∷ p) (suc n) = c ∷ strncpy (if c == 0 then [] else p) n

-- `string_util_strncat`: at most `count` bytes of the source behind the text of the destination.
unfoldable pub strncat : Bytes → Bytes → ℕ → Bytes
unfolding strlen
strncat destination source count =
    take (strlen destination) destination ++ take (if ltb count n then count else n) source
  where
    n : ℕ
    n = strlen source

-- `string_util_strncmp`: true for MCL_OK.
unfoldable pub strncmp : Bytes → Bytes → ℕ → Bool
strncmp a b zero = true
strncmp [] [] (suc n) = true
strncmp [] (y ∷ b) (suc n) = y == 0
strncmp (x ∷ a) [] (suc n) = x == 0
strncmp (x ∷ a) (y ∷ b) (suc n) = (x == y) && ((x == 0) || strncmp a b n)

-- `string_util_snprintf`, for the text that the format and its arguments stand for: the code, and
-- what stands in a buffer of `size` bytes afterwards. `vsnprintf` keeps room for the terminator,
-- returns the length of the whole text, and a negative number if that is no `int`.
unfoldable pub snprintf : ℕ → Bytes → ErrorCode × Bytes
snprintf size text =
    let count = length text in
    (
      if ltb 0 count && ltb count (2 ^ 31) && leb count size then ErrorCode.ok else ErrorCode.fail,
      take (size - 1) text,
    )

-- The loop of `string_util_find`: `k` rounds left, `state` characters of the target matched.
unfoldable pub find_loop : (ℕ → ℕ → Bool) → ℕ → Bytes → Bytes → ℕ → ℕ → ℕ → Option ℕ
find_loop same zero source target target_length index state = none
find_loop same (suc k) source target target_length index state =
    let state' = if same (at source index) (at target state) then state + 1 else 0 in
    let rest = find_loop same k source target target_length (index + 1) state' in
    if state' == target_length then some (index - (target_length - 1)) else rest

unfoldable pub find_with : (ℕ → ℕ → Bool) → Bytes → Bytes → Option ℕ
unfolding strlen find_loop
find_with same source target =
    if not (strlen target == 0) && not (ltb (strlen source) (strlen target))
    then find_loop same (strlen source) source target (strlen target) 0 0
    else none

-- `string_util_find`: the start index, if the target is found.
unfoldable pub find : Bytes → Bytes → Option ℕ
unfolding find_with
find = find_with ◌==◌

-- `LOWERCASE`
unfoldable pub lowercase : ℕ → ℕ
lowercase n = if leb b'A' n && leb n b'Z' then n + (b'a' - b'A') else n

abbrev pub same_letter : ℕ → ℕ → Bool
unfolding lowercase
same_letter a b = (a == b) || (lowercase a == lowercase b)

-- `string_util_find_case_insensitive`
unfoldable pub find_case_insensitive : Bytes → Bytes → Option ℕ
unfolding find_with lowercase
find_case_insensitive = find_with same_letter

-- `string_util_is_space`
unfoldable pub is_space : ℕ → Bool
is_space c = (c == 32) || ((c == 9) || ((c == 10) || ((c == 11) || ((c == 12) || (c == 13)))))
