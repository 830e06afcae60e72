-- ===== src/StringType/Operations.antt =====
-- The functions of string_type.c that build a new string from others.
pub mod Hex
pub mod Replace
pub mod Concatenate
use iot_eclipse.Base.{
  ℕ, ◌+◌, ◌-◌, ◌*◌, ◌/◌, ◌%◌, ◌^◌, true, Option, none, some, [], ◌∷◌, ◌++◌, ltb, if◌then◌else◌,
  length, drop, take,
}
use iot_eclipse.Base.Bytes.{Bytes, at, codes}
use iot_eclipse.Code.{ErrorCode, fail, out_of_memory, is_ok}
use iot_eclipse.Memory.{M, pure, ◌>>=◌, ◌>>◌, memory_allocate_with_zero, memory_release}
use iot_eclipse.StringUtil.{strlen, strncat, snprintf, find}
use iot_eclipse.StringType.{
  StringT, add_size, string_initialize_new, string_initialize_dynamic, string_destroy,
}

-- What `%s` prints: the text as far as its NUL. (For a NULL pointer, what glibc prints.)
unfoldable pub text_of : Option Bytes → Bytes
unfolding strlen
text_of none = codes "(null)"
text_of (some p) = take (strlen p) p

-- A block after a text and its terminator have been written to its start.
unfoldable pub overwrite : Bytes → Bytes → Bytes
overwrite text block =
    if ltb (length text) (length block) then text ++ (0 ∷ drop (length text + 1) block) else text

-- The print to a buffer; the string is destroyed if the text does not fit. If the buffer is NULL the
-- print writes its terminator through NULL, and the result is none: there is no run from there.
unfoldable pub print_on :
    ℕ → Bytes → StringT → Option Bytes → M (Option (ErrorCode × Option StringT))
unfolding overwrite
print_on size text s none = pure none
print_on size text s (some block) =
    let (printed, written) = snprintf size text in
    if is_ok printed
    then pure (some (printed, some (record s { buffer = some (overwrite written block) })))
    else (string_destroy (some s) >> pure (some (printed, none)))

-- The buffer of a new string is printed to.
unfoldable pub print_to :
    ℕ → Bytes → ErrorCode × Option StringT → M (Option (ErrorCode × Option StringT))
unfolding print_on
print_to size text (code, none) = pure (some (code, none))
print_to size text (code, some s) = print_on size text s s.buffer

-- `string_concatenate`
unfoldable pub string_concatenate : StringT → StringT → M (Option (ErrorCode × Option StringT))
string_concatenate s t =
    let n = add_size s.length t.length in
    string_initialize_new none n >>= print_to (add_size n 1) (text_of s.buffer ++ text_of t.buffer)

-- `string_concatenate_cstr`
unfoldable pub string_concatenate_cstr : StringT → Bytes → M (Option (ErrorCode × Option StringT))
unfolding string_initialize_new text_of print_to strlen
string_concatenate_cstr s c_string =
    let n = add_size s.length (strlen c_string) in
    string_initialize_new none n
    >>= print_to (add_size n 1) (text_of s.buffer ++ text_of (some c_string))

-- The three `strncat` of `string_replace`, on a block of zeros.
unfoldable pub replaced : Bytes → ℕ → Bytes → Bytes → ℕ → Bytes
replaced source n old new start =
    strncat (strncat (strncat [] source start) new (strlen new)) (drop (start + strlen old) source)
      (n - (start + strlen old))

-- The end of `string_replace`, for the start index that was found.
unfoldable pub replace_at :
    StringT → Bytes → Bytes → Bytes → ℕ → Option ℕ → M (ErrorCode × Option StringT)
unfolding memory_release
replace_at s source old new target_length none = do memory_release true; pure (fail, none)
replace_at s source old new target_length (some start) =
    string_initialize_dynamic (some (replaced source s.length old new start)) target_length

-- `string_replace`, for a string that has a buffer.
unfoldable pub string_replace : StringT → Bytes → Bytes → Bytes → M (ErrorCode × Option StringT)
unfolding memory_allocate_with_zero
string_replace s source old new = do
  let target_length = (s.length + (2 ^ 64 - strlen old) + strlen new) % 2 ^ 64
  granted ← memory_allocate_with_zero (add_size target_length 1) 1
  if granted
      then replace_at s source old new target_length (find source old)
      else pure (out_of_memory, none)

-- `hex_table`
abbrev pub hex_table : Bytes
hex_table = codes "0123456789ABCDEF"

-- The loop of `string_convert_binary_to_hex`. On a byte `>> 4` is `/ 16`, and `& 0x0F` is `% 16`.
unfoldable pub hex_of : Bytes → Bytes
hex_of [] = []
hex_of (b ∷ rest) = at hex_table (b / 16 % 16) ∷ at hex_table (b % 16) ∷ hex_of rest

unfoldable pub hex_fill : Bytes → ErrorCode × Option StringT → M (ErrorCode × Option StringT)
unfolding memory_allocate_with_zero hex_of
hex_fill data_bytes (code, none) = pure (code, none)
hex_fill data_bytes (code, some s) = do
  let n = 2 * length data_bytes
  granted ← memory_allocate_with_zero 1 (add_size n 1)
  if granted
      then pure (code, some (record s { buffer = some (hex_of data_bytes); length = n }))
      else pure (out_of_memory, some (record s { buffer = none; length = n }))

-- `string_convert_binary_to_hex`: if the buffer cannot be allocated the caller keeps a string that
-- has a length and no buffer.
unfoldable pub string_convert_binary_to_hex : Bytes → M (ErrorCode × Option StringT)
unfolding string_initialize_new hex_fill
string_convert_binary_to_hex data_bytes = string_initialize_new none 0 >>= hex_fill data_bytes
