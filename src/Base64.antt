-- ===== src/Base64.antt =====
-- MindConnect_Library_V3.1.3.0/src/base64.c: both alphabets, encoding and decoding.
-- On bytes `>> k` is `/ 2 ^ k` and `<< k` is `* 2 ^ k`.
pub mod Alphabet
pub mod Bits
pub mod Encode
pub mod Quantum
pub mod RoundTrip
pub mod Decode
mod Examples
use iot_eclipse.Base.{
  ℕ, zero, suc, ◌+◌, ◌-◌, ◌*◌, ◌/◌, ◌%◌, ◌^◌, Bool, true, false, not, ◌||◌, Option, none, some,
  List, [], ◌∷◌, ◌++◌, ◌==◌, ltb, if◌then◌else◌, length, drop,
}
use iot_eclipse.Base.Bytes.{Bytes, at, codes}
use iot_eclipse.Code.{ErrorCode, ok, out_of_memory, bad_content_encoding}
use iot_eclipse.Memory.{Memory, M, pure, ◌>>=◌, ◌>>◌, memory_allocate, memory_release}
use iot_eclipse.StringType.{StringT, string_initialize_dynamic}
use Prim.Native.Nat.{bit_and, bit_or}

-- `PADDING_CHAR`, `=`
abbrev pub padding_char : ℕ
padding_char = 61

-- `base64_encode_table`
abbrev pub base64_encode_table : Bytes
base64_encode_table = codes "ABCDEFGHIJKLMNOPQRSTUVWXYZabcdefghijklmnopqrstuvwxyz0123456789+/"

-- `base64_url_encode_table`
abbrev pub base64_url_encode_table : Bytes
base64_url_encode_table = codes "ABCDEFGHIJKLMNOPQRSTUVWXYZabcdefghijklmnopqrstuvwxyz0123456789-_"

-- `base64_decode_table`
abbrev pub base64_decode_table : Bytes
base64_decode_table =
    0xff ∷ 0xff ∷ 0xff ∷ 0xff ∷ 0xff ∷ 0xff ∷ 0xff ∷ 0xff ∷ 0xff ∷ 0xff ∷ 0xff ∷ 0xff ∷ 0xff ∷ 0xff
    ∷ 0xff ∷ 0xff ∷ 0xff ∷ 0xff ∷ 0xff ∷ 0xff ∷ 0xff ∷ 0xff ∷ 0xff ∷ 0xff ∷ 0xff ∷ 0xff ∷ 0xff
    ∷ 0xff ∷ 0xff ∷ 0xff ∷ 0xff ∷ 0xff ∷ 0xff ∷ 0xff ∷ 0xff ∷ 0xff ∷ 0xff ∷ 0xff ∷ 0xff ∷ 0xff
    ∷ 0xff ∷ 0xff ∷ 0xff ∷ 0x3e ∷ 0xff ∷ 0xff ∷ 0xff ∷ 0x3f ∷ 0x34 ∷ 0x35 ∷ 0x36 ∷ 0x37 ∷ 0x38
    ∷ 0x39 ∷ 0x3a ∷ 0x3b ∷ 0x3c ∷ 0x3d ∷ 0xff ∷ 0xff ∷ 0xff ∷ 0xff ∷ 0xff ∷ 0xff ∷ 0xff ∷ 0x00
    ∷ 0x01 ∷ 0x02 ∷ 0x03 ∷ 0x04 ∷ 0x05 ∷ 0x06 ∷ 0x07 ∷ 0x08 ∷ 0x09 ∷ 0x0a ∷ 0x0b ∷ 0x0c ∷ 0x0d
    ∷ 0x0e ∷ 0x0f ∷ 0x10 ∷ 0x11 ∷ 0x12 ∷ 0x13 ∷ 0x14 ∷ 0x15 ∷ 0x16 ∷ 0x17 ∷ 0x18 ∷ 0x19 ∷ 0xff
    ∷ 0xff ∷ 0xff ∷ 0xff ∷ 0xff ∷ 0xff ∷ 0x1a ∷ 0x1b ∷ 0x1c ∷ 0x1d ∷ 0x1e ∷ 0x1f ∷ 0x20 ∷ 0x21
    ∷ 0x22 ∷ 0x23 ∷ 0x24 ∷ 0x25 ∷ 0x26 ∷ 0x27 ∷ 0x28 ∷ 0x29 ∷ 0x2a ∷ 0x2b ∷ 0x2c ∷ 0x2d ∷ 0x2e
    ∷ 0x2f ∷ 0x30 ∷ 0x31 ∷ 0x32 ∷ 0x33 ∷ 0xff ∷ 0xff ∷ 0xff ∷ 0xff ∷ 0xff ∷ 0xff ∷ 0xff ∷ 0xff
    ∷ 0xff ∷ 0xff ∷ 0xff ∷ 0xff ∷ 0xff ∷ 0xff ∷ 0xff ∷ 0xff ∷ 0xff ∷ 0xff ∷ 0xff ∷ 0xff ∷ 0xff
    ∷ 0xff ∷ 0xff ∷ 0xff ∷ 0xff ∷ 0xff ∷ 0xff ∷ 0xff ∷ 0xff ∷ 0xff ∷ 0xff ∷ 0xff ∷ 0xff ∷ 0xff
    ∷ 0xff ∷ 0xff ∷ 0xff ∷ 0xff ∷ 0xff ∷ 0xff ∷ 0xff ∷ 0xff ∷ 0xff ∷ 0xff ∷ 0xff ∷ 0xff ∷ 0xff
    ∷ 0xff ∷ 0xff ∷ 0xff ∷ 0xff ∷ 0xff ∷ 0xff ∷ 0xff ∷ 0xff ∷ 0xff ∷ 0xff ∷ 0xff ∷ 0xff ∷ 0xff
    ∷ 0xff ∷ 0xff ∷ 0xff ∷ 0xff ∷ 0xff ∷ 0xff ∷ 0xff ∷ 0xff ∷ 0xff ∷ 0xff ∷ 0xff ∷ 0xff ∷ 0xff
    ∷ 0xff ∷ 0xff ∷ 0xff ∷ 0xff ∷ 0xff ∷ 0xff ∷ 0xff ∷ 0xff ∷ 0xff ∷ 0xff ∷ 0xff ∷ 0xff ∷ 0xff
    ∷ 0xff ∷ 0xff ∷ 0xff ∷ 0xff ∷ 0xff ∷ 0xff ∷ 0xff ∷ 0xff ∷ 0xff ∷ 0xff ∷ 0xff ∷ 0xff ∷ 0xff
    ∷ 0xff ∷ 0xff ∷ 0xff ∷ 0xff ∷ 0xff ∷ 0xff ∷ 0xff ∷ 0xff ∷ 0xff ∷ 0xff ∷ 0xff ∷ 0xff ∷ 0xff
    ∷ 0xff ∷ 0xff ∷ 0xff ∷ 0xff ∷ 0xff ∷ 0xff ∷ 0xff ∷ 0xff ∷ 0xff ∷ 0xff ∷ 0xff ∷ 0xff ∷ 0xff
    ∷ 0xff ∷ 0xff ∷ 0xff ∷ 0xff ∷ 0xff ∷ 0xff ∷ 0xff ∷ 0xff ∷ []

-- `base64_url_decode_table`
abbrev pub base64_url_decode_table : Bytes
base64_url_decode_table =
    0xff ∷ 0xff ∷ 0xff ∷ 0xff ∷ 0xff ∷ 0xff ∷ 0xff ∷ 0xff ∷ 0xff ∷ 0xff ∷ 0xff ∷ 0xff ∷ 0xff ∷ 0xff
    ∷ 0xff ∷ 0xff ∷ 0xff ∷ 0xff ∷ 0xff ∷ 0xff ∷ 0xff ∷ 0xff ∷ 0xff ∷ 0xff ∷ 0xff ∷ 0xff ∷ 0xff
    ∷ 0xff ∷ 0xff ∷ 0xff ∷ 0xff ∷ 0xff ∷ 0xff ∷ 0xff ∷ 0xff ∷ 0xff ∷ 0xff ∷ 0xff ∷ 0xff ∷ 0xff
    ∷ 0xff ∷ 0xff ∷ 0xff ∷ 0xff ∷ 0xff ∷ 0x3e ∷ 0xff ∷ 0xff ∷ 0x34 ∷ 0x35 ∷ 0x36 ∷ 0x37 ∷ 0x38
    ∷ 0x39 ∷ 0x3a ∷ 0x3b ∷ 0x3c ∷ 0x3d ∷ 0xff ∷ 0xff ∷ 0xff ∷ 0xff ∷ 0xff ∷ 0xff ∷ 0xff ∷ 0x00
    ∷ 0x01 ∷ 0x02 ∷ 0x03 ∷ 0x04 ∷ 0x05 ∷ 0x06 ∷ 0x07 ∷ 0x08 ∷ 0x09 ∷ 0x0a ∷ 0x0b ∷ 0x0c ∷ 0x0d
    ∷ 0x0e ∷ 0x0f ∷ 0x10 ∷ 0x11 ∷ 0x12 ∷ 0x13 ∷ 0x14 ∷ 0x15 ∷ 0x16 ∷ 0x17 ∷ 0x18 ∷ 0x19 ∷ 0xff
    ∷ 0xff ∷ 0xff ∷ 0xff ∷ 0x3f ∷ 0xff ∷ 0x1a ∷ 0x1b ∷ 0x1c ∷ 0x1d ∷ 0x1e ∷ 0x1f ∷ 0x20 ∷ 0x21
    ∷ 0x22 ∷ 0x23 ∷ 0x24 ∷ 0x25 ∷ 0x26 ∷ 0x27 ∷ 0x28 ∷ 0x29 ∷ 0x2a ∷ 0x2b ∷ 0x2c ∷ 0x2d ∷ 0x2e
    ∷ 0x2f ∷ 0x30 ∷ 0x31 ∷ 0x32 ∷ 0x33 ∷ 0xff ∷ 0xff ∷ 0xff ∷ 0xff ∷ 0xff ∷ 0xff ∷ 0xff ∷ 0xff
    ∷ 0xff ∷ 0xff ∷ 0xff ∷ 0xff ∷ 0xff ∷ 0xff ∷ 0xff ∷ 0xff ∷ 0xff ∷ 0xff ∷ 0xff ∷ 0xff ∷ 0xff
    ∷ 0xff ∷ 0xff ∷ 0xff ∷ 0xff ∷ 0xff ∷ 0xff ∷ 0xff ∷ 0xff ∷ 0xff ∷ 0xff ∷ 0xff ∷ 0xff ∷ 0xff
    ∷ 0xff ∷ 0xff ∷ 0xff ∷ 0xff ∷ 0xff ∷ 0xff ∷ 0xff ∷ 0xff ∷ 0xff ∷ 0xff ∷ 0xff ∷ 0xff ∷ 0xff
    ∷ 0xff ∷ 0xff ∷ 0xff ∷ 0xff ∷ 0xff ∷ 0xff ∷ 0xff ∷ 0xff ∷ 0xff ∷ 0xff ∷ 0xff ∷ 0xff ∷ 0xff
    ∷ 0xff ∷ 0xff ∷ 0xff ∷ 0xff ∷ 0xff ∷ 0xff ∷ 0xff ∷ 0xff ∷ 0xff ∷ 0xff ∷ 0xff ∷ 0xff ∷ 0xff
    ∷ 0xff ∷ 0xff ∷ 0xff ∷ 0xff ∷ 0xff ∷ 0xff ∷ 0xff ∷ 0xff ∷ 0xff ∷ 0xff ∷ 0xff ∷ 0xff ∷ 0xff
    ∷ 0xff ∷ 0xff ∷ 0xff ∷ 0xff ∷ 0xff ∷ 0xff ∷ 0xff ∷ 0xff ∷ 0xff ∷ 0xff ∷ 0xff ∷ 0xff ∷ 0xff
    ∷ 0xff ∷ 0xff ∷ 0xff ∷ 0xff ∷ 0xff ∷ 0xff ∷ 0xff ∷ 0xff ∷ 0xff ∷ 0xff ∷ 0xff ∷ 0xff ∷ 0xff
    ∷ 0xff ∷ 0xff ∷ 0xff ∷ 0xff ∷ 0xff ∷ 0xff ∷ 0xff ∷ 0xff ∷ 0xff ∷ 0xff ∷ 0xff ∷ 0xff ∷ 0xff
    ∷ 0xff ∷ 0xff ∷ 0xff ∷ 0xff ∷ 0xff ∷ 0xff ∷ 0xff ∷ 0xff ∷ []

-- `output_buffer[0]` to `output_buffer[3]`, for the three bytes of `input_buffer`.
unfoldable pub out_0 : ℕ → ℕ
out_0 b0 = bit_and b0 0xfc / 4

unfoldable pub out_1 : ℕ → ℕ → ℕ
out_1 b0 b1 = bit_or (bit_and b0 0x03 * 16) (bit_and b1 0xf0 / 16)

unfoldable pub out_2 : ℕ → ℕ → ℕ
out_2 b1 b2 = bit_or (bit_and b1 0x0f * 4) (bit_and b2 0xc0 / 64)

unfoldable pub out_3 : ℕ → ℕ
out_3 b2 = bit_and b2 0x3f

-- The loop of `_encode_with_table`: a round takes up to three bytes, and writes four characters. A
-- byte that is missing counts as 0.
unfoldable pub encode_loop : Bytes → Bytes → Bytes
unfolding out_0 out_1 out_2 out_3
encode_loop table [] = []
encode_loop table (b0 ∷ []) =
    at table (out_0 b0) ∷ at table (out_1 b0 0) ∷ padding_char ∷ padding_char ∷ []
encode_loop table (b0 ∷ b1 ∷ []) =
    at table (out_0 b0) ∷ at table (out_1 b0 b1) ∷ at table (out_2 b1 0) ∷ padding_char ∷ []
encode_loop table (b0 ∷ b1 ∷ b2 ∷ rest) =
    at table (out_0 b0)
    ∷ at table (out_1 b0 b1)
    ∷ at table (out_2 b1 b2)
    ∷ at table (out_3 b2)
    ∷ encode_loop table rest

-- The bytes that are allocated for the output of `n` bytes.
abbrev pub output_size : ℕ → ℕ
output_size n = (n * 4 % 2 ^ 64 / 3 + 4) % 2 ^ 64

-- The code of `string_initialize_dynamic` is not looked at.
wrap : Bytes → M (ErrorCode × Option StringT)
unfolding string_initialize_dynamic
wrap output = do (_, s) ← string_initialize_dynamic (some output) 0; pure (ok, s)

-- `_encode_with_table`
unfoldable pub encode_with_table : Bytes → Bytes → M (ErrorCode × Option StringT)
unfolding memory_allocate encode_loop wrap
encode_with_table table input = do
  granted ← memory_allocate (output_size (length input))
  if granted then wrap (encode_loop table input) else pure (out_of_memory, none)

-- `base64_encode`
unfoldable pub base64_encode : Bytes → M (ErrorCode × Option StringT)
unfolding encode_with_table
base64_encode = encode_with_table base64_encode_table

-- `base64_url_encode`
unfoldable pub base64_url_encode : Bytes → M (ErrorCode × Option StringT)
unfolding encode_with_table
base64_url_encode = encode_with_table base64_url_encode_table

-- The loop of `_decode_quantum`, `k` characters before its end: the bits that were read and the
-- padding characters that were met, or nothing if the quantum is refused.
unfoldable pub quantum_loop : ℕ → Bytes → Bytes → ℕ → ℕ → Option (ℕ × ℕ)
quantum_loop zero table source bits padding = some (bits, padding)
quantum_loop (suc k) table source bits padding = elim (at source 0 == padding_char) [
  | true ↦ elim (ltb (padding + 1) 3) [
    | true ↦ quantum_loop k table (drop 1 source) (bits * 64 % 2 ^ 32) (padding + 1)
    | false ↦ none
  ]
  | false ↦ elim (at table (at source 0 % 256) == 0xff) [
    | true ↦ none
    | false ↦
        quantum_loop k table (drop 1 source)
          ((bits * 64 % 2 ^ 32 + at table (at source 0 % 256)) % 2 ^ 32) padding
  ]
]

-- What is stored at the destination: three bytes, less one for each padding character. `& 0xFFUL`
-- is `% 256`.
unfoldable pub stored : ℕ × ℕ → Bytes
stored (bits, zero) = bits / 65536 % 256 ∷ bits / 256 % 256 ∷ bits % 256 ∷ []
stored (bits, suc zero) = bits / 65536 % 256 ∷ bits / 256 % 256 ∷ []
stored (bits, suc (suc n)) = bits / 65536 % 256 ∷ []

store_quantum : Option (ℕ × ℕ) → Option Bytes
unfolding stored
store_quantum none = none
store_quantum (some r) = some (stored r)

-- `_decode_quantum`
unfoldable pub decode_quantum : Bytes → Bytes → Option Bytes
unfolding quantum_loop store_quantum
decode_quantum table source = store_quantum (quantum_loop 4 table source 0 0)

-- The loop over the quanta, with what has been stored.
unfoldable pub decode_loop : ℕ → Bytes → Bytes → Bytes → Option Bytes
unfolding decode_quantum
decode_loop zero table source out = some out
decode_loop (suc k) table source out = elim (decode_quantum table source) [
  | none ↦ none
  | some b ↦ decode_loop k table (drop 4 source) (out ++ b)
]

-- The index of the first padding character, or of the terminator.
unfoldable pub padding_index : Bytes → ℕ
padding_index [] = 0
padding_index (c ∷ p) = if c == padding_char || c == 0 then 0 else suc (padding_index p)

-- The padding characters there: two at most are counted.
unfoldable pub padding_count : Bytes → ℕ → ℕ
padding_count p index =
    if at p index == padding_char then (if at p (index + 1) == padding_char then 2 else 1) else 0

-- The decoded block is released again if a quantum is refused.
finish : Option Bytes → ℕ → M (ErrorCode × Option Bytes × ℕ)
unfolding memory_release
finish none raw_length = do memory_release true; pure (bad_content_encoding, none, 0)
finish (some decoded) raw_length = pure (ok, some decoded, raw_length)

-- `_decode_with_table`, for a string with the buffer `p` and the length `n`: the code, the decoded
-- data and its size. (On a bad length the outputs are not written; they are shown as empty here.)
unfoldable pub decode_with_table : Bytes → Bytes → ℕ → M (ErrorCode × Option Bytes × ℕ)
unfolding memory_allocate decode_loop padding_index padding_count finish
decode_with_table table p n =
    let index = padding_index p in
    let padding = padding_count p index in
    let raw_length = n / 4 * 3 - padding in
    if n == 0 || not (n % 4 == 0)
    then pure (bad_content_encoding, none, 0)
    else if index + padding == n
    then (do
      granted ← memory_allocate ((raw_length + 1) % 2 ^ 64)
      if granted
          then finish (decode_loop (n / 4) table p []) raw_length
          else pure (out_of_memory, none, 0))
    else pure (bad_content_encoding, none, 0)

-- `base64_decode`
unfoldable pub base64_decode : Bytes → ℕ → M (ErrorCode × Option Bytes × ℕ)
unfolding decode_with_table
base64_decode = decode_with_table base64_decode_table

-- `base64_url_decode`
unfoldable pub base64_url_decode : Bytes → ℕ → M (ErrorCode × Option Bytes × ℕ)
unfolding decode_with_table
base64_url_decode = decode_with_table base64_url_decode_table
