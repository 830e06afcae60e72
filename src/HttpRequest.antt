-- ===== src/HttpRequest.antt =====
-- The payload buffer of MindConnect_Library_V3.1.3.0/src/http_request.c: how it grows, and the
-- boundary lines that are written to it. The other parts of an `http_request_t` stand apart.
pub mod Room
pub mod Space
pub mod Written
pub mod Boundary
pub mod Part
pub mod Section
mod Examples
use iot_eclipse.Base.{
  ℕ, ◌+◌, ◌-◌, ◌*◌, ◌%◌, ◌^◌, Bool, true, false, ◌&&◌, Option, none, some, [], ◌∷◌, ◌++◌, ltb, leb,
  if◌then◌else◌, length, take, drop,
}
use iot_eclipse.Base.Bytes.{Bytes, codes}
use iot_eclipse.Code.{
  ErrorCode, ok, out_of_memory, http_request_no_more_space, http_request_finalize_failed, is_ok,
}
use iot_eclipse.Memory.{Memory, M, pure, ◌>>=◌, memory_allocate, memory_reallocate, fresh_from}
use iot_eclipse.StringType.{add_size}
use iot_eclipse.StringUtil.{snprintf}

-- The part of `http_request_t` that the payload concerns.
pub record Request : Type 0 where
  pub payload : Option Bytes
  pub payload_size : ℕ
  pub payload_offset : ℕ
  pub boundary : Bytes
  pub max_http_payload_size : ℕ
  pub resize_enabled : Bool

-- `mcl_size_t` subtraction
abbrev pub sub_size : ℕ → ℕ → ℕ
sub_size a b = (a + (2 ^ 64 - b)) % 2 ^ 64

-- What a block holds after it has been resized.
unfoldable pub resized : Option Bytes → ℕ → Memory → Bytes
resized none n m = fresh_from m n 0
resized (some block) n m = take n block ++ fresh_from m (n - length block) 0

abbrev pub reallocate : Option Bytes → ℕ → M Bool
reallocate none = memory_allocate
reallocate (some _) = memory_reallocate

-- `MCL_RESIZE` of the payload, and what the code does with its result.
unfoldable pub resize_to : ℕ → Request → M (ErrorCode × Request)
unfolding memory_allocate memory_reallocate
resize_to n r m =
    let (granted, m') = reallocate r.payload n m in
    (
      if granted
          then (ok, record r { payload = some (resized r.payload n m); payload_size = n })
          else (out_of_memory, record r { payload = none }),
      m',
    )

-- `_get_available_space`
unfoldable pub get_available_space : Request → ℕ → ℕ
get_available_space r overhead =
    let limit = if r.resize_enabled then r.max_http_payload_size else r.payload_size in
    if ltb overhead (2 ^ 64 - 1 - r.payload_offset)
      && ltb (add_size r.payload_offset overhead) limit
    then sub_size (sub_size limit r.payload_offset) overhead
    else 0

-- `max_allowed_available_size`
abbrev pub allowed : Request → ℕ
allowed r =
    sub_size (if r.resize_enabled then r.max_http_payload_size else r.payload_size) r.payload_offset

-- `_resize_payload_buffer_if_necessary`; `grow` is the new size that it computes in floating-point
-- numbers from the required and the present size.
unfoldable pub resize_if_necessary : (ℕ → ℕ → ℕ) → ℕ → Request → Bool → M (ErrorCode × Request)
resize_if_necessary grow required r true =
    if leb required (allowed r)
    then (if r.resize_enabled
        then resize_to (add_size r.payload_offset required) r
        else pure (ok, r))
    else pure (http_request_no_more_space, r)
resize_if_necessary grow required r false =
    if ltb (sub_size r.payload_size r.payload_offset) required
    then (if leb (grow required r.payload_size) r.max_http_payload_size && r.resize_enabled
        then resize_to (grow required r.payload_size) r
        else if leb required (allowed r) && r.resize_enabled
        then resize_to r.max_http_payload_size r
        else pure (http_request_no_more_space, r))
    else pure (ok, r)

-- Bytes written to the payload at an offset; `none` if they do not lie inside the block.
unfoldable pub write_at : Option Bytes → ℕ → Bytes → Option Bytes
write_at none offset text = none
write_at (some block) offset text =
    if leb (offset + length text) (length block)
    then some (take offset block ++ (text ++ drop (offset + length text) block))
    else none

-- The text that `_add_boundary` writes, and its length.
abbrev pub boundary_text : Bool → Bytes → Bytes
boundary_text close boundary =
    codes "--" ++ (boundary ++ (if close then codes "--" ++ (13 ∷ 10 ∷ []) else 13 ∷ 10 ∷ []))

abbrev pub boundary_length : Bool → ℕ
boundary_length close = if close then 26 + 2 else 26

-- Bytes written at the offset, which moves on by `n` if the code is MCL_OK; a request that wrote
-- outside its payload is `none`.
unfoldable pub put : Bytes → ℕ → ErrorCode → Request → ErrorCode × Option Request
put bytes n code r = (
  code,
  elim (write_at r.payload r.payload_offset bytes) [
    | none ↦ none
    | some block ↦ some (record r {
      payload = some block;
      payload_offset = if is_ok code then add_size r.payload_offset n else r.payload_offset;
    })
  ],
)

-- A line of `n` characters that `string_util_snprintf` writes with its terminator.
unfoldable pub put_line : Bytes → ℕ → Request → ErrorCode × Option Request
put_line text n r =
    let (code, printed) = snprintf (n + 1) text in put (printed ++ (0 ∷ [])) n code r

-- `_add_boundary`
unfoldable pub add_boundary : Request → Bytes → Bool → ErrorCode × Option Request
unfolding put_line
add_boundary r boundary close = put_line (boundary_text close boundary) (boundary_length close) r

unfoldable pub add_line : Bytes → Bool → ErrorCode × Request → M (ErrorCode × Option Request)
add_line boundary close (code, r) =
    pure (if is_ok code then add_boundary r boundary close else (code, some r))

-- `http_request_start_tuple`
unfoldable pub start_tuple : (ℕ → ℕ → ℕ) → Request → M (ErrorCode × Option Request)
unfolding add_line
start_tuple grow r = resize_if_necessary grow 27 r false >>= add_line r.boundary false

-- `http_request_end_tuple_sub_section`
unfoldable pub end_tuple_sub_section :
    (ℕ → ℕ → ℕ) → Request → Bytes → M (ErrorCode × Option Request)
unfolding add_line
end_tuple_sub_section grow r sub_boundary =
    resize_if_necessary grow 27 r false >>= add_line sub_boundary true
