-- ===== src/HttpRequest/Part.antt =====
-- The pieces that a section of the payload is made of in
-- MindConnect_Library_V3.1.3.0/src/http_request.c, and the boundary that is drawn at random. A string
-- that is written is the list of its characters, whose number is its length.
pub mod Pieces
pub mod Random
use iot_eclipse.Base.{
  ℕ, zero, suc, ◌+◌, ◌%◌, Bool, true, false, Option, none, some, [], ◌∷◌, ◌++◌, if◌then◌else◌,
  length, set,
}
use iot_eclipse.Base.Bytes.{Bytes, at, codes}
use iot_eclipse.Code.{ErrorCode, ok, is_ok}
use iot_eclipse.Memory.{M, pure, ◌>>=◌, ◌>>◌}
use iot_eclipse.StringType.{StringT, string_initialize_new, string_destroy}
use iot_eclipse.HttpRequest.{Request, put, put_line}

-- A step that fails ends the section, and so does one that wrote outside the payload.
unfoldable pub and_then :
    ErrorCode × Option Request → (Request → ErrorCode × Option Request) → ErrorCode × Option Request
and_then (code, none) next = (code, none)
and_then (code, some r) next = if is_ok code then next r else (code, some r)

-- One step, and then another.
infixl 5 ◌>=>◌
abbrev pub ◌>=>◌ :
    (Request → ErrorCode × Option Request)
    → (Request → ErrorCode × Option Request)
    → Request
    → ErrorCode × Option Request
(step >=> next) r = and_then (step r) next

abbrev pub new_line : Bytes
new_line = 13 ∷ 10 ∷ []

-- `http_header_names[HTTP_HEADER_CONTENT_TYPE]` and `http_header_names[HTTP_HEADER_CONTENT_ID]`
abbrev pub content_type : Bytes
content_type = codes "Content-Type"

abbrev pub content_id : Bytes
content_id = codes "Content-ID"

-- `content_type_values[CONTENT_TYPE_MULTIPART_RELATED]`
abbrev pub multipart_related : Bytes
multipart_related = codes "multipart/related"

-- What `_add_content_info` prints.
unfoldable pub content_info : Bytes → Bytes → Option Bytes → Bytes
content_info name value none = name ++ (codes ": " ++ (value ++ new_line))
content_info name value (some sub_boundary) =
    name ++ (codes ": " ++ (value ++ (codes ";boundary=" ++ (sub_boundary ++ new_line))))

-- `_add_content_info`
unfoldable pub add_content_info :
    Bytes → Bytes → ℕ → Option Bytes → Request → ErrorCode × Option Request
add_content_info name value line_length sub_boundary =
    put_line (content_info name value sub_boundary) line_length

-- `_add_blank_line`, with the NUL behind it.
unfoldable pub add_blank_line : Request → ErrorCode × Option Request
add_blank_line = put (new_line ++ (0 ∷ [])) 2 ok

-- `_add_meta`
unfoldable pub add_meta : Bytes → Request → ErrorCode × Option Request
add_meta meta = put meta (length meta) ok >=> add_blank_line

-- `_add_payload`; `copy` is the callback, with the bytes that it writes for the size that is asked.
unfoldable pub add_payload : (ℕ → Bytes) → ℕ → Request → ErrorCode × Option Request
add_payload copy payload_size = put (copy payload_size) (length (copy payload_size)) ok

abbrev pub boundary_characters : Bytes
boundary_characters = codes "1234567890abcdefghijklmnopqrstuvwxyzABCDEFGHIJKLMNOPQRSTUVWXYZ"

-- The loop of `_generate_random_boundary`, with the rounds that are left; `draw` is what
-- `random_generate_number` returns in each round.
unfoldable pub draw_loop : (ℕ → ErrorCode × ℕ) → ℕ → ℕ → Bytes → ErrorCode × Bytes
draw_loop draw zero index buffer = (ok, buffer)
draw_loop draw (suc k) index buffer =
    let (code, random_index) = draw index in
    let rest =
      draw_loop draw k (index + 1)
        (set buffer index (at boundary_characters (random_index % 62))) in
    if is_ok code then rest else (code, buffer)

-- The characters of a string that has been made.
abbrev pub characters : Option Bytes → Bytes
characters none = []
characters (some buffer) = buffer

abbrev pub buffer_of : StringT → Bytes
buffer_of s = characters s.buffer

-- The buffer that the loop has filled, or the end of the string.
unfoldable pub keep_boundary : StringT → ErrorCode × Bytes → M (ErrorCode × Option StringT)
keep_boundary s (code, buffer) =
    let filled = record s { buffer = some buffer } in
    if is_ok code
    then pure (ok, some filled)
    else (do string_destroy (some filled); pure (code, none))

unfoldable pub fill_boundary :
    (ℕ → ErrorCode × ℕ) → ErrorCode × Option StringT → M (ErrorCode × Option StringT)
fill_boundary draw (code, none) = pure (code, none)
fill_boundary draw (code, some s) = keep_boundary s (draw_loop draw 22 0 (buffer_of s))

-- `_generate_random_boundary`
unfoldable pub generate_random_boundary : (ℕ → ErrorCode × ℕ) → M (ErrorCode × Option StringT)
generate_random_boundary draw = string_initialize_new none 22 >>= fill_boundary draw
