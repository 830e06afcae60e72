-- ===== src/HttpRequest/Section.antt =====
-- The sections of a multipart payload: the operations of
-- MindConnect_Library_V3.1.3.0/src/http_request.c that write one, or a part of one, or end the payload.
pub mod Appended
pub mod Single
pub mod Tuple
pub mod Finalize
pub mod Sub
pub mod Codes
use iot_eclipse.Base.{
  ℕ, ◌+◌, ◌*◌, ◌%◌, ◌^◌, Bool, true, false, Option, none, some, [], ◌++◌, if◌then◌else◌, length,
}
use iot_eclipse.Base.Bytes.{Bytes, codes}
use iot_eclipse.Code.{ErrorCode, ok, http_request_finalize_failed, is_ok}
use iot_eclipse.Memory.{M, pure, ◌>>=◌, ◌>>◌}
use iot_eclipse.StringType.{StringT, string_destroy}
use iot_eclipse.HttpRequest.{
  Request, get_available_space, resize_if_necessary, add_boundary, put, sub_size,
}
use iot_eclipse.HttpRequest.Part.{
  and_then, ◌>=>◌, content_type, content_id, multipart_related, add_content_info, add_blank_line,
  add_meta, add_payload, generate_random_boundary, buffer_of,
}

-- The five overheads of the file, from `BOUNDARY_LINE_LENGTH` 26, `CONTENT_TYPE_LINE_LENGTH` 65,
-- `CONTENT_TYPE_HEADER_LENGTH` 14, `CONTENT_ID_HEADER_LENGTH` 12 and `NEW_LINE_LENGTH` 2.
abbrev pub overhead_for_tuple : ℕ
overhead_for_tuple = 5 * 26 + 65 + 2 * 14 + 4 * 2 + 1

abbrev pub overhead_for_single : ℕ
overhead_for_single = 2 * 26 + 65 + 14 + 12 + 2 * 2 + 1

abbrev pub overhead_for_tuple_subsection_with_boundary_definition : ℕ
overhead_for_tuple_subsection_with_boundary_definition = 26 + 14 + 2 * 2 + 65 + 1

abbrev pub overhead_for_tuple_subsection : ℕ
overhead_for_tuple_subsection = 26 + 14 + 2 * 2 + 1

-- A section that fails does not move the offset.
unfoldable pub settle : Request → ErrorCode × Option Request → ErrorCode × Option Request
settle r (code, none) = (code, none)
settle r (code, some r') =
    if is_ok code
    then (code, some r')
    else (code, some (record r' { payload_offset = r.payload_offset }))

-- What follows once there is room.
unfoldable pub with_room :
    (Request → M (ErrorCode × Option Request))
    → ErrorCode × Request
    → M (ErrorCode × Option Request)
with_room body (code, r) = if is_ok code then body r else pure (code, some r)

-- The pieces of a section of its own.
abbrev pub write_single : Bytes → Bytes → Bytes → Bytes → Request → ErrorCode × Option Request
write_single boundary kind id meta =
    (λ r. add_boundary r boundary false)
    >=> add_content_info content_type kind (14 + length kind + 2) none
    >=> add_content_info content_id id (12 + length id + 2) none
    >=> add_blank_line
    >=> add_meta meta

-- `http_request_add_single`
unfoldable pub add_single :
    (ℕ → ℕ → ℕ) → Request → Bytes → Bytes → Bytes → M (ErrorCode × Option Request)
unfolding with_room settle
add_single grow r kind id meta =
    let required = (overhead_for_single + length kind + length id + length meta + 2 + 1) % 2 ^ 64 in
    resize_if_necessary grow required r false
    >>= with_room (λ r1. pure (settle r1 (write_single r1.boundary kind id meta r1)))

-- The pieces of a tuple behind its opening boundary line.
abbrev pub write_tuple :
    Bytes → Bytes → Bytes → (ℕ → Bytes) → ℕ → Bytes → Request → ErrorCode × Option Request
write_tuple sub_boundary meta meta_type copy payload_size payload_type =
    add_content_info content_type multipart_related 65 (some sub_boundary)
    >=> add_blank_line
    >=> (λ r. add_boundary r sub_boundary false)
    >=> add_content_info content_type meta_type (14 + length meta_type + 2) none
    >=> add_blank_line
    >=> add_meta meta
    >=> (λ r. add_boundary r sub_boundary false)
    >=> add_content_info content_type payload_type (14 + length payload_type + 2) none
    >=> add_blank_line
    >=> add_payload copy payload_size
    >=> add_blank_line
    >=> (λ r. add_boundary r sub_boundary true)

-- The tuple once its boundary has been made, or has not; the boundary is destroyed in the end.
unfoldable pub tuple_body :
    (Bytes → Request → ErrorCode × Option Request)
    → Request
    → ErrorCode × Option StringT
    → M (ErrorCode × Option Request)
unfolding string_destroy
tuple_body write r (code, none) = pure (code, some r)
tuple_body write r (code, some sub_boundary) =
    let result = write (buffer_of sub_boundary) r in
    (string_destroy (some sub_boundary) >> pure result)

-- The tuple behind its opening boundary line.
unfoldable pub after_boundary :
    (ℕ → ErrorCode × ℕ)
    → (Bytes → Request → ErrorCode × Option Request)
    → ErrorCode × Option Request
    → M (ErrorCode × Option Request)
after_boundary draw write (code, none) = pure (code, none)
after_boundary draw write (code, some r) =
    if is_ok code then generate_random_boundary draw >>= tuple_body write r else pure (code, some r)

-- The tuple for which there is room.
unfoldable pub tuple_in_room :
    (ℕ → ErrorCode × ℕ)
    → (Bytes → Request → ErrorCode × Option Request)
    → Request
    → M (ErrorCode × Option Request)
tuple_in_room draw write r =
    after_boundary draw write (add_boundary r r.boundary false) >>= λ result. pure (settle r result)

-- `http_request_add_tuple`
unfoldable pub add_tuple :
    (ℕ → ℕ → ℕ)
    → (ℕ → ErrorCode × ℕ)
    → Request
    → Bytes
    → Bytes
    → (ℕ → Bytes)
    → ℕ
    → Bytes
    → M (ErrorCode × Option Request)
unfolding with_room settle
add_tuple grow draw r meta meta_type copy payload_size payload_type =
    let required =
      (overhead_for_tuple + length meta_type + length payload_type + payload_size + length meta)
      % 2 ^ 64 in
    let write : Bytes → Request → ErrorCode × Option Request =
      λ sub_boundary. write_tuple sub_boundary meta meta_type copy payload_size payload_type in
    resize_if_necessary grow required r false >>= with_room (tuple_in_room draw write)

-- The pieces of a sub section; a boundary that is new is defined first.
unfoldable pub write_sub_section : Bool → Bytes → Bytes → Request → ErrorCode × Option Request
write_sub_section true kind sub_boundary =
    add_content_info content_type multipart_related 65 (some sub_boundary)
    >=> (λ r. add_boundary r sub_boundary false)
    >=> add_content_info content_type kind (14 + length kind + 2) none
    >=> add_blank_line
write_sub_section false kind sub_boundary =
    (λ r. add_boundary r sub_boundary false)
    >=> add_content_info content_type kind (14 + length kind + 2) none
    >=> add_blank_line

-- The sub section once its boundary has been made, or has not.
unfoldable pub new_sub_section :
    Bytes → Request → ErrorCode × Option StringT → M ((ErrorCode × Option Request) × Option StringT)
unfolding settle
new_sub_section kind r (code, none) = pure ((code, some r), none)
new_sub_section kind r (code, some sub_boundary) =
    pure (settle r (write_sub_section true kind (buffer_of sub_boundary) r), some sub_boundary)

-- The sub section for which there is room, with a boundary that is given or is made.
unfoldable pub sub_section_body :
    (ℕ → ErrorCode × ℕ)
    → Bytes
    → Request
    → Option StringT
    → M ((ErrorCode × Option Request) × Option StringT)
unfolding settle
sub_section_body draw kind r none = generate_random_boundary draw >>= new_sub_section kind r
sub_section_body draw kind r (some sub_boundary) =
    pure (settle r (write_sub_section false kind (buffer_of sub_boundary) r), some sub_boundary)

-- `http_request_start_tuple_sub_section`, with the boundary of the caller afterwards.
unfoldable pub start_tuple_sub_section :
    (ℕ → ℕ → ℕ)
    → (ℕ → ErrorCode × ℕ)
    → Request
    → Bytes
    → Option StringT
    → M ((ErrorCode × Option Request) × Option StringT)
start_tuple_sub_section grow draw r kind sub_boundary =
    let overhead : ℕ = elim sub_boundary [
      | none ↦ overhead_for_tuple_subsection_with_boundary_definition
      | some _ ↦ overhead_for_tuple_subsection
    ] in
    resize_if_necessary grow ((overhead + length kind) % 2 ^ 64) r false >>= λ (code, r1).
    if is_ok code
    then sub_section_body draw kind r1 sub_boundary
    else pure ((code, some r1), sub_boundary)

-- The three writes of `http_request_finalize`.
abbrev pub write_end : Bytes → Request → ErrorCode × Option Request
write_end boundary = put (codes "--") 2 ok >=> put boundary 22 ok >=> put (codes "--") 2 ok

-- `http_request_finalize`
unfoldable pub finalize : (ℕ → ℕ → ℕ) → Request → M (ErrorCode × Option Request)
finalize grow r = resize_if_necessary grow (2 * 2 + 22) r true >>= λ (code, r1).
    pure (if is_ok code then write_end r1.boundary r1 else (http_request_finalize_failed, some r1))

-- `http_request_add_raw_data`, with the number of bytes that were written.
unfoldable pub add_raw_data :
    (ℕ → ℕ → ℕ) → Request → (ℕ → Bytes) → ℕ → M (ErrorCode × Option Request × ℕ)
unfolding add_payload
add_raw_data grow r copy data_size = resize_if_necessary grow data_size r false >>= λ (code, r1).
    pure (
      if is_ok code
      then (let (code', result) = add_payload copy data_size r1 in
          (
            code',
            result,
            elim result [ none ↦ 0 | some r2 ↦ sub_size r2.payload_offset r1.payload_offset ],
          ))
      else (code, some r1, 0))

-- `http_request_get_available_space_for_raw_data`, `_for_tuple` and `_for_single`
abbrev pub get_available_space_for_raw_data : Request → ℕ
get_available_space_for_raw_data r = get_available_space r 0

abbrev pub get_available_space_for_tuple : Request → ℕ
get_available_space_for_tuple r = get_available_space r overhead_for_tuple

abbrev pub get_available_space_for_single : Request → ℕ
get_available_space_for_single r = get_available_space r overhead_for_single
