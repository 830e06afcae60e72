-- ===== src/HttpRequest/Section/Tuple.antt =====
-- The tuple that `http_request_add_tuple` writes.
use iot_eclipse.Base.{
  ℕ, ◌+◌, ◌%◌, ◌^◌, ◌≤◌, ◌<◌, ◌≡◌, refl, true, false, Option, none, some, ◌++◌, length,
  length-append, arith, ◌∙◌, ap,
}
use iot_eclipse.Base.Bytes.{Bytes}
use iot_eclipse.Code.{ErrorCode, ok}
use iot_eclipse.Memory.{Memory}
use iot_eclipse.StringType.{StringT}
use iot_eclipse.HttpRequest.{Request, boundary_text, add_boundary}
use iot_eclipse.HttpRequest.Room.{WellFormed, Roomy, Grows}
use iot_eclipse.HttpRequest.Written.{Written}
use iot_eclipse.HttpRequest.Boundary.{length-boundary_text}
use iot_eclipse.HttpRequest.Part.{
  content_type, multipart_related, content_info, new_line, generate_random_boundary, buffer_of,
  characters,
}
use iot_eclipse.HttpRequest.Part.Pieces.{
  Writes, ◌>>>◌, add_boundary-Writes, content_info-Writes, add_content_info-Writes,
  add_blank_line-Writes, add_meta-Writes, add_payload-Writes, length-content_info,
  length-content_info_boundary, Written-after,
}
use iot_eclipse.HttpRequest.Part.Random.{Made, drawn, length-drawn, generate_random_boundary-Made}
use iot_eclipse.HttpRequest.Section.{
  add_tuple, tuple_in_room, write_tuple, tuple_body, after_boundary, settle, overhead_for_tuple,
}
use iot_eclipse.HttpRequest.Section.Appended.{
  Appends, settle-Appends, settle-failed, with_room-Appends,
}

-- The parts of a tuple behind its opening boundary line: the head of the whole, the meta data and the
-- payload.
abbrev meta_head : Bytes → Bytes → Bytes
meta_head b meta_type =
    content_info content_type multipart_related (some b)
    ++ new_line
    ++ boundary_text false b
    ++ content_info content_type meta_type none
    ++ new_line

abbrev payload_head : Bytes → Bytes → Bytes → Bytes → Bytes
payload_head b meta meta_type payload_type =
    meta_head b meta_type
    ++ (meta ++ new_line)
    ++ boundary_text false b
    ++ content_info content_type payload_type none
    ++ new_line

abbrev pub parts_text : Bytes → Bytes → Bytes → Bytes → Bytes → Bytes
parts_text b meta meta_type payload payload_type =
    payload_head b meta meta_type payload_type ++ payload ++ new_line ++ boundary_text true b

-- The text of a tuple, with the boundary of the request and that of the tuple.
abbrev pub tuple_text : Bytes → Bytes → Bytes → Bytes → Bytes → Bytes → Bytes
tuple_text main b meta meta_type payload payload_type =
    boundary_text false main ++ parts_text b meta meta_type payload payload_type

length-meta_head :
    (b meta_type : Bytes) → length b ≡ 22 → length (meta_head b meta_type) ≡ 111 + length meta_type
length-meta_head b meta_type size =
    let info = content_info content_type multipart_related (some b) in
    omega (
      arith,
      length-append
          (info ++ new_line ++ boundary_text false b ++ content_info content_type meta_type none)
          new_line,
      length-append (info ++ new_line ++ boundary_text false b)
          (content_info content_type meta_type none),
      length-append (info ++ new_line) (boundary_text false b),
      length-append info new_line,
      length-boundary_text false b size,
      length-content_info content_type meta_type,
      length-content_info_boundary content_type multipart_related b,
      size,
    )

length-payload_head :
    (b meta meta_type payload_type : Bytes)
    → length b ≡ 22
    → length (payload_head b meta meta_type payload_type)
      ≡ 157 + length meta_type + length meta + length payload_type
length-payload_head b meta meta_type payload_type size =
    let head = meta_head b meta_type in
    let info = content_info content_type payload_type none in
    omega (
      arith,
      length-append (head ++ (meta ++ new_line) ++ boundary_text false b ++ info) new_line,
      length-append (head ++ (meta ++ new_line) ++ boundary_text false b) info,
      length-append (head ++ (meta ++ new_line)) (boundary_text false b),
      length-append head (meta ++ new_line),
      length-append meta new_line,
      length-boundary_text false b size,
      length-content_info content_type payload_type,
      length-meta_head b meta_type size,
    )

-- Behind its opening boundary line a tuple takes 187 characters and its data.
length-parts_text :
    (b meta meta_type payload payload_type : Bytes)
    → length b ≡ 22
    → length (parts_text b meta meta_type payload payload_type)
      ≡ 187 + length meta_type + length meta + length payload_type + length payload
length-parts_text b meta meta_type payload payload_type size =
    let head = payload_head b meta meta_type payload_type in
    omega (
      arith,
      length-append (head ++ payload ++ new_line) (boundary_text true b),
      length-append (head ++ payload) new_line,
      length-append head payload,
      length-boundary_text true b size,
      length-payload_head b meta meta_type payload_type size,
    )

pub length-tuple_text :
    (main b meta meta_type payload payload_type : Bytes)
    → length main ≡ 22
    → length b ≡ 22
    → length (tuple_text main b meta meta_type payload payload_type)
      ≡ 213 + length meta_type + length meta + length payload_type + length payload
length-tuple_text main b meta meta_type payload payload_type main_size size = omega (
  arith,
  length-append (boundary_text false main) (parts_text b meta meta_type payload payload_type),
  length-boundary_text false main main_size,
  length-parts_text b meta meta_type payload payload_type size,
)

write_tuple-Writes :
    (b meta meta_type : Bytes) (copy : ℕ → Bytes) (n : ℕ) (payload_type : Bytes)
    → length b ≡ 22
    → length meta_type < 2 ^ 30
    → length payload_type < 2 ^ 30
    → Writes 1
        (parts_text b meta meta_type (copy n) payload_type)
        (write_tuple b meta meta_type copy n payload_type)
write_tuple-Writes b meta meta_type copy n payload_type size meta_small payload_small =
    add_content_info-Writes content_type multipart_related 65 (some b)
      (omega (arith, length-content_info_boundary content_type multipart_related b, size))
      (omega arith) (omega arith)
    >>> add_blank_line-Writes
    >>> add_boundary-Writes false b size
    >>> content_info-Writes content_type meta_type 14 refl (omega arith) meta_small
    >>> add_blank_line-Writes
    >>> add_meta-Writes meta
    >>> add_boundary-Writes false b size
    >>> content_info-Writes content_type payload_type 14 refl (omega arith) payload_small
    >>> add_blank_line-Writes
    >>> add_payload-Writes copy n
    >>> add_blank_line-Writes
    >>> add_boundary-Writes true b size

-- The body of the operation, once there is room and the opening boundary line stands.
module _ (write : Bytes → Request → ErrorCode × Option Request) (draw : ℕ → ErrorCode × ℕ) (n : ℕ)
    (first second : Bytes) (r r1 r2 : Request) (space : Roomy r n r1) (opened : Written first r1 r2)
    (writes : Writes 1 second (write (drawn draw 22 0)))
    (room : r.payload_offset + (length (first ++ second) + 1) ≤ r.payload_offset + n) where
  tuple_body-Appends :
      (made : ErrorCode × Option StringT) (m : Memory)
      → Made draw made
      → Appends (first ++ second) r (settle r1 (tuple_body write r2 made m).0)
  unfolding tuple_body Made
  tuple_body-Appends (code, none) m bad = settle-failed (first ++ second) code r r1 r2 bad
  tuple_body-Appends (code, some s) m made =
      let (r3, e, w) = writes.run r2 opened.well_formed (
        omega (
          arith,
          length-append first second,
          space.room,
          space.offset,
          opened.offset,
          opened.size,
          room,
        )) in
      settle-Appends (first ++ second) n r r1 r3 (write (buffer_of s) r2)
        (ap (λ buffer. write (characters buffer) r2) made.1 ∙ e) space
        (Written-after first second r1 r2 r3 opened w)

  after_boundary-Appends :
      (opening : ErrorCode × Option Request)
      → opening ≡ (ok, some r2)
      → (m : Memory)
      → Appends (first ++ second) r (settle r1 (after_boundary draw write opening m).0)
  unfolding after_boundary
  after_boundary-Appends opening e m =
      let (made, m') = generate_random_boundary draw m in
      rw e (tuple_body-Appends made m' (generate_random_boundary-Made draw m))

-- `http_request_add_tuple` on a well-formed request with a boundary of 22 characters: nothing is
-- written outside the payload, and MCL_OK means that the tuple stands behind what the payload held,
-- with the boundary that the random numbers stand for. The callback writes no more than it is asked,
-- the lengths of the content types are below 2 ^ 30, and the sum of all is one of `mcl_size_t`.
pub add_tuple_text :
    (grow : ℕ → ℕ → ℕ) (draw : ℕ → ErrorCode × ℕ) (r : Request) (meta meta_type : Bytes)
    (copy : ℕ → Bytes) (n : ℕ) (payload_type : Bytes) (m : Memory)
    → Grows grow
    → WellFormed r
    → length r.boundary ≡ 22
    → length (copy n) ≤ n
    → length meta_type < 2 ^ 30
    → length payload_type < 2 ^ 30
    → overhead_for_tuple + length meta_type + length payload_type + n + length meta < 2 ^ 64
    → Appends
        (tuple_text r.boundary (drawn draw 22 0) meta meta_type (copy n) payload_type)
        r
        (add_tuple grow draw r meta meta_type copy n payload_type m).0
unfolding add_tuple tuple_in_room
add_tuple_text grow draw r meta meta_type copy n payload_type m grows wf size copied meta_small
      payload_small sum =
    let b = drawn draw 22 0 in
    let drawn_size = length-drawn draw 22 0 in
    let long =
      length-tuple_text r.boundary b meta meta_type (copy n) payload_type size drawn_size in
    let required =
      (overhead_for_tuple + length meta_type + length payload_type + n + length meta) % 2 ^ 64 in
    let write : Bytes → Request → ErrorCode × Option Request =
      λ sub_boundary. write_tuple sub_boundary meta meta_type copy n payload_type in
    let first = boundary_text false r.boundary in
    let second = parts_text b meta meta_type (copy n) payload_type in
    with_room-Appends grow required (first ++ second) r m (tuple_in_room draw write) grows wf
      λ r1 m' space.
        let (r2, e, opened) =
          (add_boundary-Writes false r.boundary size).run r1 space.well_formed
            (omega (arith, length-boundary_text false r.boundary size, space.room, space.offset)) in
        let e' = ap (λ main. add_boundary r1 main false) space.same.boundary ∙ e in
        after_boundary-Appends write draw required first second r r1 r2 space opened
          (write_tuple-Writes b meta meta_type copy n payload_type drawn_size meta_small
            payload_small)
          (omega (arith, long)) (add_boundary r1 r1.boundary false) e' m'
