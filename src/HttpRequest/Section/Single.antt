-- ===== src/HttpRequest/Section/Single.antt =====
-- The section that `http_request_add_single` writes.
use iot_eclipse.Base.{
  ℕ, ◌+◌, ◌%◌, ◌^◌, ◌<◌, ◌≡◌, refl, false, none, ◌++◌, length, length-append, arith, ◌∙◌, ap,
}
use iot_eclipse.Base.Bytes.{Bytes}
use iot_eclipse.Memory.{Memory, pure}
use iot_eclipse.HttpRequest.{Request, boundary_text}
use iot_eclipse.HttpRequest.Room.{WellFormed, Grows}
use iot_eclipse.HttpRequest.Boundary.{length-boundary_text}
use iot_eclipse.HttpRequest.Part.{content_type, content_id, content_info, new_line}
use iot_eclipse.HttpRequest.Part.Pieces.{
  Writes, ◌>>>◌, content_info-Writes, add_boundary-Writes, add_blank_line-Writes, add_meta-Writes,
  length-content_info,
}
use iot_eclipse.HttpRequest.Section.{add_single, write_single, settle, overhead_for_single}
use iot_eclipse.HttpRequest.Section.Appended.{Appends, settle-Appends, with_room-Appends}

abbrev opening : Bytes → Bytes → Bytes
opening b kind = boundary_text false b ++ content_info content_type kind none

-- The text of a section of its own.
abbrev pub single_text : Bytes → Bytes → Bytes → Bytes → Bytes
single_text b kind id meta =
    ((opening b kind ++ content_info content_id id none) ++ new_line) ++ (meta ++ new_line)

length-single_text :
    (b kind id meta : Bytes)
    → length b ≡ 22
    → length (single_text b kind id meta) ≡ 60 + length kind + length id + length meta
length-single_text b kind id meta size = omega (
  arith,
  length-append ((opening b kind ++ content_info content_id id none) ++ new_line)
      (meta ++ new_line),
  length-append (opening b kind ++ content_info content_id id none) new_line,
  length-append (opening b kind) (content_info content_id id none),
  length-append (boundary_text false b) (content_info content_type kind none),
  length-append meta new_line,
  length-boundary_text false b size,
  length-content_info content_type kind,
  length-content_info content_id id,
)

write_single-Writes :
    (b kind id meta : Bytes)
    → length b ≡ 22
    → length kind < 2 ^ 30
    → length id < 2 ^ 30
    → Writes 1 (single_text b kind id meta) (write_single b kind id meta)
write_single-Writes b kind id meta size kind_small id_small =
    add_boundary-Writes false b size
    >>> content_info-Writes content_type kind 14 refl (omega arith) kind_small
    >>> content_info-Writes content_id id 12 refl (omega arith) id_small
    >>> add_blank_line-Writes
    >>> add_meta-Writes meta

-- `http_request_add_single` on a well-formed request with a boundary of 22 characters: nothing is
-- written outside the payload, and MCL_OK means that the section stands behind what the payload held.
-- The lengths of the header values are below 2 ^ 30, and their sum is one of `mcl_size_t`.
pub add_single_text :
    (grow : ℕ → ℕ → ℕ) (r : Request) (kind id meta : Bytes) (m : Memory)
    → Grows grow
    → WellFormed r
    → length r.boundary ≡ 22
    → length kind < 2 ^ 30
    → length id < 2 ^ 30
    → overhead_for_single + length kind + length id + length meta + 2 + 1 < 2 ^ 64
    → Appends (single_text r.boundary kind id meta) r (add_single grow r kind id meta m).0
unfolding add_single
add_single_text grow r kind id meta m grows wf size kind_small id_small sum =
    let text = single_text r.boundary kind id meta in
    let required = (overhead_for_single + length kind + length id + length meta + 2 + 1) % 2 ^ 64 in
    with_room-Appends grow required text r m
      (λ r1. pure (settle r1 (write_single r1.boundary kind id meta r1))) grows wf
      λ r1 m' space.
        let (r', e, w) =
          (write_single-Writes r.boundary kind id meta size kind_small id_small).run r1
            space.well_formed
            (omega
              (arith, length-single_text r.boundary kind id meta size, space.room, space.offset)) in
        settle-Appends text required r r1 r' (write_single r1.boundary kind id meta r1)
          (ap (λ b. write_single b kind id meta r1) space.same.boundary ∙ e) space w
