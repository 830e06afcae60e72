-- ===== src/HttpRequest/Section/Sub.antt =====
-- The sub sections that `http_request_start_tuple_sub_section` opens.
use iot_eclipse.Base.{
  ℕ, ◌+◌, ◌%◌, ◌^◌, ◌≤◌, ◌<◌, ◌≡◌, refl, sym, true, false, Bool, Option, none, some, ◌++◌, length,
  length-append, arith, ◌∙◌, ap, inl, inr, if◌then◌else◌,
}
use iot_eclipse.Base.Bytes.{Bytes}
use iot_eclipse.Code.{ErrorCode, ok-cases}
use iot_eclipse.Memory.{Memory}
use iot_eclipse.StringType.{StringT}
use iot_eclipse.HttpRequest.{Request, boundary_text, resize_if_necessary}
use iot_eclipse.HttpRequest.Room.{WellFormed, Roomy, Grows}
use iot_eclipse.HttpRequest.Space.{resize_if_necessary-Roomy}
use iot_eclipse.HttpRequest.Boundary.{length-boundary_text}
use iot_eclipse.HttpRequest.Part.{
  content_type, multipart_related, content_info, new_line, generate_random_boundary, buffer_of,
  characters,
}
use iot_eclipse.HttpRequest.Part.Pieces.{
  Writes, ◌>>>◌, add_boundary-Writes, content_info-Writes, add_content_info-Writes,
  add_blank_line-Writes, length-content_info, length-content_info_boundary,
}
use iot_eclipse.HttpRequest.Part.Random.{Made, drawn, length-drawn, generate_random_boundary-Made}
use iot_eclipse.HttpRequest.Section.{
  start_tuple_sub_section, sub_section_body, new_sub_section, write_sub_section, settle,
}
use iot_eclipse.HttpRequest.Section.Appended.{Appends, settle-Appends, failed-Appends}

-- A new boundary is defined in a header line that no blank line ends; the sub section follows.
abbrev pub sub_section_text : Bool → Bytes → Bytes → Bytes
sub_section_text true kind b =
    content_info content_type multipart_related (some b)
    ++ boundary_text false b
    ++ content_info content_type kind none
    ++ new_line
sub_section_text false kind b =
    boundary_text false b ++ content_info content_type kind none ++ new_line

length-sub_section_text :
    (new : Bool) (kind b : Bytes)
    → length b ≡ 22
    → length (sub_section_text new kind b) ≡ (if new then 109 else 44) + length kind
length-sub_section_text true kind b size =
    let info = content_info content_type multipart_related (some b) in
    omega (
      arith,
      length-append (info ++ boundary_text false b ++ content_info content_type kind none) new_line,
      length-append (info ++ boundary_text false b) (content_info content_type kind none),
      length-append info (boundary_text false b),
      length-boundary_text false b size,
      length-content_info content_type kind,
      length-content_info_boundary content_type multipart_related b,
      size,
    )
length-sub_section_text false kind b size = omega (
  arith,
  length-append (boundary_text false b ++ content_info content_type kind none) new_line,
  length-append (boundary_text false b) (content_info content_type kind none),
  length-boundary_text false b size,
  length-content_info content_type kind,
)

write_sub_section-Writes :
    (new : Bool) (kind b : Bytes)
    → length b ≡ 22
    → length kind < 2 ^ 30
    → Writes 1 (sub_section_text new kind b) (write_sub_section new kind b)
unfolding write_sub_section
write_sub_section-Writes true kind b size small =
    add_content_info-Writes content_type multipart_related 65 (some b)
      (omega (arith, length-content_info_boundary content_type multipart_related b, size))
      (omega arith) (omega arith)
    >>> add_boundary-Writes false b size
    >>> content_info-Writes content_type kind 14 refl (omega arith) small
    >>> add_blank_line-Writes
write_sub_section-Writes false kind b size small =
    add_boundary-Writes false b size
    >>> content_info-Writes content_type kind 14 refl (omega arith) small
    >>> add_blank_line-Writes

module _ (kind : Bytes) (n : ℕ) (r r1 : Request) (space : Roomy r n r1)
    (small : length kind < 2 ^ 30) where
  written_sub_section :
      (new : Bool) (b : Bytes) (s : Option Bytes)
      → s ≡ some b
      → length b ≡ 22
      → (if new then 110 else 45) + length kind ≤ n
      → Appends
          (sub_section_text new kind b)
          r
          (settle r1 (write_sub_section new kind (characters s) r1))
  written_sub_section new b s e size room =
      let (r2, f, w) =
        (write_sub_section-Writes new kind b size small).run r1 space.well_formed
          (ground (arith, length-sub_section_text new kind b size, space.room, space.offset)) in
      settle-Appends (sub_section_text new kind b) n r r1 r2
        (write_sub_section new kind (characters s) r1)
        (ap (λ o. write_sub_section new kind (characters o) r1) e ∙ f) space w

  new_sub_section-Appends :
      (draw : ℕ → ErrorCode × ℕ) (made : ErrorCode × Option StringT) (m : Memory)
      → Made draw made
      → 110 + length kind ≤ n
      → Appends
          (sub_section_text true kind (drawn draw 22 0))
          r
          (new_sub_section kind r1 made m).0.0
  unfolding new_sub_section Made
  new_sub_section-Appends draw (code, none) m bad room =
      failed-Appends (sub_section_text true kind (drawn draw 22 0)) code r r1 bad
  new_sub_section-Appends draw (code, some s) m made room =
      written_sub_section true (drawn draw 22 0) s.buffer made.1 (length-drawn draw 22 0) room

-- The text for a new boundary, or for that of the caller.
abbrev pub expected : (ℕ → ErrorCode × ℕ) → Bytes → Option StringT → Bytes
expected draw kind none = sub_section_text true kind (drawn draw 22 0)
expected draw kind (some s) = sub_section_text false kind (buffer_of s)

-- A boundary that the caller hands over has 22 characters.
abbrev pub Sized : Option StringT → Type 0
Sized none = Unit
Sized (some s) = (b : Bytes) × (s.buffer ≡ some b) × (length b ≡ 22)

-- `http_request_start_tuple_sub_section` on a well-formed request: nothing is written outside the
-- payload, and MCL_OK means that the opening boundary line, the header line of the sub section and a
-- blank line stand behind what the payload held, and before them the header line that defines the
-- boundary if the caller has none yet, with no blank line between the two. The length of the content
-- type is below 2 ^ 30.
pub start_tuple_sub_section_text :
    (grow : ℕ → ℕ → ℕ) (draw : ℕ → ErrorCode × ℕ) (r : Request) (kind : Bytes)
    (sub_boundary : Option StringT) (m : Memory)
    → Grows grow
    → WellFormed r
    → Sized sub_boundary
    → length kind < 2 ^ 30
    → Appends
        (expected draw kind sub_boundary)
        r
        (start_tuple_sub_section grow draw r kind sub_boundary m).0.0
unfolding start_tuple_sub_section sub_section_body
start_tuple_sub_section_text grow draw r kind none m grows wf sized small =
    let n = (110 + length kind) % 2 ^ 64 in
    let ((code, r1), m') = resize_if_necessary grow n r false m in
    let (roomy, _) = resize_if_necessary-Roomy grow n r false m grows wf in
    elim (ok-cases code) [
      | inl good ↦
          let (made, m'') = generate_random_boundary draw m' in
          rw good (
            new_sub_section-Appends kind n r r1 (roomy good) small draw made m''
              (generate_random_boundary-Made draw m') (omega arith))
      | inr bad ↦
          rw bad (failed-Appends (sub_section_text true kind (drawn draw 22 0)) code r r1 bad)
    ]
start_tuple_sub_section_text grow draw r kind (some s) m grows wf (b, e, size) small =
    let n = (45 + length kind) % 2 ^ 64 in
    let ((code, r1), m') = resize_if_necessary grow n r false m in
    let (roomy, _) = resize_if_necessary-Roomy grow n r false m grows wf in
    let f : sub_section_text false kind b ≡ sub_section_text false kind (buffer_of s) =
      ap (λ o. sub_section_text false kind (characters o)) (sym e) in
    elim (ok-cases code) [
      | inl good ↦
          rw (good, sym f)
            (written_sub_section kind n r r1 (roomy good) small false b s.buffer e size
              (omega arith))
      | inr bad ↦ rw bad (failed-Appends (sub_section_text false kind (buffer_of s)) code r r1 bad)
    ]
