-- ===== src/HttpRequest/Boundary.antt =====
-- The boundary lines of a multipart payload: an opening line is written wholly inside the block, and a
-- closing line need not be.
use iot_eclipse.Base.{
  ℕ, ◌+◌, ◌≤◌, ◌≡◌, Bool, true, false, none, some, [], ◌∷◌, ◌++◌, ltb, length, length-append, arith,
  inl, inr, ◌∙◌, ap, ◌⊎◌,
}
use iot_eclipse.Base.Bytes.{Bytes}
use iot_eclipse.Code.{ok, ok-cases}
use iot_eclipse.Memory.{Memory}
use iot_eclipse.StringUtil.{snprintf}
use iot_eclipse.StringUtil.Print.{snprintf_whole}
use iot_eclipse.HttpRequest.{
  Request, resize_if_necessary, write_at, boundary_text, boundary_length, add_boundary, add_line,
  start_tuple, end_tuple_sub_section, sub_size,
}
use iot_eclipse.HttpRequest.Room.{WellFormed, Roomy, Grows, content}
use iot_eclipse.HttpRequest.Written.{write_none, put_line-Written, put_line_step, put-none}
use iot_eclipse.HttpRequest.Space.{resize_if_necessary-Roomy, grow_none}

pub length-boundary_text :
    (close : Bool) (b : Bytes)
    → length b ≡ 22
    → length (boundary_text close b) ≡ boundary_length close
length-boundary_text true b size = omega (arith, size, length-append b (45 ∷ 45 ∷ 13 ∷ 10 ∷ []))
length-boundary_text false b size = omega (arith, size, length-append b (13 ∷ 10 ∷ []))

-- The request after a boundary line.
pub record Lined (close : Bool) (b : Bytes) (r r' : Request) : Type 0 where
  pub text : content r' ≡ content r ++ boundary_text close b
  pub offset : r'.payload_offset ≡ r.payload_offset + boundary_length close
  pub well_formed : WellFormed r'

-- `_add_boundary` writes its line behind the content of the payload, for a boundary of 22 characters
-- and a payload with room for the line and its terminator.
pub add_boundary_line :
    (close : Bool) (b : Bytes) (r : Request)
    → length b ≡ 22
    → WellFormed r
    → r.payload_offset + (boundary_length close + 1) ≤ r.payload_size
    → (r' : Request) × (add_boundary r b close ≡ (ok, some r')) × Lined close b r r'
unfolding add_boundary
add_boundary_line close b r size wf room =
    let n = length-boundary_text close b size in
    let bounds : (26 ≤ boundary_length close) × (boundary_length close ≤ 28) = ground arith in
    let (r', e, written) =
      put_line-Written (boundary_text close b) (boundary_length close) n (omega (arith, bounds.0))
        (omega (arith, bounds.1)) r wf (omega (arith, room, n)) in
    (
      r',
      e,
      record {
        text = written.text;
        offset = written.offset ∙ ap (λ k. r.payload_offset + k) n;
        well_formed = written.well_formed;
      },
    )

Lined-after :
    (r r1 r' : Request) (b : Bytes) → Roomy r 27 r1 → Lined false b r1 r' → Lined false b r r'
Lined-after r r1 r' b space lined = record {
  text = lined.text ∙ ap (λ c. c ++ boundary_text false b) space.kept;
  offset = lined.offset ∙ ap (λ n. n + 26) space.offset;
  well_formed = lined.well_formed;
}

-- `http_request_start_tuple` on a well-formed request, with a boundary of 22 characters and a growth
-- that leaves room: if it is MCL_OK an opening boundary line stands behind what the payload held, and
-- in any case nothing is written outside the payload.
pub start_tuple_line :
    (grow : ℕ → ℕ → ℕ) (r : Request) (m : Memory)
    → Grows grow
    → WellFormed r
    → length r.boundary ≡ 22
    → (r' : Request) × ((start_tuple grow r m).0.1 ≡ some r')
      × ((start_tuple grow r m).0.0 ≡ ok → Lined false r.boundary r r')
unfolding start_tuple add_line
start_tuple_line grow r m grows wf size =
    let (code, r1) = (resize_if_necessary grow 27 r false m).0 in
    let (roomy, _) = resize_if_necessary-Roomy grow 27 r false m grows wf in
    elim (ok-cases code) [
      | inl good ↦
          let space = roomy good in
          let (r', e, lined) =
            add_boundary_line false r.boundary r1 size space.well_formed
              (omega (arith, space.room, space.offset)) in
          (r', ground (arith, good, e), λ _. Lined-after r r1 r' r.boundary space lined)
      | inr bad ↦ (r1, ground (arith, bad), λ e. absurd (ground (arith, bad, e)))
    ]

overrun_step :
    (r : Request) (b text : Bytes) (close : Bool)
    → snprintf (boundary_length close + 1) (boundary_text close b) ≡ (ok, text)
    → write_at r.payload r.payload_offset (text ++ (0 ∷ [])) ≡ none
    → add_boundary r b close ≡ (ok, none)
unfolding add_boundary
overrun_step r b text close e f =
    put_line_step (boundary_text close b) text (boundary_length close) ok r e
    ∙ put-none (text ++ (0 ∷ [])) (boundary_length close) ok r f

-- `http_request_end_tuple_sub_section` writes outside the payload where the payload has just the room
-- that it asks for, or one byte more, and cannot be resized: it asks for an opening line.
pub end_tuple_sub_section_overruns :
    (grow : ℕ → ℕ → ℕ) (r : Request) (sub_boundary : Bytes) (m : Memory)
    → WellFormed r
    → r.resize_enabled ≡ false
    → length sub_boundary ≡ 22
    → (r.payload_size ≡ r.payload_offset + 27) ⊎ (r.payload_size ≡ r.payload_offset + 28)
    → (end_tuple_sub_section grow r sub_boundary m).0 ≡ (ok, none)
unfolding end_tuple_sub_section add_line
end_tuple_sub_section_overruns grow r sub_boundary m wf fixed size tight =
    let text = boundary_text true sub_boundary in
    let n = length-boundary_text true sub_boundary size in
    let enough : ltb (sub_size r.payload_size r.payload_offset) 27 ≡ false =
      ground (arith, tight, wf.most, wf.small) in
    let line : length (text ++ (0 ∷ [])) ≡ 29 = omega (arith, n, length-append text (0 ∷ [])) in
    let outside =
      write_none r.payload (text ++ (0 ∷ [])) r.payload_offset
        (ground (arith, line, tight, wf.size)) in
    let whole = snprintf_whole 29 text (omega (arith, n)) (omega (arith, n)) (omega (arith, n)) in
    rw (grow_none grow 27 r m enough) (overrun_step r sub_boundary text true whole outside)
