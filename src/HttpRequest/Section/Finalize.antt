-- ===== src/HttpRequest/Section/Finalize.antt =====
-- The end of the payload that `http_request_finalize` writes, and a tuple that leaves no room for it.
use iot_eclipse.Base.{
  ℕ, ◌+◌, ◌^◌, ◌≤◌, ◌<◌, ◌≡◌, ◌⊎◌, refl, sym, true, false, some, ◌++◌, length, length-append, arith,
  ◌∙◌, ap, inl, inr,
}
use mathlib.Core.Option.{some-injective}
use iot_eclipse.Base.Bytes.{Bytes, codes}
use iot_eclipse.Code.{ErrorCode, ok, ok-cases, is_ok, http_request_finalize_failed}
use iot_eclipse.Memory.{Memory}
use iot_eclipse.HttpRequest.{Request, resize_if_necessary, get_available_space}
use iot_eclipse.HttpRequest.Room.{WellFormed, Grows}
use iot_eclipse.HttpRequest.Space.{resize_if_necessary-Roomy, available_lem}
use iot_eclipse.HttpRequest.Part.Pieces.{Writes, ◌>>>◌, put-Writes}
use iot_eclipse.HttpRequest.Part.Random.{drawn, length-drawn}
use iot_eclipse.HttpRequest.Section.{
  finalize, write_end, add_tuple, overhead_for_tuple, get_available_space_for_tuple,
}
use iot_eclipse.HttpRequest.Section.Appended.{Appends, Appended, Appended-Written, failed-Appends}
use iot_eclipse.HttpRequest.Section.Tuple.{tuple_text, add_tuple_text, length-tuple_text}

-- The closing boundary of the request.
abbrev pub end_text : Bytes → Bytes
end_text b = codes "--" ++ b ++ codes "--"

write_end-Writes : (b : Bytes) → length b ≡ 22 → Writes 0 (end_text b) (write_end b)
write_end-Writes b size =
    put-Writes (codes "--") 2 refl (omega arith)
    >>> put-Writes b 22 size (omega arith)
    >>> put-Writes (codes "--") 2 refl (omega arith)

length-end_text : (b : Bytes) → length b ≡ 22 → length (end_text b) ≡ 26
length-end_text b size =
    omega (arith, length-append (codes "--" ++ b) (codes "--"), length-append (codes "--") b, size)

finalize_ok :
    (grow : ℕ → ℕ → ℕ) (r r1 : Request) (m : Memory)
    → (resize_if_necessary grow 26 r true m).0 ≡ (ok, r1)
    → (finalize grow r m).0 ≡ write_end r1.boundary r1
unfolding finalize
finalize_ok grow r r1 m e = rw e refl

finalize_bad :
    (grow : ℕ → ℕ → ℕ) (r r1 : Request) (code : ErrorCode) (m : Memory)
    → (resize_if_necessary grow 26 r true m).0 ≡ (code, r1)
    → is_ok code ≡ false
    → (finalize grow r m).0 ≡ (http_request_finalize_failed, some r1)
unfolding finalize
finalize_bad grow r r1 code m e bad = ground (arith, e, bad)

-- `http_request_finalize` on a well-formed request with a boundary of 22 characters: nothing is
-- written outside the payload. The code is MCL_OK, and the closing boundary stands behind what the
-- payload held, or it is MCL_HTTP_REQUEST_FINALIZE_FAILED, which it is wherever less than 26 bytes are
-- available.
pub finalize_text :
    (grow : ℕ → ℕ → ℕ) (r : Request) (m : Memory)
    → Grows grow
    → WellFormed r
    → length r.boundary ≡ 22
    → Appends (end_text r.boundary) r (finalize grow r m).0
      × (((finalize grow r m).0.0 ≡ ok) ⊎ ((finalize grow r m).0.0 ≡ http_request_finalize_failed))
      × (get_available_space r 0 < 26 → (finalize grow r m).0.0 ≡ http_request_finalize_failed)
finalize_text grow r m grows wf size =
    let ((code, r1), m') = resize_if_necessary grow 26 r true m in
    let (roomy, full) = resize_if_necessary-Roomy grow 26 r true m grows wf in
    elim (ok-cases code) [
      | inl good ↦
          let space = roomy good in
          let b = r.boundary in
          let (r', e, w) =
            (write_end-Writes b size).run r1 space.well_formed
              (omega (arith, length-end_text b size, space.room, space.offset)) in
          let result : (finalize grow r m).0 ≡ (ok, some r') =
            finalize_ok grow r r1 m (ap (λ c. (c, r1)) good)
            ∙ ap (λ b1. write_end b1 r1) space.same.boundary
            ∙ e in
          rw result (
            (r', refl, λ _. Appended-Written (end_text b) 26 r r1 r' space w),
            inl refl,
            λ less. absurd (ground (arith, good, full.1 less)),
          )
      | inr bad ↦ rw (finalize_bad grow r r1 code m refl bad) (
        failed-Appends (end_text r.boundary) http_request_finalize_failed r r1 refl,
        inr refl,
        λ _. refl,
      )
    ]

available_tuple_lem :
    (r : Request)
    → WellFormed r
    → r.resize_enabled ≡ true
    → 0 < get_available_space_for_tuple r
    → get_available_space_for_tuple r + overhead_for_tuple + r.payload_offset
      ≡ r.max_http_payload_size
unfolding get_available_space
available_tuple_lem r wf enabled some_space = ground (arith, wf.inside, wf.most, wf.small)

-- A tuple that takes all the space that `http_request_get_available_space_for_tuple` reports, or all
-- but 6 bytes of it, leaves no room for the end of the payload: once it has been added,
-- `http_request_finalize` fails. The payload can be resized, and the callback copies all of the data.
pub finalize-add_tuple_fails :
    (grow : ℕ → ℕ → ℕ) (draw : ℕ → ErrorCode × ℕ) (r : Request) (meta meta_type : Bytes)
    (copy : ℕ → Bytes) (n : ℕ) (payload_type : Bytes) (m m' : Memory) (r' : Request)
    → Grows grow
    → WellFormed r
    → r.resize_enabled ≡ true
    → length r.boundary ≡ 22
    → length (copy n) ≡ n
    → length meta_type < 2 ^ 30
    → length payload_type < 2 ^ 30
    → let size = length meta_type + length payload_type + n + length meta in
      let space = get_available_space_for_tuple r in
      0 < space
      → size ≤ space
      → space ≤ size + 6
      → (add_tuple grow draw r meta meta_type copy n payload_type m).0 ≡ (ok, some r')
      → (finalize grow r' m').0.0 ≡ http_request_finalize_failed
finalize-add_tuple_fails grow draw r meta meta_type copy n payload_type m m' r' grows wf enabled
      size copied meta_small payload_small pos fits tight added =
    let b = drawn draw 22 0 in
    let whole = available_tuple_lem r wf enabled pos in
    let (r2, e, appended) =
      add_tuple_text grow draw r meta meta_type copy n payload_type m grows wf size
        (omega (arith, copied)) meta_small payload_small (omega (arith, whole, fits, wf.small)) in
    let same : r2 ≡ r' = some-injective r2 r' (sym e ∙ ap (λ p. p.1) added) in
    let after : Appended (tuple_text r.boundary b meta meta_type (copy n) payload_type) r r' =
      (rw (sym same) (appended (ap (λ p. p.0) added))) in
    let long =
      length-tuple_text r.boundary b meta meta_type (copy n) payload_type size
        (length-drawn draw 22 0) in
    let (_, _, fails) =
      finalize_text grow r' m' grows after.well_formed (ap length after.same.boundary ∙ size) in
    let enabled' : r'.resize_enabled ≡ true = after.same.enabled ∙ enabled in
    fails (
      ground (
        arith,
        available_lem r' after.well_formed,
        enabled',
        after.same.most,
        after.offset,
        long,
        copied,
        whole,
        tight,
      ))
