-- ===== src/HttpRequest/Space.antt =====
-- The payload has the room that was asked for, or the request says that there is no more.
use iot_eclipse.Base.{
  ℕ, ◌+◌, ◌-◌, ◌≤◌, ◌<◌, ◌≡◌, ◌↔◌, refl, Bool, true, false, ◌&&◌, ltb, leb, if◌then◌else◌, arith,
  Bool-cases, inl, inr,
}
use iot_eclipse.Code.{ErrorCode, ok, http_request_no_more_space}
use iot_eclipse.Memory.{Memory}
use iot_eclipse.StringType.{add_size}
use iot_eclipse.HttpRequest.{
  Request, resize_to, resize_if_necessary, get_available_space, allowed, sub_size,
}
use iot_eclipse.HttpRequest.Room.{WellFormed, Grows, Roomy, resize_to_room, same_Roomy}

-- What `_get_available_space` reports of a well-formed request.
abbrev pub limit : Request → ℕ
limit r = if r.resize_enabled then r.max_http_payload_size else r.payload_size

pub available_lem :
    (r : Request) → WellFormed r → get_available_space r 0 ≡ limit r - r.payload_offset
unfolding get_available_space
available_lem r wf = ground (arith, wf.inside, wf.most, wf.small)

allowed_lem : (r : Request) → WellFormed r → allowed r ≡ limit r - r.payload_offset
allowed_lem r wf = ground (arith, wf.inside, wf.most, wf.small)

-- The outcome of a request for room.
Outcome : Request → ℕ → ErrorCode × Request → Type 0
Outcome r required (code, r') =
    (code ≡ ok → Roomy r required r')
    × ((code ≡ http_request_no_more_space) ↔ (get_available_space r 0 < required))

Outcome-resize :
    (n required : ℕ) (r : Request) (m : Memory)
    → WellFormed r
    → r.payload_offset + required ≤ n
    → n ≤ r.max_http_payload_size
    → r.resize_enabled ≡ true
    → Outcome r required (resize_to n r m).0
unfolding Outcome
Outcome-resize n required r m wf enough most enabled =
    let (other, room) = resize_to_room n required r m wf enough most in
    (room, ((λ e. absurd (other e)), λ less. absurd (ground (arith, available_lem r wf, enabled))))

Outcome-same :
    (required : ℕ) (r : Request)
    → WellFormed r
    → r.payload_offset + required ≤ r.payload_size
    → Outcome r required (ok, r)
unfolding Outcome
Outcome-same required r wf enough = (
  (λ e. same_Roomy required r wf enough),
  ((λ e. absurd (ground (arith, e))), λ less. absurd (ground (arith, available_lem r wf, wf.most))),
)

Outcome-refused :
    (required : ℕ) (r : Request)
    → WellFormed r
    → limit r < r.payload_offset + required
    → Outcome r required (http_request_no_more_space, r)
unfolding Outcome
Outcome-refused required r wf full = (
  (λ e. absurd (ground (arith, e))),
  ((λ e. ground (arith, available_lem r wf, wf.inside, wf.most)), λ less. refl),
)

-- The branches of the function.
module _ (grow : ℕ → ℕ → ℕ) (required : ℕ) (r : Request) (m : Memory) where
  finalize_full :
      leb required (allowed r) ≡ false
      → (resize_if_necessary grow required r true m).0 ≡ (http_request_no_more_space, r)
  unfolding resize_if_necessary
  finalize_full full = ground (arith, full)

  finalize_fixed :
      leb required (allowed r) ≡ true
      → r.resize_enabled ≡ false
      → (resize_if_necessary grow required r true m).0 ≡ (ok, r)
  unfolding resize_if_necessary
  finalize_fixed fits fixed = ground (arith, fits, fixed)

  finalize_resize :
      leb required (allowed r) ≡ true
      → r.resize_enabled ≡ true
      → (resize_if_necessary grow required r true m).0
        ≡ (resize_to (add_size r.payload_offset required) r m).0
  unfolding resize_if_necessary
  finalize_resize fits enabled = ground (arith, fits, enabled)

  pub grow_none :
      ltb (sub_size r.payload_size r.payload_offset) required ≡ false
      → (resize_if_necessary grow required r false m).0 ≡ (ok, r)
  unfolding resize_if_necessary
  grow_none enough = ground (arith, enough)

  grow_far :
      ltb (sub_size r.payload_size r.payload_offset) required ≡ true
      → (leb (grow required r.payload_size) r.max_http_payload_size && r.resize_enabled) ≡ true
      → (resize_if_necessary grow required r false m).0
        ≡ (resize_to (grow required r.payload_size) r m).0
  unfolding resize_if_necessary
  grow_far more far = ground (arith, more, far)

  grow_most :
      ltb (sub_size r.payload_size r.payload_offset) required ≡ true
      → (leb (grow required r.payload_size) r.max_http_payload_size && r.resize_enabled) ≡ false
      → (leb required (allowed r) && r.resize_enabled) ≡ true
      → (resize_if_necessary grow required r false m).0 ≡ (resize_to r.max_http_payload_size r m).0
  unfolding resize_if_necessary
  grow_most more near fits = ground (arith, more, near, fits)

  grow_full :
      ltb (sub_size r.payload_size r.payload_offset) required ≡ true
      → (leb (grow required r.payload_size) r.max_http_payload_size && r.resize_enabled) ≡ false
      → (leb required (allowed r) && r.resize_enabled) ≡ false
      → (resize_if_necessary grow required r false m).0 ≡ (http_request_no_more_space, r)
  unfolding resize_if_necessary
  grow_full more near full = ground (arith, more, near, full)

module _ (grow : ℕ → ℕ → ℕ) (required : ℕ) (r : Request) (m : Memory) (wf : WellFormed r) where
  Outcome-finalize : Outcome r required (resize_if_necessary grow required r true m).0
  Outcome-finalize = elim (Bool-cases (leb required (allowed r))) [
    | inr full ↦
        rw (finalize_full grow required r m full)
          (Outcome-refused required r wf (ground (arith, allowed_lem r wf, wf.inside, wf.most)))
    | inl fits ↦ elim (Bool-cases r.resize_enabled) [
      | inr fixed ↦
          rw (finalize_fixed grow required r m fits fixed)
            (Outcome-same required r wf (ground (arith, allowed_lem r wf, wf.inside)))
      | inl enabled ↦ rw (finalize_resize grow required r m fits enabled) (
          Outcome-resize _ required r m wf
            (ground (arith, allowed_lem r wf, wf.inside, wf.most, wf.small))
            (ground (arith, allowed_lem r wf, wf.inside, wf.most, wf.small)) enabled)
    ]
  ]

  Outcome-grow : Grows grow → Outcome r required (resize_if_necessary grow required r false m).0
  Outcome-grow grows = elim (Bool-cases (ltb (sub_size r.payload_size r.payload_offset) required)) [
    | inr enough ↦
        rw (grow_none grow required r m enough)
          (Outcome-same required r wf (ground (arith, wf.inside, wf.most, wf.small)))
    | inl more ↦
        elim (Bool-cases
          (leb (grow required r.payload_size) r.max_http_payload_size && r.resize_enabled)) [
            | inl far ↦ rw (grow_far grow required r m more far) (
                Outcome-resize _ required r m wf
                  (omega (arith, grows required r.payload_size, wf.inside)) (ground (arith, far))
                  (ground (arith, far)))
            | inr near ↦ elim (Bool-cases (leb required (allowed r) && r.resize_enabled)) [
              | inl fits ↦ rw (grow_most grow required r m more near fits) (
                  Outcome-resize _ required r m wf
                    (ground (arith, fits, allowed_lem r wf, wf.inside, wf.most)) (omega arith)
                    (ground (arith, fits)))
              | inr full ↦ rw (grow_full grow required r m more near full) (
                  Outcome-refused required r wf
                    (ground (arith, full, more, allowed_lem r wf, wf.inside, wf.most, wf.small)))
            ]
          ]
  ]

-- `_resize_payload_buffer_if_necessary` on a well-formed request, with a growth that leaves room:
-- MCL_OK means that there is room behind the offset for what is required, and that the request is
-- well-formed and holds what it held before the offset. MCL_HTTP_REQUEST_NO_MORE_SPACE is returned
-- just if `_get_available_space` reports less than what is required.
pub resize_if_necessary-Roomy :
    (grow : ℕ → ℕ → ℕ) (required : ℕ) (r : Request) (finalize : Bool) (m : Memory)
    → Grows grow
    → WellFormed r
    → let ((code, r'), _) = resize_if_necessary grow required r finalize m in
      (code ≡ ok → Roomy r required r')
      × ((code ≡ http_request_no_more_space) ↔ (get_available_space r 0 < required))
unfolding Outcome
resize_if_necessary-Roomy grow required r true m grows wf = Outcome-finalize grow required r m wf
resize_if_necessary-Roomy grow required r false m grows wf = Outcome-grow grow required r m wf grows
