-- ===== src/HttpRequest/Section/Appended.antt =====
-- What a whole section leaves behind: its text behind the content of the payload, or a failure.
use iot_eclipse.Base.{
  ℕ, ◌+◌, ◌≡◌, refl, false, Option, some, ◌++◌, length, arith, ◌∙◌, ap, inl, inr,
}
use iot_eclipse.Base.Bytes.{Bytes}
use iot_eclipse.Code.{ErrorCode, ok, ok-cases, is_ok}
use iot_eclipse.Memory.{Memory, M, ◌>>=◌}
use iot_eclipse.HttpRequest.{Request, resize_if_necessary}
use iot_eclipse.HttpRequest.Room.{WellFormed, Roomy, Grows, Same, content}
use iot_eclipse.HttpRequest.Space.{resize_if_necessary-Roomy}
use iot_eclipse.HttpRequest.Written.{Written}
use iot_eclipse.HttpRequest.Section.{with_room, settle}

-- The request once a section stands behind what the payload held.
pub record Appended (piece : Bytes) (r r' : Request) : Type 0 where
  pub text : content r' ≡ content r ++ piece
  pub offset : r'.payload_offset ≡ r.payload_offset + length piece
  pub same : Same r r'
  pub well_formed : WellFormed r'

pub Appended-Written :
    (piece : Bytes) (n : ℕ) (r r1 r' : Request)
    → Roomy r n r1
    → Written piece r1 r'
    → Appended piece r r'
Appended-Written piece n r r1 r' space w = record {
  text = w.text ∙ ap (λ c. c ++ piece) space.kept;
  offset = w.offset ∙ ap (λ k. k + length piece) space.offset;
  same = record {
    boundary = w.same.boundary ∙ space.same.boundary;
    most = w.same.most ∙ space.same.most;
    enabled = w.same.enabled ∙ space.same.enabled;
  };
  well_formed = w.well_formed;
}

-- The outcome of an operation that appends `piece`: nothing has been written outside the payload, and
-- `piece` has been appended if the code is MCL_OK.
abbrev pub Appends : Bytes → Request → ErrorCode × Option Request → Type 0
Appends piece r (code, result) =
    (r' : Request) × (result ≡ some r') × (code ≡ ok → Appended piece r r')

pub settle-Appends :
    (piece : Bytes) (n : ℕ) (r r1 r' : Request) (result : ErrorCode × Option Request)
    → result ≡ (ok, some r')
    → Roomy r n r1
    → Written piece r1 r'
    → Appends piece r (settle r1 result)
unfolding settle
settle-Appends piece n r r1 r' result e space w =
    rw e (r', refl, λ _. Appended-Written piece n r r1 r' space w)

pub failed-Appends :
    (piece : Bytes) (code : ErrorCode) (r r1 : Request)
    → is_ok code ≡ false
    → Appends piece r (code, some r1)
failed-Appends piece code r r1 bad = (r1, refl, λ e. absurd (ground (arith, bad, e)))

pub settle-failed :
    (piece : Bytes) (code : ErrorCode) (r r1 r2 : Request)
    → is_ok code ≡ false
    → Appends piece r (settle r1 (code, some r2))
unfolding settle
settle-failed piece code r r1 r2 bad =
    rw bad (failed-Appends piece code r (record r2 { payload_offset = r1.payload_offset }) bad)

-- An operation that asks for room first.
pub with_room-Appends :
    (grow : ℕ → ℕ → ℕ) (n : ℕ) (piece : Bytes) (r : Request) (m : Memory)
    (body : Request → M (ErrorCode × Option Request))
    → Grows grow
    → WellFormed r
    → ((r1 : Request) (m' : Memory) → Roomy r n r1 → Appends piece r (body r1 m').0)
    → Appends piece r ((resize_if_necessary grow n r false >>= with_room body) m).0
unfolding with_room
with_room-Appends grow n piece r m body grows wf rest =
    let ((code, r1), m') = resize_if_necessary grow n r false m in
    let (roomy, _) = resize_if_necessary-Roomy grow n r false m grows wf in
    elim (ok-cases code) [
      | inl good ↦ rw good (rest r1 m' (roomy good))
      | inr bad ↦ rw bad (failed-Appends piece code r r1 bad)
    ]
