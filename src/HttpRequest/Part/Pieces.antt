-- ===== src/HttpRequest/Part/Pieces.antt =====
-- Each piece of a section is written whole behind the content, and so is a sequence of them.
use iot_eclipse.Base.{
  ℕ, ◌+◌, ◌^◌, ◌≤◌, ◌<◌, ◌≡◌, refl, Bool, Option, none, some, [], ◌∷◌, ◌++◌, length, length-append,
  arith, sym, ◌∙◌, ap,
}
use iot_eclipse.Base.Bytes.{Bytes, codes}
use iot_eclipse.Code.{ErrorCode, ok}
use iot_eclipse.HttpRequest.{Request, put, add_boundary, boundary_text, boundary_length}
use iot_eclipse.HttpRequest.Room.{WellFormed, content}
use iot_eclipse.HttpRequest.Written.{Written, put-Written, put_line-Written}
use iot_eclipse.HttpRequest.Boundary.{length-boundary_text}
use iot_eclipse.HttpRequest.Part.{
  and_then, ◌>=>◌, content_info, add_content_info, add_blank_line, add_meta, add_payload, new_line,
}

-- A step that writes `piece` wherever there is room for it and `slack` bytes more.
pub record Writes (slack : ℕ) (piece : Bytes) (step : Request → ErrorCode × Option Request)
    : Type 0 where
  pub run :
      (r : Request)
      → WellFormed r
      → r.payload_offset + (length piece + slack) ≤ r.payload_size
      → (r' : Request) × (step r ≡ (ok, some r')) × Written piece r r'

and_then_ok :
    (step next : Request → ErrorCode × Option Request) (r r' : Request)
    → step r ≡ (ok, some r')
    → (step >=> next) r ≡ next r'
unfolding and_then
and_then_ok step next r r' e = rw e refl

append_assoc : (xs ys zs : Bytes) → (xs ++ ys) ++ zs ≡ xs ++ (ys ++ zs)
append_assoc [] ys zs = refl
append_assoc (x ∷ xs) ys zs = ap (◌∷◌ x) (append_assoc xs ys zs)

pub Written-after :
    (s t : Bytes) (r r1 r2 : Request) → Written s r r1 → Written t r1 r2 → Written (s ++ t) r r2
Written-after s t r r1 r2 w v = record {
  text = v.text ∙ ap (λ c. c ++ t) w.text ∙ append_assoc (content r) s t;
  offset = omega (arith, w.offset, v.offset, length-append s t);
  size = v.size ∙ w.size;
  same = record {
    boundary = v.same.boundary ∙ w.same.boundary;
    most = v.same.most ∙ w.same.most;
    enabled = v.same.enabled ∙ w.same.enabled;
  };
  well_formed = v.well_formed;
}

-- One step after the other.
infixl 5 ◌>>>◌
pub ◌>>>◌ :
    {s t : Bytes} {k : ℕ} {step next : Request → ErrorCode × Option Request}
    → Writes k s step
    → Writes k t next
    → Writes k (s ++ t) (step >=> next)
◌>>>◌ {s = s} {t = t} {step = step} {next = next} first second = record {
  run = λ r wf room.
      let n = length-append s t in
      let (r1, e, w) = first.run r wf (omega (arith, n)) in
      let (r2, f, v) = second.run r1 w.well_formed (omega (arith, n, w.offset, w.size)) in
      (r2, and_then_ok step next r r1 e ∙ f, Written-after s t r r1 r2 w v);
}

append_nil : (xs : Bytes) → xs ++ [] ≡ xs
append_nil [] = refl
append_nil (x ∷ xs) = ap (◌∷◌ x) (append_nil xs)

put_whole :
    (text : Bytes) (n : ℕ) (r : Request)
    → n ≡ length text
    → 0 < r.payload_size
    → WellFormed r
    → r.payload_offset + length text ≤ r.payload_size
    → (r' : Request) × (put text n ok r ≡ (ok, some r')) × Written text r r'
put_whole text n r same pos wf room =
    let (r', e, written) =
      put-Written text [] n r same pos wf (omega (arith, length-append text [])) in
    (r', ap (λ t. put t n ok r) (sym (append_nil text)) ∙ e, written)

pub put-Writes : (text : Bytes) (n : ℕ) → length text ≡ n → 0 < n → Writes 0 text (put text n ok)
put-Writes text n same pos = record {
  run = λ r wf room. put_whole text n r (sym same) (omega arith) wf (omega arith);
}

pub add_boundary-Writes :
    (close : Bool) (b : Bytes)
    → length b ≡ 22
    → Writes 1 (boundary_text close b) (λ r. add_boundary r b close)
unfolding add_boundary
add_boundary-Writes close b size =
    let n = length-boundary_text close b size in
    let bounds : (26 ≤ boundary_length close) × (boundary_length close ≤ 28) = ground arith in
    record {
      run =
          put_line-Written (boundary_text close b) (boundary_length close) n
            (omega (arith, bounds.0)) (omega (arith, bounds.1));
    }

pub add_content_info-Writes :
    (name value : Bytes) (n : ℕ) (b : Option Bytes)
    → length (content_info name value b) ≡ n
    → 0 < n
    → n < 2 ^ 31
    → Writes 1 (content_info name value b) (add_content_info name value n b)
unfolding add_content_info
add_content_info-Writes name value n b same pos small = record {
  run = put_line-Written (content_info name value b) n same pos small;
}

pub add_blank_line-Writes : Writes 1 new_line add_blank_line
unfolding add_blank_line
add_blank_line-Writes = record {
  run = λ r wf room. put-Written new_line (0 ∷ []) 2 r refl (omega arith) wf room;
}

-- The callback may write nothing at all.
pub put_any_Writes : (text : Bytes) → Writes 1 text (put text (length text) ok)
put_any_Writes text = record {
  run = λ r wf room. put_whole text (length text) r refl (omega arith) wf (omega arith);
}

pub add_meta-Writes : (meta : Bytes) → Writes 1 (meta ++ new_line) (add_meta meta)
unfolding add_meta
add_meta-Writes meta = put_any_Writes meta >>> add_blank_line-Writes

pub add_payload-Writes : (copy : ℕ → Bytes) (n : ℕ) → Writes 1 (copy n) (add_payload copy n)
unfolding add_payload
add_payload-Writes copy n = put_any_Writes (copy n)

pub length-content_info :
    (name value : Bytes)
    → length (content_info name value none) ≡ length name + 2 + length value + 2
unfolding content_info
length-content_info name value =
    omega
      (arith, length-append name (codes ": " ++ (value ++ new_line)), length-append value new_line)

pub length-content_info_boundary :
    (name value b : Bytes)
    → length (content_info name value (some b)) ≡ length name + 2 + length value + 10 + length b + 2
unfolding content_info
length-content_info_boundary name value b = omega (
  arith,
  length-append name (codes ": " ++ (value ++ (codes ";boundary=" ++ (b ++ new_line)))),
  length-append value (codes ";boundary=" ++ (b ++ new_line)),
  length-append b new_line,
)

-- A line of the header of a section.
pub content_info-Writes :
    (name value : Bytes) (n : ℕ)
    → n ≡ length name + 2
    → n < 2 ^ 20
    → length value < 2 ^ 30
    → Writes 1
        (content_info name value none)
        (add_content_info name value (n + length value + 2) none)
content_info-Writes name value n same small value_small =
    let long = length-content_info name value in
    add_content_info-Writes name value (n + length value + 2) none (omega (arith, long))
      (omega arith) (omega arith)
