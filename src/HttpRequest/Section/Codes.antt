-- ===== src/HttpRequest/Section/Codes.antt =====
-- The codes that `http_request_add_tuple` can return.
use iot_eclipse.Base.{
  ℕ, zero, suc, ◌+◌, ◌≡◌, refl, Bool, true, false, Option, none, some, [], ◌∷◌, ◌++◌, length, ◌%◌,
  ◌^◌, set, arith, Bool-cases, inl, inr,
}
use iot_eclipse.Base.Bytes.{Bytes, at}
use iot_eclipse.Code.{ErrorCode, ok, is_ok}
use iot_eclipse.Memory.{Memory}
use iot_eclipse.StringUtil.{snprintf}
use iot_eclipse.StringType.{StringT, string_initialize_new}
use iot_eclipse.HttpRequest.{
  Request, put, put_line, add_boundary, resize_if_necessary, resize_to, boundary_text,
  boundary_length,
}
use iot_eclipse.HttpRequest.Part.{
  ◌>=>◌, and_then, add_content_info, add_blank_line, add_meta, add_payload,
  generate_random_boundary, fill_boundary, keep_boundary, draw_loop, buffer_of, content_info,
  content_type, multipart_related, new_line, boundary_characters,
}
use iot_eclipse.HttpRequest.Section.{
  add_tuple, tuple_in_room, with_room, write_tuple, tuple_body, after_boundary, settle,
  overhead_for_tuple,
}

abbrev pub is_partial : ErrorCode → Bool
is_partial ErrorCode.partially_written = true
is_partial _ = false

-- A step that does not return MCL_PARTIALLY_WRITTEN.
record Whole (step : Request → ErrorCode × Option Request) : Type 0 where
  run : (r : Request) → is_partial (step r).0 ≡ false

put-Whole : (bytes : Bytes) (n : ℕ) → Whole (put bytes n ok)
unfolding put
put-Whole bytes n = record { run = λ r. refl }

put_line-Whole : (text : Bytes) (n : ℕ) → Whole (put_line text n)
unfolding put_line put snprintf
put_line-Whole text n = record { run = λ r. ground arith }

and_then-Whole :
    (result : ErrorCode × Option Request) (next : Request → ErrorCode × Option Request)
    → is_partial result.0 ≡ false
    → Whole next
    → is_partial (and_then result next).0 ≡ false
unfolding and_then
and_then-Whole (code, none) next first second = first
and_then-Whole (code, some r) next first second = elim (Bool-cases (is_ok code)) [
  | inl good ↦ rw good (second.run r)
  | inr bad ↦ rw bad first
]

infixl 5 ◌>>>◌
◌>>>◌ :
    {step next : Request → ErrorCode × Option Request}
    → Whole step
    → Whole next
    → Whole (step >=> next)
◌>>>◌ {step = step} {next = next} first second = record {
  run = λ r. and_then-Whole (step r) next (first.run r) second;
}

add_boundary-Whole : (b : Bytes) (close : Bool) → Whole (λ r. add_boundary r b close)
unfolding add_boundary
add_boundary-Whole b close = record {
  run = (put_line-Whole (boundary_text close b) (boundary_length close)).run;
}

info_Whole :
    (name value : Bytes) (n : ℕ) (b : Option Bytes) → Whole (add_content_info name value n b)
unfolding add_content_info
info_Whole name value n b = put_line-Whole (content_info name value b) n

blank_Whole : Whole add_blank_line
unfolding add_blank_line
blank_Whole = put-Whole (new_line ++ (0 ∷ [])) 2

meta_Whole : (meta : Bytes) → Whole (add_meta meta)
unfolding add_meta
meta_Whole meta = put-Whole meta (length meta) >>> blank_Whole

payload_Whole : (copy : ℕ → Bytes) (n : ℕ) → Whole (add_payload copy n)
unfolding add_payload
payload_Whole copy n = put-Whole (copy n) (length (copy n))

write_tuple-Whole :
    (b meta meta_type : Bytes) (copy : ℕ → Bytes) (n : ℕ) (payload_type : Bytes)
    → Whole (write_tuple b meta meta_type copy n payload_type)
write_tuple-Whole b meta meta_type copy n payload_type =
    info_Whole content_type multipart_related 65 (some b)
    >>> blank_Whole
    >>> add_boundary-Whole b false
    >>> info_Whole content_type meta_type (14 + length meta_type + 2) none
    >>> blank_Whole
    >>> meta_Whole meta
    >>> add_boundary-Whole b false
    >>> info_Whole content_type payload_type (14 + length payload_type + 2) none
    >>> blank_Whole
    >>> payload_Whole copy n
    >>> blank_Whole
    >>> add_boundary-Whole b true

draw_loop_code :
    (draw : ℕ → ErrorCode × ℕ) (k i : ℕ) (buffer : Bytes)
    → ((j : ℕ) → is_partial (draw j).0 ≡ false)
    → is_partial (draw_loop draw k i buffer).0 ≡ false
unfolding draw_loop
draw_loop_code draw zero i buffer plain = refl
draw_loop_code draw (suc k) i buffer plain = ground (
  arith,
  plain i,
  draw_loop_code draw k (i + 1) (set buffer i (at boundary_characters ((draw i).1 % 62))) plain,
)

keep_boundary_code :
    (s : StringT) (drawn_all : ErrorCode × Bytes) (m : Memory)
    → is_partial drawn_all.0 ≡ false
    → is_partial (keep_boundary s drawn_all m).0.0 ≡ false
unfolding keep_boundary
keep_boundary_code s (code, buffer) m plain = ground (arith, plain)

fill_boundary_code :
    (draw : ℕ → ErrorCode × ℕ) (s : ErrorCode × Option StringT) (m : Memory)
    → ((j : ℕ) → is_partial (draw j).0 ≡ false)
    → is_partial s.0 ≡ false
    → is_partial (fill_boundary draw s m).0.0 ≡ false
unfolding fill_boundary
fill_boundary_code draw (code, none) m plain first = first
fill_boundary_code draw (code, some s) m plain first =
    keep_boundary_code s (draw_loop draw 22 0 (buffer_of s)) m
      (draw_loop_code draw 22 0 (buffer_of s) plain)

generate_code :
    (draw : ℕ → ErrorCode × ℕ) (m : Memory)
    → ((j : ℕ) → is_partial (draw j).0 ≡ false)
    → is_partial (generate_random_boundary draw m).0.0 ≡ false
unfolding generate_random_boundary
generate_code draw m plain =
    let (s, m') = string_initialize_new none 22 m in
    fill_boundary_code draw s m' plain (unfold string_initialize_new in ground arith)

settle_code :
    (r : Request) (result : ErrorCode × Option Request)
    → is_partial result.0 ≡ false
    → is_partial (settle r result).0 ≡ false
unfolding settle
settle_code r (code, none) plain = plain
settle_code r (code, some r') plain = ground (arith, plain)

tuple_body_code :
    (write : Bytes → Request → ErrorCode × Option Request) (r : Request)
    (made : ErrorCode × Option StringT) (m : Memory)
    → ((b : Bytes) → Whole (write b))
    → is_partial made.0 ≡ false
    → is_partial (tuple_body write r made m).0.0 ≡ false
unfolding tuple_body
tuple_body_code write r (code, none) m whole plain = plain
tuple_body_code write r (code, some s) m whole plain = (whole (buffer_of s)).run r

after_boundary_code :
    (draw : ℕ → ErrorCode × ℕ) (write : Bytes → Request → ErrorCode × Option Request)
    (opening : ErrorCode × Option Request) (m : Memory)
    → ((j : ℕ) → is_partial (draw j).0 ≡ false)
    → ((b : Bytes) → Whole (write b))
    → is_partial opening.0 ≡ false
    → is_partial (after_boundary draw write opening m).0.0 ≡ false
unfolding after_boundary
after_boundary_code draw write (code, none) m plain whole first = first
after_boundary_code draw write (code, some r) m plain whole first = elim (Bool-cases (is_ok code)) [
  | inl good ↦
      let (made, m') = generate_random_boundary draw m in
      rw good (tuple_body_code write r made m' whole (generate_code draw m plain))
  | inr bad ↦ rw bad first
]

resize_code :
    (grow : ℕ → ℕ → ℕ) (n : ℕ) (r : Request) (m : Memory)
    → is_partial (resize_if_necessary grow n r false m).0.0 ≡ false
unfolding resize_if_necessary resize_to
resize_code grow n r m = ground arith

-- `http_request_add_tuple` does not return MCL_PARTIALLY_WRITTEN, unless the random number generator
-- does.
pub add_tuple_code :
    (grow : ℕ → ℕ → ℕ) (draw : ℕ → ErrorCode × ℕ) (r : Request) (meta meta_type : Bytes)
    (copy : ℕ → Bytes) (n : ℕ) (payload_type : Bytes) (m : Memory)
    → ((j : ℕ) → is_partial (draw j).0 ≡ false)
    → is_partial (add_tuple grow draw r meta meta_type copy n payload_type m).0.0 ≡ false
unfolding add_tuple with_room tuple_in_room
add_tuple_code grow draw r meta meta_type copy n payload_type m plain =
    let required =
      (overhead_for_tuple + length meta_type + length payload_type + n + length meta) % 2 ^ 64 in
    let ((code, r1), m') = resize_if_necessary grow required r false m in
    let write : Bytes → Request → ErrorCode × Option Request =
      λ b. write_tuple b meta meta_type copy n payload_type in
    let opening = add_boundary r1 r1.boundary false in
    elim (Bool-cases (is_ok code)) [
      | inl good ↦ rw good (
          settle_code r1 (after_boundary draw write opening m').0 (
            after_boundary_code draw write opening m' plain
              (λ b. write_tuple-Whole b meta meta_type copy n payload_type)
              ((add_boundary-Whole r1.boundary false).run r1)))
      | inr bad ↦ rw bad (resize_code grow required r m)
    ]
