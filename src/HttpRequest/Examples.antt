-- ===== src/HttpRequest/Examples.antt =====
-- A small payload, and the theorems at it.
use iot_eclipse.Base.{
  ℕ, ◌+◌, ◌<◌, ◌≡◌, ◌↔◌, ◌*◌, ◌⊎◌, inl, refl, Bool, true, false, none, some, arith, replicate,
}
use iot_eclipse.Base.Bytes.{Bytes, codes}
use iot_eclipse.Code.{ErrorCode, ok, http_request_finalize_failed, http_request_no_more_space}
use iot_eclipse.Memory.{Memory}
use iot_eclipse.HttpRequest.{
  Request, resize_if_necessary, get_available_space, add_boundary, start_tuple,
  end_tuple_sub_section,
}
use iot_eclipse.HttpRequest.Room.{WellFormed, Roomy, Grows}
use iot_eclipse.HttpRequest.Space.{resize_if_necessary-Roomy}
use iot_eclipse.HttpRequest.Boundary.{
  Lined, add_boundary_line, start_tuple_line, end_tuple_sub_section_overruns,
}
use iot_eclipse.Memory.{memory_reallocate, fresh_from}
use iot_eclipse.StringType.{string_initialize_new, string_destroy}
use iot_eclipse.StringUtil.{snprintf}
use iot_eclipse.HttpRequest.{resize_to, resized, put_line, put, write_at}
use iot_eclipse.HttpRequest.Part.{
  generate_random_boundary, fill_boundary, keep_boundary, draw_loop, and_then, add_content_info,
  content_info, add_blank_line, add_meta, add_payload,
}
use iot_eclipse.HttpRequest.Section.{tuple_in_room, with_room, settle, after_boundary, tuple_body}
use iot_eclipse.HttpRequest.Part.Random.{drawn}
use iot_eclipse.HttpRequest.Section.{add_single, add_tuple, finalize, start_tuple_sub_section}
use iot_eclipse.HttpRequest.Section.Appended.{Appends}
use iot_eclipse.HttpRequest.Section.Single.{single_text, add_single_text}
use iot_eclipse.HttpRequest.Section.Tuple.{tuple_text, add_tuple_text}
use iot_eclipse.HttpRequest.Section.Finalize.{end_text, finalize_text, finalize-add_tuple_fails}
use iot_eclipse.HttpRequest.Section.Sub.{expected, start_tuple_sub_section_text}

abbrev plenty : Memory
plenty = record { answers = λ _. true; junk = λ _. 0; asked = 0; live = 3 }

abbrev boundary : Bytes
boundary = codes "0123456789abcdefABCDEF"

-- A growth that leaves room.
abbrev grow : ℕ → ℕ → ℕ
grow required size = required + size + (required + size)

grow-Grows : Grows grow
grow-Grows required size = omega arith

abbrev request : ℕ → Bool → Request
request size resize_enabled = record {
  payload = some (replicate size 0);
  payload_size = size;
  payload_offset = 2;
  boundary = boundary;
  max_http_payload_size = 400;
  resize_enabled = resize_enabled;
}

small-WellFormed : WellFormed (request 10 true)
small-WellFormed = record {
  inside = omega arith;
  size = refl;
  most = omega arith;
  small = omega arith;
}

tight-WellFormed : WellFormed (request 29 false)
tight-WellFormed = record {
  inside = omega arith;
  size = refl;
  most = omega arith;
  small = omega arith;
}

resize_if_necessary-Roomy_example :
    let ((code, r'), _) = resize_if_necessary grow 30 (request 10 true) false plenty in
    (code ≡ ok → Roomy (request 10 true) 30 r')
    × ((code ≡ http_request_no_more_space) ↔ (get_available_space (request 10 true) 0 < 30))
resize_if_necessary-Roomy_example =
    resize_if_necessary-Roomy grow 30 (request 10 true) false plenty grow-Grows small-WellFormed

add_boundary_line_test :
    (r' : Request) × (add_boundary (request 29 false) boundary false ≡ (ok, some r'))
    × Lined false boundary (request 29 false) r'
add_boundary_line_test =
    add_boundary_line false boundary (request 29 false) refl tight-WellFormed (omega arith)

start_tuple_line_example :
    (r' : Request) × ((start_tuple grow (request 10 true) plenty).0.1 ≡ some r')
    × ((start_tuple grow (request 10 true) plenty).0.0 ≡ ok
        → Lined false boundary (request 10 true) r')
start_tuple_line_example =
    start_tuple_line grow (request 10 true) plenty grow-Grows small-WellFormed refl

end_tuple_sub_section_overruns_example :
    (end_tuple_sub_section grow (request 29 false) boundary plenty).0 ≡ (ok, none)
end_tuple_sub_section_overruns_example =
    end_tuple_sub_section_overruns grow (request 29 false) boundary plenty tight-WellFormed refl
      refl (inl refl)

add_single_text_example :
    Appends
      (single_text boundary (codes "a/b") (codes "i") (codes "{}"))
      (request 10 true)
      (add_single grow (request 10 true) (codes "a/b") (codes "i") (codes "{}") plenty).0
add_single_text_example =
    add_single_text grow (request 10 true) (codes "a/b") (codes "i") (codes "{}") plenty grow-Grows
      small-WellFormed refl (omega arith) (omega arith) (omega arith)

-- Random numbers that count up.
abbrev draw : ℕ → ErrorCode × ℕ
draw i = (ok, 7 * i)

abbrev copy : ℕ → Bytes
copy n = replicate n b'x'

add_tuple_text_example :
    Appends
      (tuple_text boundary (drawn draw 22 0) (codes "{}") (codes "a/b") (copy 3) (codes "c/d"))
      (request 10 true)
      (add_tuple grow draw
        (request 10 true)
        (codes "{}")
        (codes "a/b")
        copy
        3
        (codes "c/d")
        plenty).0
add_tuple_text_example =
    add_tuple_text grow draw (request 10 true) (codes "{}") (codes "a/b") copy 3 (codes "c/d")
      plenty grow-Grows small-WellFormed refl (omega arith) (omega arith) (omega arith)
      (omega arith)

finalize_text_example :
    Appends (end_text boundary) (request 10 true) (finalize grow (request 10 true) plenty).0
    × (((finalize grow (request 10 true) plenty).0.0 ≡ ok)
        ⊎ ((finalize grow (request 10 true) plenty).0.0 ≡ http_request_finalize_failed))
    × (get_available_space (request 10 true) 0 < 26
        → (finalize grow (request 10 true) plenty).0.0 ≡ http_request_finalize_failed)
finalize_text_example = finalize_text grow (request 10 true) plenty grow-Grows small-WellFormed refl

start_tuple_sub_section_text_example :
    Appends
      (expected draw (codes "a/b") none)
      (request 10 true)
      (start_tuple_sub_section grow draw (request 10 true) (codes "a/b") none plenty).0.0
start_tuple_sub_section_text_example =
    start_tuple_sub_section_text grow draw (request 10 true) (codes "a/b") none plenty grow-Grows
      small-WellFormed tt (omega arith)

-- A payload with space for a tuple of 6 bytes.
abbrev narrow : Request
narrow = record {
  payload = some (replicate 2 0);
  payload_size = 2;
  payload_offset = 2;
  boundary = boundary;
  max_http_payload_size = 240;
  resize_enabled = true;
}

narrow-WellFormed : WellFormed narrow
narrow-WellFormed = record {
  inside = omega arith;
  size = refl;
  most = omega arith;
  small = omega arith;
}

abbrev full : Request
full = elim (add_tuple grow draw narrow (codes "{}") (codes "a") copy 2 (codes "b") plenty).0.1 [
  | none ↦ narrow
  | some r ↦ r
]

full_test :
    (add_tuple grow draw narrow (codes "{}") (codes "a") copy 2 (codes "b") plenty).0
    ≡ (ok, some full)
unfolding add_tuple tuple_in_room with_room settle resize_if_necessary resize_to resized
    memory_reallocate fresh_from after_boundary generate_random_boundary fill_boundary keep_boundary
    draw_loop string_initialize_new string_destroy tuple_body add_boundary put_line put snprintf
    write_at and_then add_content_info content_info add_blank_line add_meta add_payload
full_test = refl

finalize-add_tuple_fails_example : (finalize grow full plenty).0.0 ≡ http_request_finalize_failed
unfolding get_available_space
finalize-add_tuple_fails_example =
    finalize-add_tuple_fails grow draw narrow (codes "{}") (codes "a") copy 2 (codes "b") plenty
      plenty full grow-Grows narrow-WellFormed refl refl refl (omega arith) (omega arith)
      (omega arith) (omega arith) (omega arith) full_test
