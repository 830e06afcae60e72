-- ===== src/Exchange/Content/Streaming/Cursors.antt =====
-- The indexes of a datum that is being streamed stay inside its meta data and its payload.
use iot_eclipse.Base.{ℕ, ◌≡◌, Bool, false, Option, none, some, arith, take, drop, ◌&&◌, ◌==◌}
use iot_eclipse.Base.Bytes.{Bytes}
use iot_eclipse.Code.{ErrorCode, ok, out_of_memory, http_request_no_more_space, is_ok}
use iot_eclipse.Memory.{memory_allocate}
use iot_eclipse.StringType.{add_size}
use iot_eclipse.HttpRequest.{Request, start_tuple, end_tuple_sub_section}
use iot_eclipse.Exchange.Content.{
  update, World, Sources, StoreData, StreamInfo, get_content_info, tuple_open, section_open,
}
use iot_eclipse.Exchange.Content.Streaming.{
  Writing, Stage, early, carry, on_request, move_meta, move_payload, mark_open, set_meta_state,
  open_section, add_raw, at_most, available, left_meta, left_payload, copy_payload, open_tuple,
  open_meta, write_meta, open_payload, write_payload, after_meta, end_tuple, sub_boundary_of,
  new_info, fresh, writing, stream_datum, keep_stream, with_info, add_current_data_by_streaming,
}
use iot_eclipse.Exchange.Content.Streaming.Inside.{
  Held, HeldEnd, HeldStage, Inside, add_raw-Same, any_state, carry-Held, copy_payload-Same,
  held_end, if_either, if_ok-Held, meta_moved, moved, next-Held, on_request-Held, open_section-Held,
  opened, payload_moved, Same-Held, state_moved,
}

module _ (sources : Sources) (d : ℕ) where
  open_tuple-Held : (t : Writing) → Held t → HeldStage (open_tuple sources t)
  unfolding open_tuple
  open_tuple-Held t held =
      let result = on_request t.request (start_tuple sources.grow) t in
      let held' = on_request-Held t.request (start_tuple sources.grow) t held in
      any_state _ _ _ _
        (if_ok-Held result (set_meta_state tuple_open) held'
          (state_moved tuple_open result.1 held'))
        (carry-Held ok t held) (carry-Held ok t held)

  open_meta-Held : (code : ErrorCode) (t : Writing) → Held t → HeldStage (open_meta sources code t)
  unfolding open_meta
  open_meta-Held code t held =
      let (meta_type, _) = get_content_info t.datum.kind in
      let result = open_section sources t.request meta_type t in
      let held' = open_section-Held sources t.request meta_type t held in
      any_state _ _ _ _ (carry-Held code t held)
        (if_ok-Held result (set_meta_state section_open) held'
          (state_moved section_open result.1 held'))
        (carry-Held code t held)

  write_meta-Held :
      (code : ErrorCode) (t : Writing) → Held t → HeldStage (write_meta sources code t)
  unfolding write_meta
  write_meta-Held code t held =
      let room = available t.request in
      let index = t.info.meta_stream_index in
      let n = at_most (left_meta t) room in
      let copy : ℕ → Bytes = λ k. take k (drop index t.datum.meta) in
      let result = (add_raw sources t.request copy n t).0 in
      let same = add_raw-Same sources t.request copy n t in
      let inside = moved _ _ room held.meta_size held.meta in
      if_either HeldStage _
        (if_either HeldStage _
          (if_ok-Held result (move_meta (add_size index n)) (Same-Held t result.1 same held)
            (meta_moved t result.1 _ same held inside))
          (carry-Held http_request_no_more_space t held))
        (carry-Held code t held)

  open_payload-Held :
      (code : ErrorCode) (t : Writing) → Held t → HeldStage (open_payload sources code t)
  unfolding open_payload
  open_payload-Held code t held =
      let (_, payload_type) = get_content_info t.datum.kind in
      let held' = open_section-Held sources t.request payload_type t held in
      if_either HeldStage _ (carry-Held code t held) (
        if_ok-Held (open_section sources t.request payload_type t) mark_open held'
          (opened (open_section sources t.request payload_type t).1 held'))

  write_payload-Held :
      (code : ErrorCode) (t : Writing) → Held t → HeldStage (write_payload sources d code t)
  unfolding write_payload
  write_payload-Held code t held =
      let room = available t.request in
      let n = at_most (left_payload t) room in
      let result = copy_payload sources d t.datum.kind n room t in
      let same = copy_payload-Same sources d t.datum.kind n room t held.known in
      let inside = moved _ _ room held.payload_size held.payload in
      if_either HeldStage _
        (if_either HeldStage _
          (if_ok-Held result (move_payload n) (Same-Held t result.1 same held)
            (payload_moved t result.1 n same held inside))
          (carry-Held http_request_no_more_space t held))
        (carry-Held code t held)

  after_meta-Held :
      (code : ErrorCode) (t : Writing) → Held t → HeldStage (after_meta sources d code t)
  unfolding after_meta
  after_meta-Held code t held =
      if_either HeldStage _
        (next-Held (open_payload sources code t) (write_payload sources d) write_payload-Held
          (open_payload-Held code t held))
        (carry-Held code t held)

  end_tuple-Held : (stage : Stage) → HeldStage stage → HeldEnd (end_tuple sources stage)
  unfolding end_tuple HeldStage
  end_tuple-Held (early code t) held = held_end _ t held
  end_tuple-Held (carry code t) held =
      let operation = λ (r : Request).
        end_tuple_sub_section sources.grow r (sub_boundary_of t.info.tuple_subboundary) in
      let held' = on_request-Held t.request operation t held in
      let (code', t') = on_request t.request operation t in
      if_either HeldEnd ((left_meta t == 0) && (left_payload t == 0))
        (held_end (code', is_ok code') t' held') (held_end (code, false) t held)

  stream_datum-Held : (t : Writing) → Held t → HeldEnd (stream_datum sources d t)
  unfolding stream_datum
  stream_datum-Held t held = end_tuple-Held _ (
      next-Held _ (after_meta sources d) after_meta-Held (
        next-Held _ (write_meta sources) write_meta-Held
          (next-Held _ (open_meta sources) open_meta-Held (open_tuple-Held t held))))

-- What is kept of a datum between the calls.
abbrev Tracked : StoreData → Option StreamInfo → Type 0
Tracked datum none = Inside datum new_info
Tracked datum (some info) = Inside datum info

abbrev pub Sound : ℕ → World → Type 0
Sound d w = Tracked (w.data_of d) (w.data_of d).stream_info

kept :
    (datum : StoreData) (info : StreamInfo)
    → Inside datum info
    → Inside (record datum { stream_info = some info }) info
kept datum info held = record {
  known = held.known;
  meta_size = held.meta_size;
  payload_size = held.payload_size;
  meta = held.meta;
  payload = held.payload;
}

update-here :
    (d : ℕ) (datum : StoreData) (data_of : ℕ → StoreData) → update d datum data_of d ≡ datum
update-here d datum data_of = ground arith

keep-Sound :
    (d : ℕ) (w : World) (result : (ErrorCode × Bool) × Writing)
    → HeldEnd result
    → Sound d (keep_stream d w result).1
unfolding keep_stream HeldEnd
keep-Sound d w ((code, whole), t) held =
    rw (update-here d (record t.datum { stream_info = some t.info }) w.data_of)
      (kept t.datum t.info held)

with_info-Sound :
    (sources : Sources) (d : ℕ) (w : World) (info : Option StreamInfo)
    → Tracked (w.data_of d) info
    → Tracked (w.data_of d) (w.data_of d).stream_info
    → Sound d (with_info sources d w info).1
unfolding with_info
with_info-Sound sources d w (some info) held _ =
    keep-Sound d w _ (stream_datum-Held sources d (writing (w.data_of d) info w) held)
with_info-Sound sources d w none held before =
    let (granted, m) = memory_allocate 32 w.memory in
    let t = fresh (w.data_of d) (record w { memory = m }) in
    let after = keep-Sound d w (stream_datum sources d t) (stream_datum-Held sources d t held) in
    if_either (λ (result : ErrorCode × World). Sound d result.1) granted
      {x = keep_stream d w (stream_datum sources d t)}
      {y = (out_of_memory, record w { memory = m })} after before

-- The indexes of a datum that is streamed stay inside: let the datum be no stream, its meta data and
-- its payload have sizes below 2 ^ 64, and the indexes that are kept from the calls before, or 0
-- before the first call, be not behind their ends. Then all of this holds again after a call of
-- `_exchange_add_current_data_to_request_by_streaming`, however it returns.
pub streaming-Sound :
    (sources : Sources) (d : ℕ) (w : World)
    → Sound d w
    → Sound d (add_current_data_by_streaming sources d w).1
unfolding add_current_data_by_streaming
streaming-Sound sources d w sound =
    with_info-Sound sources d w (w.data_of d).stream_info sound sound
