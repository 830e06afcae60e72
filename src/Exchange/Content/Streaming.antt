-- ===== src/Exchange/Content/Streaming.antt =====
-- `_exchange_add_current_data_to_request_by_streaming` of
-- MindConnect_Library_V3.1.3.0/src/http_processor.c: a datum is written as far as there is room, and the
-- next call goes on behind it.
pub mod Laws
pub mod Inside
pub mod Cursors
use iot_eclipse.Base.{
  ℕ, ◌+◌, ◌==◌, ◌&&◌, ◌||◌, ltb, Bool, true, false, Option, none, some, [], length, take, drop,
  if◌then◌else◌,
}
use iot_eclipse.Base.Bytes.{Bytes}
use iot_eclipse.Code.{ErrorCode, ok, fail, out_of_memory, http_request_no_more_space, is_ok}
use iot_eclipse.Memory.{Memory, M, memory_allocate}
use iot_eclipse.Store.{written, store_data_set_state}
use iot_eclipse.StringType.{StringT}
use iot_eclipse.StringType.{add_size}
use iot_eclipse.HttpRequest.{Request, sub_size, start_tuple, end_tuple_sub_section}
use iot_eclipse.HttpRequest.Part.{buffer_of}
use iot_eclipse.HttpRequest.Section.{
  start_tuple_sub_section, add_raw_data, get_available_space_for_raw_data,
}
use iot_eclipse.Exchange.Content.{
  MetaState, nothing_open, tuple_open, section_open, StreamInfo, StoreData, World, Sources,
  DataType, file, stream, get_content_info, is_stream, update,
}

-- The datum with its stream information, and the request.
pub record Writing : Type 0 where
  pub datum : StoreData
  pub info : StreamInfo
  pub request : Option Request
  pub memory : Memory
  pub reads : ℕ

-- A part of the function either returns early, or goes on with a value of `result`.
pub data Stage : Type 0 where
  early carry : ErrorCode → Writing → Stage

abbrev pub next_stage : Stage → (ErrorCode → Writing → Stage) → Stage
next_stage (early code t) next = early code t
next_stage (carry code t) next = next code t

-- An operation on the request, which may be gone.
abbrev pub on_request :
    Option Request → (Request → M (ErrorCode × Option Request)) → Writing → ErrorCode × Writing
on_request none operation t = (fail, t)
on_request (some r) operation t =
    let ((code, r'), m) = operation r t.memory in (code, record t { request = r'; memory = m })

abbrev pub if_ok : ErrorCode × Writing → (Writing → Writing) → Stage
if_ok (code, t) next = if is_ok code then carry code (next t) else early code t

abbrev set_meta_state : MetaState → Writing → Writing
set_meta_state state t = record t { info = record t.info { meta_state = state } }

abbrev pub move_meta : ℕ → Writing → Writing
move_meta index t = record t { info = record t.info { meta_stream_index = index } }

abbrev pub move_payload : ℕ → Writing → Writing
move_payload n t = record t {
  info = record t.info { payload_stream_index = add_size t.info.payload_stream_index n };
}

abbrev pub mark_open : Writing → Writing
mark_open t = record t { info = record t.info { payload_open = true } }

-- The opening boundary line, if the tuple has not been started.
unfoldable pub open_tuple : Sources → Writing → Stage
open_tuple sources t = elim t.info.meta_state [
  | nothing_open ↦
      if_ok (on_request t.request (start_tuple sources.grow) t) (set_meta_state tuple_open)
  | _ ↦ carry ok t
]

-- A sub section, whose boundary is kept.
abbrev open_section : Sources → Option Request → Bytes → Writing → ErrorCode × Writing
open_section sources none kind t = (fail, t)
open_section sources (some r) kind t =
    let (((code, r'), b), m) =
      start_tuple_sub_section sources.grow sources.draw r kind t.info.tuple_subboundary t.memory in
    (code, record t { info = record t.info { tuple_subboundary = b }; request = r'; memory = m })

-- The sub section of the meta data, if it has not been started.
unfoldable pub open_meta : Sources → ErrorCode → Writing → Stage
open_meta sources code t = elim t.info.meta_state [
  | tuple_open ↦
      let (meta_type, _) = get_content_info t.datum.kind in
      if_ok (open_section sources t.request meta_type t) (set_meta_state section_open)
  | _ ↦ carry code t
]

abbrev pub available : Option Request → ℕ
available none = 0
available (some r) = get_available_space_for_raw_data r

-- Raw data, with the number of bytes that were written.
abbrev add_raw : Sources → Option Request → (ℕ → Bytes) → ℕ → Writing → (ErrorCode × Writing) × ℕ
add_raw sources none copy n t = ((fail, t), 0)
add_raw sources (some r) copy n t =
    let ((code, r', actual), m) = add_raw_data sources.grow r copy n t.memory in
    ((code, record t { request = r'; memory = m }), actual)

abbrev pub left_meta : Writing → ℕ
left_meta t = sub_size (length t.datum.meta) t.info.meta_stream_index

abbrev pub left_payload : Writing → ℕ
left_payload t = sub_size t.datum.payload_size t.info.payload_stream_index

-- As much as there is room for.
abbrev pub at_most : ℕ → ℕ → ℕ
at_most left room = if ltb room left then room else left

-- What is left of the meta data, as far as there is room.
unfoldable pub write_meta : Sources → ErrorCode → Writing → Stage
write_meta sources code t =
    let room = available t.request in
    let n = at_most (left_meta t) room in
    let index = t.info.meta_stream_index in
    let (result, _) = add_raw sources t.request (λ k. take k (drop index t.datum.meta)) n t in
    if ltb 0 (left_meta t)
    then (if ltb 0 room
        then if_ok result (move_meta (add_size index n))
        else carry http_request_no_more_space t)
    else carry code t

-- The sub section of the payload, if it has not been started.
unfoldable pub open_payload : Sources → ErrorCode → Writing → Stage
open_payload sources code t =
    let (_, payload_type) = get_content_info t.datum.kind in
    if t.info.payload_open
    then carry code t
    else if_ok (open_section sources t.request payload_type t) mark_open

-- The callback of a stream is asked for all that there is room for; that it wrote nothing is its end.
abbrev stream_end : (ErrorCode × Writing) × ℕ → ErrorCode × Writing
stream_end ((code, t), actual) =
    if is_ok code && (actual == 0)
    then (
      code,
      record t {
        datum = record t.datum { payload_size = 0 };
        info = record t.info { payload_stream_index = 0 };
      },
    )
    else (code, t)

abbrev copy_payload : Sources → ℕ → DataType → ℕ → ℕ → Writing → ErrorCode × Writing
copy_payload sources d file n room t =
    (add_raw sources t.request (sources.read_file d t.reads) n t).0
copy_payload sources d stream n room t =
    stream_end (add_raw sources t.request (sources.read_stream d t.reads) room t)
copy_payload sources d _ n room t =
    (add_raw sources t.request
      (λ k. take k (drop t.info.payload_stream_index t.datum.payload_buffer)) n t).0

-- What is left of the payload, as far as there is room.
unfoldable pub write_payload : Sources → ℕ → ErrorCode → Writing → Stage
write_payload sources d code t =
    let room = available t.request in
    let n = at_most (left_payload t) room in
    if ltb 0 (left_payload t) || is_stream t.datum.kind
    then (if ltb 0 room
        then if_ok (copy_payload sources d t.datum.kind n room t) (move_payload n)
        else carry http_request_no_more_space t)
    else carry code t

-- The payload comes once the meta data have been written.
unfoldable pub after_meta : Sources → ℕ → ErrorCode → Writing → Stage
after_meta sources d code t =
    if left_meta t == 0
    then next_stage (open_payload sources code t) (write_payload sources d)
    else carry code t

abbrev sub_boundary_of : Option StringT → Bytes
sub_boundary_of none = []
sub_boundary_of (some b) = buffer_of b

-- The end of the tuple; true if the datum has been written whole.
unfoldable pub end_tuple : Sources → Stage → (ErrorCode × Bool) × Writing
end_tuple sources (early code t) = ((code, false), t)
end_tuple sources (carry code t) =
    if (left_meta t == 0) && (left_payload t == 0)
    then (let (code', t') =
          on_request t.request
            (λ r. end_tuple_sub_section sources.grow r (sub_boundary_of t.info.tuple_subboundary))
            t in
        ((code', is_ok code'), t'))
    else ((code, false), t)

unfoldable pub stream_datum : Sources → ℕ → Writing → (ErrorCode × Bool) × Writing
stream_datum sources d t =
    let opened = next_stage (open_tuple sources t) (open_meta sources) in
    let meta_written = next_stage opened (write_meta sources) in
    end_tuple sources (next_stage meta_written (after_meta sources d))

-- `stream_info` as it is initialized.
abbrev new_info : StreamInfo
new_info = record {
  meta_stream_index = 0;
  payload_stream_index = 0;
  tuple_subboundary = none;
  meta_state = nothing_open;
  payload_open = false;
}

abbrev writing : StoreData → StreamInfo → World → Writing
writing datum info w = record {
  datum = datum;
  info = info;
  request = w.request;
  memory = w.memory;
  reads = w.reads;
}

abbrev pub fresh : StoreData → World → Writing
fresh datum w = writing datum new_info w

-- The world after the datum has been streamed.
unfoldable pub keep_stream : ℕ → World → (ErrorCode × Bool) × Writing → ErrorCode × World
keep_stream d w ((code, whole), t) = (
  code,
  record w {
    data_of = update d (record t.datum { stream_info = some t.info }) w.data_of;
    request = t.request;
    memory = t.memory;
    reads = w.reads + 1;
    states = if whole then store_data_set_state d written w.states else w.states;
  },
)

unfoldable pub with_info : Sources → ℕ → World → Option StreamInfo → ErrorCode × World
with_info sources d w (some info) =
    keep_stream d w (stream_datum sources d (writing (w.data_of d) info w))
with_info sources d w none =
    let (granted, m) = memory_allocate 32 w.memory in
    let w' = record w { memory = m } in
    if granted
    then keep_stream d w (stream_datum sources d (fresh (w.data_of d) w'))
    else (out_of_memory, w')

-- `_exchange_add_current_data_to_request_by_streaming`
unfoldable pub add_current_data_by_streaming : Sources → ℕ → World → ErrorCode × World
add_current_data_by_streaming sources d w = with_info sources d w (w.data_of d).stream_info
