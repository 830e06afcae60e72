-- ===== src/Exchange/Content.antt =====
-- What is written to a request for one datum of the store, in
-- MindConnect_Library_V3.1.3.0/src/http_processor.c: the operations that the filling of a request calls,
-- on a world of the data, their states and the request.
pub mod Streaming
pub mod Laws
pub mod Examples
use iot_eclipse.Base.{
  ℕ, ◌+◌, ◌==◌, Bool, true, false, Option, none, some, [], length, take, if◌then◌else◌,
}
use iot_eclipse.Base.Bytes.{Bytes, codes}
use iot_eclipse.Code.{ErrorCode, ok, fail, http_request_no_more_space, is_ok}
use iot_eclipse.Memory.{Memory}
use iot_eclipse.Store.{prepared, written, States, store_data_set_state}
use iot_eclipse.StringType.{StringT}
use iot_eclipse.HttpRequest.{Request}
use iot_eclipse.HttpRequest.Section.{add_tuple, finalize}
use iot_eclipse.Exchange.Fill.{Adding}

-- `E_STORE_DATA_TYPE`
pub data DataType : Type 0 where
  time_series event_list file custom_data stream data_source_configuration : DataType

-- `meta_state`: -2, -1 and 0.
pub data MetaState : Type 0 where
  nothing_open tuple_open section_open : MetaState

-- `store_data_stream_info_t`; `payload_open` says that `payload_state` is 0 and no longer -1.
pub record StreamInfo : Type 0 where
  pub meta_stream_index : ℕ
  pub payload_stream_index : ℕ
  pub tuple_subboundary : Option StringT
  pub meta_state : MetaState
  pub payload_open : Bool

-- The parts of `store_data_t` that a request takes.
pub record StoreData : Type 0 where
  pub kind : DataType
  pub meta : Bytes
  pub payload_buffer : Bytes
  pub payload_size : ℕ
  pub stream_info : Option StreamInfo

-- The request is `none` once something has been written outside its payload; `reads` counts the reads of
-- files and streams that may have been made, since each may return something else.
pub record World : Type 0 where
  pub states : States
  pub data_of : ℕ → StoreData
  pub request : Option Request
  pub memory : Memory
  pub reads : ℕ

-- What the operations take from elsewhere: the JSON texts of the meta data and of the payload of a
-- datum, or none if they cannot be made; the payload of custom data; the size of a file; what the n-th
-- read returns from a file, or the read callback of a stream, for so many bytes; the growth of the
-- payload and the random numbers.
pub record Sources : Type 0 where
  pub json_from_item_meta : ℕ → Option Bytes
  pub json_from_payload : ℕ → Option Bytes
  pub custom_payload : ℕ → Bytes
  pub file_size : ℕ → ℕ
  pub read_file : ℕ → ℕ → ℕ → Bytes
  pub read_stream : ℕ → ℕ → ℕ → Bytes
  pub grow : ℕ → ℕ → ℕ
  pub draw : ℕ → ErrorCode × ℕ

-- `_exchange_store_data_get_content_info`: the content types of the meta data and of the payload.
unfoldable pub get_content_info : DataType → Bytes × Bytes
get_content_info time_series =
    (codes "application/vnd.siemens.mindsphere.meta+json", codes "application/json")
get_content_info event_list =
    (codes "application/vnd.siemens.mindsphere.meta+json", codes "application/json")
get_content_info file =
    (codes "application/vnd.siemens.mindsphere.meta+json", codes "application/octet-stream")
get_content_info custom_data =
    (codes "application/vnd.siemens.mindsphere.meta+json", codes "application/octet-stream")
get_content_info stream =
    (codes "application/vnd.siemens.mindsphere.meta+json", codes "application/octet-stream")
get_content_info data_source_configuration =
    (codes "application/vnd.siemens.mindsphere.meta+json", codes "application/json")

abbrev pub update : ℕ → StoreData → (ℕ → StoreData) → ℕ → StoreData
update d datum data_of a = if a == d then datum else data_of a

-- `_exchange_prepare_data` behind the meta data: the payload by the type of the datum.
unfoldable pub prepare_payload : Sources → ℕ → DataType → StoreData → Option StoreData
prepare_payload sources d file datum = some (record datum { payload_size = sources.file_size d })
prepare_payload sources d custom_data datum = some (record datum {
  payload_buffer = sources.custom_payload d;
  payload_size = length (sources.custom_payload d);
})
prepare_payload sources d stream datum = some datum
prepare_payload sources d _ datum = elim (sources.json_from_payload d) [
  | none ↦ none
  | some payload ↦ some (record datum { payload_buffer = payload; payload_size = length payload })
]

-- `_exchange_prepare_data`: the meta data are released again if there is no payload.
unfoldable pub prepare_data : Sources → ℕ → World → ErrorCode × World
prepare_data sources d w = elim (sources.json_from_item_meta d) [
  | none ↦ (fail, w)
  | some meta ↦
      elim (prepare_payload sources d (w.data_of d).kind (record (w.data_of d) { meta = meta })) [
        | none ↦ (fail, w)
        | some datum ↦ (
          ok,
          record w {
            data_of = update d datum w.data_of;
            states = store_data_set_state d prepared w.states;
          },
        )
      ]
]

-- `_get_payload_from_file` and `_get_payload_from_buffer`: the bytes that they copy.
unfoldable pub get_payload : Sources → ℕ → ℕ → StoreData → ℕ → Bytes
get_payload sources d reads datum size = elim datum.kind [
  | file ↦ sources.read_file d reads size
  | _ ↦ take size datum.payload_buffer
]

-- The tuple of a datum, and its mark if it has been written.
unfoldable pub add_datum : Sources → ℕ → World → Request → ErrorCode × World
add_datum sources d w r =
    let datum = w.data_of d in
    let (meta_type, payload_type) = get_content_info datum.kind in
    let ((code, r'), m) =
      add_tuple sources.grow sources.draw r datum.meta meta_type
        (get_payload sources d w.reads datum) datum.payload_size payload_type w.memory in
    (
      code,
      record w {
        request = r';
        memory = m;
        reads = w.reads + 1;
        states = if is_ok code then store_data_set_state d written w.states else w.states;
      },
    )

-- A datum of a request that is gone cannot be added.
unfoldable pub add_to : Sources → ℕ → World → Option Request → ErrorCode × World
add_to sources d w none = (fail, w)
add_to sources d w (some r) = add_datum sources d w r

abbrev pub is_stream : DataType → Bool
is_stream stream = true
is_stream _ = false

-- `_exchange_add_current_data_to_request`: the size of a stream is not known.
unfoldable pub add_current_data : Sources → ℕ → World → ErrorCode × World
unfolding add_to
add_current_data sources d w =
    if is_stream (w.data_of d).kind
    then (http_request_no_more_space, w)
    else add_to sources d w w.request

-- The end of a request, if it is not gone.
unfoldable pub finish_request : Sources → World → Option Request → ErrorCode × World
finish_request sources w none = (fail, w)
finish_request sources w (some r) =
    let ((code, r'), m) = finalize sources.grow r w.memory in
    (code, record w { request = r'; memory = m })

-- `_exchange_finalize_http_request`, without the header for the authentication.
unfoldable pub finalize_request : Sources → World → ErrorCode × World
finalize_request sources w = finish_request sources w w.request

-- The operations that the filling of a request calls, for a way to add a datum by streaming.
unfoldable pub adding : Sources → (ℕ → World → ErrorCode × World) → Adding World
adding sources add_by_streaming = record {
  states = λ w. w.states;
  with_states = λ states w. record w { states = states };
  prepare_data = prepare_data sources;
  add_current_data = add_current_data sources;
  add_by_streaming = add_by_streaming;
  finalize_request = finalize_request sources;
}
