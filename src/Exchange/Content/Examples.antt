-- ===== src/Exchange/Content/Examples.antt =====
-- A datum of a few bytes and a small request, and the theorems at them.
use iot_eclipse.Base.{◌+◌, true, false, [], some, none, refl, arith, replicate}
use iot_eclipse.Base.Bytes.{codes}
use iot_eclipse.Code.{ok}
use iot_eclipse.Store.{streaming}
use iot_eclipse.HttpRequest.{Request}
use iot_eclipse.Exchange.Fill.Steps.{Lawful}
use iot_eclipse.Exchange.Content.{
  Sources, World, StoreData, StreamInfo, time_series, section_open, adding,
}
use iot_eclipse.Exchange.Content.Streaming.{add_current_data_by_streaming}
use iot_eclipse.Exchange.Content.Streaming.Inside.{Inside}
use iot_eclipse.Exchange.Content.Streaming.Laws.{streaming-Lawful}
use iot_eclipse.Exchange.Content.Streaming.Cursors.{Sound, streaming-Sound}

abbrev pub sources : Sources
sources = record {
  json_from_item_meta = λ d. some (codes "{}");
  json_from_payload = λ d. some (codes "[]");
  custom_payload = λ d. [];
  file_size = λ d. 0;
  read_file = λ d reads n. [];
  read_stream = λ d reads n. [];
  grow = λ required size. required + size;
  draw = λ i. (ok, i);
}

streaming-Lawful_example : Lawful (adding sources (add_current_data_by_streaming sources))
streaming-Lawful_example = streaming-Lawful sources (λ j. refl)

abbrev pub request : Request
request = record {
  payload = some (replicate 200 0);
  payload_size = 200;
  payload_offset = 2;
  boundary = codes "0123456789abcdefABCDEF";
  max_http_payload_size = 400;
  resize_enabled = false;
}

abbrev info : StreamInfo
info = record {
  meta_stream_index = 1;
  payload_stream_index = 0;
  tuple_subboundary = none;
  meta_state = section_open;
  payload_open = false;
}

abbrev pub datum : StoreData
datum = record {
  kind = time_series;
  meta = codes "{}";
  payload_buffer = codes "[1, 2]";
  payload_size = 6;
  stream_info = some info;
}

abbrev half_written : World
half_written = record {
  states = λ a. streaming;
  data_of = λ a. datum;
  request = some request;
  memory = record { answers = λ _. true; junk = λ _. 0; asked = 0; live = 3 };
  reads = 0;
}

datum-Inside : Inside datum info
datum-Inside = record {
  known = refl;
  meta_size = omega arith;
  payload_size = omega arith;
  meta = omega arith;
  payload = omega arith;
}

streaming-Sound_example : Sound 40 (add_current_data_by_streaming sources 40 half_written).1
streaming-Sound_example = streaming-Sound sources 40 half_written datum-Inside
