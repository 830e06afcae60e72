-- ===== src/Exchange/Examples.antt =====
-- A store of three data, of which two were written, and the theorems at it.
use iot_eclipse.Base.{
  ℕ, ◌≡◌, ◌≢◌, ◌↔◌, refl, true, false, Option, none, some, [], ◌∷◌, arith, ◌==◌, if◌then◌else◌, ap,
  replicate,
}
use iot_eclipse.Code.{ErrorCode, ok, is_ok, http_request_finalize_failed}
use iot_eclipse.LinkedList.{Run, null, node, Heap, write, done, list_initialize, list_reset}
use iot_eclipse.LinkedList.Segment.{Cells, IsList, Returns}
use iot_eclipse.Store.{written, prepared, streaming, Store, States, store_data_set_state}
use iot_eclipse.Exchange.{response_result, evaluate_response, update_store_state, clear_loop}
use iot_eclipse.Exchange.Update.{updated, Updated, update_store_state-Updated}
use iot_eclipse.Exchange.Clear.{Cleared, clear_loop-keep}
use iot_eclipse.Exchange.Outcome.{
  Delivered, response_result_iff, updated_ne_written, evaluate_response_failure,
  evaluate_response_success,
}
use iot_eclipse.LinkedList.{load}
use iot_eclipse.Exchange.Update.{has_item}
use iot_eclipse.Exchange.Fill.{
  Flags, advance, turn, fill_http_request, fill_loop, conclude, after_prepare, try_add,
  check_result, iterate,
}
use iot_eclipse.Exchange.Fill.Result.{fill_http_request-Steps, fill_http_request-Any}
use iot_eclipse.Exchange.Loop.{Client, fill_request, exchange_round, exchange}
use iot_eclipse.Exchange.Loop.Send.{Honest}
use iot_eclipse.Exchange.Loop.Round.{Ready, among}
use iot_eclipse.Exchange.Loop.Settled.{Final, exchange-Final}
use iot_eclipse.Exchange.Loop.Lost.{exchange_round-lost}
use iot_eclipse.Exchange.Content.{
  World, adding, add_current_data, add_datum, add_to, finalize_request, finish_request,
  get_content_info, get_payload, prepare_data, prepare_payload,
}
use iot_eclipse.HttpRequest.{
  resize_if_necessary, add_boundary, put, put_line, resize_to, resized, write_at,
}
use iot_eclipse.HttpRequest.Part
use iot_eclipse.HttpRequest.Part.{
  add_blank_line, add_content_info, add_meta, add_payload, content_info, draw_loop, fill_boundary,
  generate_random_boundary, keep_boundary,
}
use iot_eclipse.HttpRequest.Section.{
  add_tuple, tuple_in_room, after_boundary, finalize, settle, tuple_body, with_room,
}
use iot_eclipse.Memory.{
  fresh_from, memory_allocate, memory_free, memory_malloc, memory_reallocate, memory_release,
}
use iot_eclipse.StringType.{initialize, string_destroy, string_initialize_new, string_release}
use iot_eclipse.StringUtil.{snprintf, strlen, strncpy}
use iot_eclipse.Exchange.Content.Examples.{sources, request, datum}
use iot_eclipse.Exchange.Content.Streaming.Laws.{streaming-Lawful}
use iot_eclipse.Exchange.Loop.Program.{Environment, program, program-Honest}
use iot_eclipse.Exchange.Fill.Steps.{Steps, Lawful}

abbrev heap : Heap
heap =
    write (write (write (λ _. none) 8 (some (node 30 null 9))) 9 (some (node 40 8 10))) 10
      (some (node 50 9 null))

abbrev cells : Cells
cells = (8, 30) ∷ (9, 40) ∷ (10, 50) ∷ []

abbrev store : Store
store = record {
  streamable = false;
  high = record { count = 3; head = 8; last = 10; current = 8 };
  low = list_initialize;
}

abbrev states : States
states a = if a == 40 then prepared else written

high-IsList : IsList heap store.high cells
unfolding write
high-IsList = record {
  links = (omega arith, refl, (omega arith, refl, (omega arith, refl, tt)));
  distinct = (refl, (refl, (refl, tt)));
  head_first = refl;
  last_last = refl;
  counted = refl;
}

low-IsList : IsList heap store.low []
low-IsList = record {
  links = tt;
  distinct = tt;
  head_first = refl;
  last_last = refl;
  counted = refl;
}

abbrev created : Option ℕ
created = some 201

response_result_iff_example : (response_result ok created ≡ ok) ↔ ((ok ≡ ok) × (created ≡ some 200))
response_result_iff_example = response_result_iff ok created

updated_ne_written_test : updated false written ≢ written
updated_ne_written_test = updated_ne_written false written

update_store_state-Updated_test :
    (states' : States) × Updated true cells [] states states'
    × (update_store_state true store states heap
        ≡ done
            (record store { high = list_reset store.high; low = list_reset store.low }, states')
            heap)
update_store_state-Updated_test =
    update_store_state-Updated true heap store states cells [] high-IsList low-IsList

clear_loop-keep_example :
    Returns (Cleared heap states [] cells) (clear_loop 4 states store.high heap)
clear_loop-keep_example = clear_loop-keep states heap store.high cells high-IsList refl

evaluate_response_failure_example :
    (states' : States) × Updated false cells [] states states'
    × (evaluate_response ok (some 403) store states heap
        ≡ done
            (
              response_result ok (some 403),
              record store { high = list_reset store.high; low = list_reset store.low },
              states',
              [],
            )
            heap)
evaluate_response_failure_example =
    evaluate_response_failure ok (some 403) heap store states cells [] high-IsList low-IsList
      (unfold response_result in refl)

evaluate_response_success_example :
    Returns
      (Delivered store.streamable cells [] states)
      (evaluate_response ok (some 200) store states heap)
evaluate_response_success_example =
    evaluate_response_success heap store states cells [] high-IsList low-IsList (λ a i. refl)

abbrev environment : Environment
environment = record {
  start_request = λ w. (ok, w);
  add_correlation_id = λ w. (ok, w);
  send = λ w. ((ok, some 200), w);
  started = λ w. refl;
  correlated = λ w. refl;
  sent = λ w. refl;
}

abbrev client : Client World
client = program sources environment

client-Honest : Honest client
client-Honest = program-Honest sources environment (λ j. refl)

abbrev world : World
world = record {
  states = states;
  data_of = λ a. datum;
  request = some request;
  memory = record { answers = λ _. true; junk = λ _. 0; asked = 0; live = 3 };
  reads = 0;
}

states_still : (a : ℕ) → states a ≢ streaming
states_still a e = absurd (ground (arith, e))

store-Ready : Ready states heap store cells
store-Ready = record {
  list = high-IsList;
  low = low-IsList;
  cursor = refl;
  fixed = refl;
  still = states_still;
}

client-Lawful : Lawful client.adding
client-Lawful = streaming-Lawful sources (λ j. refl)

filled_test :
    (result : ErrorCode × World) × (fill_http_request 29 client.adding store world heap
      ≡ done result heap)
    × ((a : ℕ) → Steps (states a) (result.1.states a))
unfolding adding
filled_test =
    fill_http_request-Steps client.adding client-Lawful heap store world [] cells high-IsList refl
      29 (omega arith) refl states_still

fill_http_request-Steps_example :
    (result : ErrorCode × World) × (fill_http_request 29 client.adding store world heap
      ≡ done result heap)
    × ((a : ℕ) → Steps (states a) (result.1.states a))
unfolding adding
fill_http_request-Steps_example =
    fill_http_request-Steps client.adding client-Lawful heap store world [] cells high-IsList refl
      29 (omega arith) refl states_still

fill_http_request-Any_example :
    ((a : ℕ) → filled_test.0.1.states a ≢ streaming)
    × (filled_test.0.0 ≡ ok
        → (a : ℕ) × (has_item a cells ≡ true) × (filled_test.0.1.states a ≡ written))
unfolding adding
fill_http_request-Any_example =
    fill_http_request-Any client.adding client-Lawful heap store world [] cells 29 filled_test.0
      high-IsList refl (omega arith) refl states_still filled_test.1

exchange-Final_example :
    Returns (Final client client-Honest cells) (exchange client store world heap)
unfolding adding
exchange-Final_example =
    exchange-Final client client-Honest heap store world cells store-Ready (omega arith)

-- A request with room for the tuple, and not for its end.
abbrev narrow : World
narrow = record world {
  request = some (record request { payload = some (replicate 304 0); payload_size = 304 });
}

abbrev result_of : Run (ErrorCode × World) → ErrorCode × World
result_of (done r g) = r
result_of _ = (ok, narrow)

abbrev lost : ErrorCode × World
lost = result_of (fill_request client store narrow heap)

lost_test :
    (fill_request client store narrow heap ≡ done lost heap)
    × (lost.0 ≡ http_request_finalize_failed)
    × (client.adding.states lost.1 40 ≡ written)
unfolding fill_request fill_loop load write turn after_prepare adding try_add iterate check_result
    conclude fill_http_request store_data_set_state add_current_data add_datum add_to
    finalize_request finish_request get_content_info get_payload prepare_data prepare_payload
    resize_if_necessary add_boundary put put_line resize_to resized write_at add_blank_line
    add_content_info add_meta add_payload iot_eclipse.HttpRequest.Part.and_then content_info
    draw_loop fill_boundary generate_random_boundary keep_boundary add_tuple tuple_in_room
    after_boundary finalize settle tuple_body with_room fresh_from memory_allocate memory_free
    memory_malloc memory_reallocate memory_release initialize string_destroy string_initialize_new
    string_release snprintf strlen strncpy
lost_test = (refl, refl, refl)

exchange_round-lost_example :
    (exchange_round client store narrow heap ≡ done (lost.0, store, lost.1, []) heap)
    × ((flags : Flags) → turn client.adding false 40 flags lost.1 ≡ advance flags lost.1)
    × Returns (λ r' g. r'.0 ≡ ok → among 40 r'.3 ≡ true) (exchange_round client store lost.1 heap)
unfolding adding
exchange_round-lost_example =
    exchange_round-lost client client-Honest heap store narrow cells lost 40 store-Ready refl
      lost_test.0 (ap is_ok lost_test.1) refl refl lost_test.2
