-- ===== src/Exchange/Content/Laws.antt =====
-- The operations on one datum keep the laws that the filling of a request asks for.
use iot_eclipse.Base.{
  ℕ, ◌≡◌, refl, ◌==◌, ◌&&◌, ◌⊎◌, true, false, Option, none, some, if◌then◌else◌, arith,
  Option-cases, Bool-cases, inl, inr,
}
use iot_eclipse.Code.{ErrorCode, is_ok}
use iot_eclipse.Store.{prepared, written, streaming, store_data_set_state}
use iot_eclipse.HttpRequest.{Request}
use iot_eclipse.HttpRequest.Section.Codes.{is_partial, add_tuple_code}
use iot_eclipse.Exchange.Fill.{is_added}
use iot_eclipse.Exchange.Fill.Steps.{Lawful}
use iot_eclipse.Exchange.Content.{
  World, Sources, prepare_data, prepare_payload, add_current_data, add_datum, add_to,
  finish_request, is_stream, get_content_info, get_payload, finalize_request, adding,
}

module _ (sources : Sources) (d a : ℕ) (w : World) where
  prepare_states :
      let (code, w') = prepare_data sources d w in
      w'.states a ≡ (if is_ok code && a == d then prepared else w.states a)
  unfolding prepare_data store_data_set_state
  prepare_states = elim (Option-cases (sources.json_from_item_meta d)) [
    | inl absent ↦ ground (arith, absent)
    | inr (meta, e) ↦
        elim (Option-cases
          (prepare_payload sources d (w.data_of d).kind (record (w.data_of d) { meta = meta }))) [
            | inl absent ↦ ground (arith, e, absent)
            | inr (datum, f) ↦ ground (arith, e, f)
          ]
  ]

  module _ (plain : (j : ℕ) → is_partial (sources.draw j).0 ≡ false) where
    marked :
        (code : ErrorCode)
        → is_partial code ≡ false
        → (if is_ok code then store_data_set_state d written w.states else w.states) a
          ≡ (if is_added code && a == d then written else w.states a)
    unfolding store_data_set_state
    marked code whole = ground (arith, whole)

    add_datum_states :
        (r : Request)
        → let (code, w') = add_datum sources d w r in
          w'.states a ≡ (if is_added code && a == d then written else w.states a)
    unfolding add_datum
    add_datum_states r =
        let datum = w.data_of d in
        let (meta_type, payload_type) = get_content_info datum.kind in
        marked _ (
          add_tuple_code sources.grow sources.draw r datum.meta meta_type
            (get_payload sources d w.reads datum) datum.payload_size payload_type w.memory plain)

    add_to_states :
        (request : Option Request)
        → let (code, w') = add_to sources d w request in
          w'.states a ≡ (if is_added code && a == d then written else w.states a)
    unfolding add_to
    add_to_states none = refl
    add_to_states (some r) = add_datum_states r

    add_states :
        let (code, w') = add_current_data sources d w in
        w'.states a ≡ (if is_added code && a == d then written else w.states a)
    unfolding add_current_data
    add_states = elim (Bool-cases (is_stream (w.data_of d).kind)) [
      | inl unknown ↦ ground (arith, unknown)
      | inr known ↦ ground (arith, known, add_to_states w.request)
    ]

finish_states :
    (sources : Sources) (w : World) (request : Option Request)
    → (finish_request sources w request).1.states ≡ w.states
unfolding finish_request
finish_states sources w none = refl
finish_states sources w (some r) = refl

finalize_states : (sources : Sources) (w : World) → (finalize_request sources w).1.states ≡ w.states
unfolding finalize_request
finalize_states sources w = finish_states sources w w.request

-- The operations on one datum change the states as the filling of a request asks for: the preparation
-- marks its datum as prepared if it returns MCL_OK, and the attempt to add it at once marks it as
-- written if and only if the code says that it was added (MCL_OK or MCL_PARTIALLY_WRITTEN); neither
-- touches the state of another datum, and the end of the request touches none. The random number
-- generator does not return MCL_PARTIALLY_WRITTEN, and the streaming of a datum leaves all states, or
-- marks the datum as written with such a code.
pub adding-Lawful :
    (sources : Sources) (add_by_streaming : ℕ → World → ErrorCode × World)
    → ((j : ℕ) → is_partial (sources.draw j).0 ≡ false)
    → ((d a : ℕ) (w : World)
        → w.states d ≡ streaming
        → let (code, w') = add_by_streaming d w in
          (w'.states a ≡ w.states a) ⊎ ((is_added code ≡ true) × (a ≡ d) × (w'.states a ≡ written)))
    → Lawful (adding sources add_by_streaming)
unfolding adding
adding-Lawful sources add_by_streaming plain streams = record {
  states_with = λ states w. refl;
  prepare = λ d a w _. prepare_states sources d a w;
  add = λ d a w _. add_states sources d a w plain;
  stream = streams;
  finalize = finalize_states sources;
}
