-- ===== src/Exchange/Content/Streaming/Laws.antt =====
-- The streaming of a datum keeps the law that the filling of a request asks for.
use iot_eclipse.Base.{ℕ, ◌≡◌, refl, ◌⊎◌, inl, Bool, true, false, Option, none, some, arith}
use iot_eclipse.Code.{ErrorCode, is_ok}
use iot_eclipse.Memory.{memory_allocate}
use iot_eclipse.Store.{written, store_data_set_state}
use iot_eclipse.Exchange.Fill.{is_added}
use iot_eclipse.Exchange.Fill.Steps.{Lawful}
use iot_eclipse.HttpRequest.Section.Codes.{is_partial}
use iot_eclipse.Exchange.Content.{World, Sources, StreamInfo, adding}
use iot_eclipse.Exchange.Content.Laws.{adding-Lawful}
use iot_eclipse.Exchange.Content.Streaming.Inside.{if_either}
use iot_eclipse.Exchange.Content.Streaming.{
  Writing, Stage, early, carry, end_tuple, stream_datum, keep_stream, fresh, with_info,
  add_current_data_by_streaming,
}

ok_or_not : (code : ErrorCode) → (is_ok code ≡ false) ⊎ (is_added code ≡ true)
ok_or_not code = ground arith

-- A datum that has been written whole has been added.
abbrev Whole : (ErrorCode × Bool) × Writing → Type 0
Whole ((code, whole), t) = (whole ≡ false) ⊎ (is_added code ≡ true)

end-Whole : (sources : Sources) (stage : Stage) → Whole (end_tuple sources stage)
unfolding end_tuple
end-Whole sources (early code t) = inl refl
end-Whole sources (carry code t) = if_either Whole _ (ok_or_not _) (inl refl)

-- What a call leaves of the states: nothing changes, or the datum has been added and marked.
abbrev Marks : ℕ → ℕ → World → ErrorCode × World → Type 0
Marks d a w (code, w') =
    (w'.states a ≡ w.states a) ⊎ ((is_added code ≡ true) × (a ≡ d) × (w'.states a ≡ written))

keep-Marks :
    (d a : ℕ) (w : World) (result : (ErrorCode × Bool) × Writing)
    → Whole result
    → Marks d a w (keep_stream d w result)
unfolding keep_stream store_data_set_state
keep-Marks d a w ((code, whole), t) h = ground arith

streamed-Marks :
    (sources : Sources) (d a : ℕ) (w : World) (t : Writing)
    → Marks d a w (keep_stream d w (stream_datum sources d t))
unfolding stream_datum
streamed-Marks sources d a w t = keep-Marks d a w _ (end-Whole sources _)

with_info-Marks :
    (sources : Sources) (d a : ℕ) (w : World) (info : Option StreamInfo)
    → Marks d a w (with_info sources d w info)
unfolding with_info
with_info-Marks sources d a w (some info) = streamed-Marks sources d a w _
with_info-Marks sources d a w none =
    let (granted, m) = memory_allocate 32 w.memory in
    if_either (Marks d a w) granted
      {x = keep_stream d w (stream_datum sources d (fresh (w.data_of d) (record w { memory = m })))}
      (streamed-Marks sources d a w _) (inl refl)

-- With the streaming of `_exchange_add_current_data_to_request_by_streaming` the operations on one
-- datum change the states as the filling of a request asks for: the preparation of an initial datum
-- marks it as prepared if it returns MCL_OK; the attempt to add a prepared datum at once marks it as
-- written if and only if the code says that it was added (MCL_OK or MCL_PARTIALLY_WRITTEN); a call
-- that streams a datum leaves all states, or marks the datum as written with such a code; none
-- touches the state of another datum, and the end of the request touches none. The random number
-- generator does not return MCL_PARTIALLY_WRITTEN.
pub streaming-Lawful :
    (sources : Sources)
    → ((j : ℕ) → is_partial (sources.draw j).0 ≡ false)
    → Lawful (adding sources (add_current_data_by_streaming sources))
unfolding add_current_data_by_streaming
streaming-Lawful sources plain =
    adding-Lawful sources (add_current_data_by_streaming sources) plain
      (λ d a w e. with_info-Marks sources d a w (w.data_of d).stream_info)
