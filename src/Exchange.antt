-- ===== src/Exchange.antt =====
-- What MindConnect_Library_V3.1.3.0/src/http_processor.c does with the store once a request has been
-- sent: the data that were written to it are marked as sent and removed, or are prepared to be sent
-- again.
pub mod Update
pub mod Clear
pub mod Outcome
pub mod Fill
pub mod Loop
pub mod Content
mod Examples
use iot_eclipse.Base.{
  ℕ, zero, suc, ◌+◌, Bool, true, false, Option, none, some, List, [], ◌++◌, ◌==◌, if◌then◌else◌,
}
use iot_eclipse.Code.{ErrorCode, ok, fail, is_ok}
use iot_eclipse.LinkedList.{
  null, done, out_of_fuel, ListT, Cmd, and_then, load, list_next, list_reset, pure, ◌>>=◌,
}
use iot_eclipse.Store.{
  DataState, prepared, written, sent, is_sent, Store, States, store_data_set_state,
  store_data_get_state, store_data_remove,
}

-- `_exchange_update_store_data_state`
unfoldable pub update_store_data_state : Bool → ℕ → States → States
update_store_data_state successful d states = elim (store_data_get_state d states) [
  | written ↦ store_data_set_state d (if successful then sent else prepared) states
  | _ ↦ states
]

-- A loop of `_exchange_update_store_state`.
unfoldable pub update_loop : ℕ → Bool → ListT → States → Cmd (ListT × States)
update_loop zero successful l states h = out_of_fuel
update_loop (suc k) successful l states h = and_then (list_next l h) λ (p, l') g. elim (p == null) [
  | true ↦ done (l', states) g
  | false ↦
      and_then (load p g)
        λ n g'. update_loop k successful l' (update_store_data_state successful n.item states) g'
]

-- `_exchange_update_store_state`; a list is gone through in `count + 1` rounds.
unfoldable pub update_store_state : Bool → Store → States → Cmd (Store × States)
unfolding list_reset
update_store_state successful store states = do
  (high, states') ← update_loop (store.high.count + 1) successful (list_reset store.high) states
  (low, states'') ← update_loop (store.low.count + 1) successful (list_reset store.low) states'
  pure (record store { high = high; low = low }, states'')

-- A loop of `_exchange_clear_sent_data_from_store`, with the data that it destroyed.
unfoldable pub clear_loop : ℕ → States → ListT → Cmd (ListT × List ℕ)
clear_loop zero states l h = out_of_fuel
clear_loop (suc k) states l h = and_then (list_next l h) λ (p, l') g. elim (p == null) [
  | true ↦ done (l', []) g
  | false ↦ and_then (load p g) λ n g'. elim (is_sent (store_data_get_state n.item states)) [
    | true ↦ and_then (store_data_remove l' p g') λ (code, l'', out) g''.
        and_then (clear_loop k states l'' g'') λ (end, rest) g'''. done (end, out ++ rest) g'''
    | false ↦ clear_loop k states l' g'
  ]
]

-- `_exchange_clear_sent_data_from_store`
unfoldable pub clear_sent_data_from_store : States → Store → Cmd (Store × List ℕ)
clear_sent_data_from_store states store = do
  (high, out) ← clear_loop (store.high.count + 1) states store.high
  (low, more) ← clear_loop (store.low.count + 1) states store.low
  pure (record store { high = high; low = low }, out ++ more)

-- `_evaluate_response_codes`, on the status code of the response.
unfoldable pub evaluate_response_codes : ℕ → ErrorCode
evaluate_response_codes status =
    if status == 200
    then ErrorCode.ok
    else if status == 201
    then ErrorCode.created
    else if status == 206
    then ErrorCode.partial_content
    else if status == 400
    then ErrorCode.bad_request
    else if status == 401
    then ErrorCode.unauthorized
    else if status == 403
    then ErrorCode.forbidden
    else if status == 404
    then ErrorCode.not_found
    else if status == 500
    then ErrorCode.server_fail
    else if status == 409
    then ErrorCode.conflict
    else if status == 412
    then ErrorCode.precondition_fail
    else if status == 413
    then ErrorCode.request_payload_too_large
    else ErrorCode.unexpected_result_code

-- The result of `_exchange_evaluate_response`, from that of the send operation and the status code
-- of the response, if there is one.
unfoldable pub response_result : ErrorCode → Option ℕ → ErrorCode
unfolding evaluate_response_codes
response_result send_result response =
    if is_ok send_result
    then elim response [
      | none ↦ fail
      | some status ↦ if status == 200 then ok else evaluate_response_codes status
    ]
    else send_result

-- `_exchange_evaluate_response`, with the data that it destroyed.
unfoldable pub evaluate_response :
    ErrorCode → Option ℕ → Store → States → Cmd (ErrorCode × Store × States × List ℕ)
evaluate_response send_result response store states =
    let result = response_result send_result response in
    if is_ok result
    then (do
      (updated, states') ← update_store_state true store states
      (cleared, out) ← clear_sent_data_from_store states' updated
      pure (result, cleared, states', out))
    else (do
      (updated, states') ← update_store_state false store states
      pure (result, updated, states', []))
