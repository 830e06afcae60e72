-- ===== src/Exchange/Loop.antt =====
-- `http_processor_exchange` of MindConnect_Library_V3.1.3.0/src/http_processor.c: requests are filled
-- and sent until the store is empty or an error occurs.
pub mod Round
pub mod Send
pub mod Filled
pub mod Settled
pub mod Lost
pub mod Program
use iot_eclipse.Base.{
  ℕ, zero, suc, ◌+◌, ◌%◌, ◌^◌, Bool, true, false, Option, none, some, List, [], ◌++◌, ltb,
  if◌then◌else◌,
}
use iot_eclipse.Code.{ErrorCode, store_is_empty, is_ok}
use iot_eclipse.LinkedList.{Cmd, done, out_of_fuel, and_then, pure}
use iot_eclipse.Store.{Store, store_get_data_count}
use iot_eclipse.Exchange.{evaluate_response}
use iot_eclipse.Exchange.Fill.{Adding, fill_rounds, fill_http_request}

-- What the function calls beside the filling of a request: the initialization of a request with its
-- headers, the correlation id and its header, and `http_client_send`, with its code and the status of
-- the response.
pub record Client (S : Type 0) : Type 0 where
  pub adding : Adding S
  pub start_request : S → ErrorCode × S
  pub add_correlation_id : S → ErrorCode × S
  pub send : S → (ErrorCode × Option ℕ) × S

-- Where a function returns: its code, the store, the world and the data that were destroyed.
abbrev pub Report : Type 0 → Type 0
Report S = ErrorCode × Store × S × List ℕ

module _ {S : Type 0} (client : Client S) where
  -- A request that is complete is sent, and the response is evaluated.
  unfoldable pub send_request : Store → ErrorCode × S → Cmd (Report S)
  unfolding evaluate_response
  send_request store (code, s) h = elim (is_ok code) [
    | false ↦ done (code, store, s, []) h
    | true ↦
        let ((send_result, response), s') = client.send s in
        and_then (evaluate_response send_result response store (client.adding.states s') h)
          λ (result, store', states, out) g.
            done (result, store', client.adding.with_states states s', out) g
  ]

  -- The request is filled, and the correlation id is added if that succeeds.
  unfoldable pub fill_request : Store → S → Cmd (ErrorCode × S)
  unfolding fill_http_request
  fill_request store s h =
      and_then (fill_http_request (fill_rounds store.high.count) client.adding store s h)
        λ (code, s') g. done (if is_ok code then client.add_correlation_id s' else (code, s')) g

  -- A round of the loop.
  unfoldable pub exchange_round : Store → S → Cmd (Report S)
  unfolding fill_request send_request
  exchange_round store s h =
      let (code, s') = client.start_request s in
      elim (is_ok code) [
        | false ↦ done (code, store, s', []) h
        | true ↦ and_then (fill_request store s' h) (send_request store)
      ]

  -- The loop of `http_processor_exchange`.
  unfoldable pub exchange_loop : ℕ → Store → S → Cmd (Report S)
  unfolding exchange_round
  exchange_loop zero store s h = out_of_fuel
  exchange_loop (suc k) store s h = and_then (exchange_round store s h) λ (code, store', s', out) g.
      elim (is_ok code) [
        | false ↦ done (code, store', s', out) g
        | true ↦ elim (ltb 0 (store_get_data_count store')) [
          | false ↦ done (code, store', s', out) g
          | true ↦
              and_then (exchange_loop k store' s' g)
                λ (code', store'', s'', more) g'. done (code', store'', s'', out ++ more) g'
        ]
      ]

  -- `http_processor_exchange`
  unfoldable pub exchange : Store → S → Cmd (Report S)
  unfolding exchange_loop store_get_data_count
  exchange store s h =
      if ltb 0 (store_get_data_count store)
      then exchange_loop (store_get_data_count store) store s h
      else done (store_is_empty, store, s, []) h
