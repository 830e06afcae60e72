-- ===== src/Exchange/Fill.antt =====
-- `_exchange_fill_http_request` of MindConnect_Library_V3.1.3.0/src/http_processor.c: which data of the
-- store are written to a request. What is done to one datum is an interface, `Adding`.
pub mod Items
pub mod Branches
pub mod Lighter
pub mod Steps
pub mod Advance
pub mod Ends
pub mod Written
pub mod Result
use iot_eclipse.Base.{
  ℕ, zero, suc, ◌+◌, ◌*◌, Bool, true, false, not, ◌||◌, Option, none, some, List, [], ◌∷◌, ◌==◌,
  if◌then◌else◌,
}
use iot_eclipse.Code.{
  ErrorCode, ok, fail, http_request_no_more_space, store_item_exceeds_max_http_request_size,
  exchange_streaming_is_active, partially_written, is_ok,
}
use iot_eclipse.LinkedList.{null, Ptr, Cmd, done, out_of_fuel, and_then, load, pure, ◌>>=◌}
use iot_eclipse.Store.{
  DataState, initial, prepared, streaming, Store, States, store_data_set_state,
  store_data_get_state,
}

-- What the loop calls, on a world `S` that holds the request and the data with their states:
-- `_exchange_prepare_data`, `_exchange_add_current_data_to_request`,
-- `_exchange_add_current_data_to_request_by_streaming` and `_exchange_finalize_http_request`. The data
-- are named by their addresses.
pub record Adding (S : Type 0) : Type 0 where
  pub states : S → States
  pub with_states : States → S → S
  pub prepare_data : ℕ → S → ErrorCode × S
  pub add_current_data : ℕ → S → ErrorCode × S
  pub add_by_streaming : ℕ → S → ErrorCode × S
  pub finalize_request : S → ErrorCode × S

-- `MCL_OK == add_result || MCL_PARTIALLY_WRITTEN == add_result`
abbrev pub is_added : ErrorCode → Bool
is_added ErrorCode.ok = true
is_added ErrorCode.partially_written = true
is_added _ = false

-- `MCL_HTTP_REQUEST_NO_MORE_SPACE == add_result`
abbrev pub is_no_more_space : ErrorCode → Bool
is_no_more_space ErrorCode.http_request_no_more_space = true
is_no_more_space _ = false

abbrev pub is_initial : DataState → Bool
is_initial DataState.initial = true
is_initial _ = false

abbrev pub is_streaming : DataState → Bool
is_streaming DataState.streaming = true
is_streaming _ = false

-- `added_any` and `added_any_at_all`
pub record Flags : Type 0 where
  pub added_any : Bool
  pub added_any_at_all : Bool

-- What a round of the loop does with a node: it returns from the function, breaks the loop, or goes on,
-- to the next node or with the same one.
pub data Turn (S : Type 0) : Type 0 where
  leave : ErrorCode → S → Turn S
  break : Flags → S → Turn S
  advance stay : Flags → S → Turn S

-- How the loop ends: by a return or by a break.
pub data Ended (S : Type 0) : Type 0 where
  returned : ErrorCode → S → Ended S
  broken : Bool → S → Ended S

-- What follows a round: the end, the next node, or the same node again.
abbrev pub follow : {S A : Type 0} → (Ended S → A) → (Flags → S → A) → (Flags → S → A) → Turn S → A
follow end onward again (leave code s) = end (returned code s)
follow end onward again (break flags s) = end (broken flags.added_any_at_all s)
follow end onward again (advance flags s) = onward flags s
follow end onward again (stay flags s) = again flags s

module _ {S : Type 0} (ops : Adding S) (streamable : Bool) where
  -- The node is left unless its data are being streamed.
  unfoldable pub iterate : ℕ → Flags → S → Turn S
  iterate d flags s =
      if is_streaming (store_data_get_state d (ops.states s)) then stay flags s else advance flags s

  -- What follows an attempt to add the data.
  unfoldable pub check_result : ℕ → Flags → ErrorCode × S → Turn S
  check_result d flags (code, s) =
      if is_added code
      then iterate d (record { added_any = true; added_any_at_all = true }) s
      else if is_no_more_space code
      then (if is_streaming (store_data_get_state d (ops.states s))
          then leave exchange_streaming_is_active s
          else if streamable
          then iterate d flags (ops.with_states (store_data_set_state d streaming (ops.states s)) s)
          else iterate d flags s)
      else break flags s

  -- The attempt, by the state of the data.
  unfoldable pub try_add : ℕ → Flags → DataState → S → Turn S
  try_add d flags DataState.prepared s = check_result d flags (ops.add_current_data d s)
  try_add d flags DataState.streaming s = check_result d flags (ops.add_by_streaming d s)
  try_add d flags DataState.initial s = iterate d flags s
  try_add d flags DataState.written s = iterate d flags s
  try_add d flags DataState.sent s = iterate d flags s

  unfoldable pub after_prepare : ℕ → Flags → ErrorCode × S → Turn S
  after_prepare d flags (code, s) =
      if is_ok code then try_add d flags (store_data_get_state d (ops.states s)) s else leave fail s

  -- A round of the loop at a node.
  unfoldable pub turn : ℕ → Flags → S → Turn S
  turn d flags s =
      after_prepare d flags (
        if is_initial (store_data_get_state d (ops.states s))
        then ops.prepare_data d s
        else (ok, s))

  -- The loop of `_exchange_fill_http_request`.
  unfoldable pub fill_loop : ℕ → Ptr → Ptr → Flags → S → Cmd (Ended S)
  fill_loop zero head p flags s h = out_of_fuel
  fill_loop (suc k) head p flags s h = elim (p == null) [
    | true ↦ elim flags.added_any [
      | true ↦ fill_loop k head head (record flags { added_any = false }) s h
      | false ↦ done (broken flags.added_any_at_all s) h
    ]
    | false ↦ and_then (load p h) λ n g.
        follow (λ ended. done ended g) (λ flags' s'. fill_loop k head n.next flags' s' g)
          (λ flags' s'. fill_loop k head p flags' s' g) (turn n.item flags s)
  ]

-- What follows the loop.
unfoldable pub conclude : {S : Type 0} → Adding S → Ended S → ErrorCode × S
conclude ops (returned code s) = (code, s)
conclude ops (broken any s) =
    if any then ops.finalize_request s else (store_item_exceeds_max_http_request_size, s)

abbrev pub no_flags : Flags
no_flags = record { added_any = false; added_any_at_all = false }

-- Rounds that are enough for a list of `n` data, if none is streamed.
abbrev pub fill_rounds : ℕ → ℕ
fill_rounds n = 2 * n * (n + 1) + n + 2

-- `_exchange_fill_http_request`, with at most `k` rounds of its loop.
unfoldable pub fill_http_request : {S : Type 0} → ℕ → Adding S → Store → S → Cmd (ErrorCode × S)
unfolding conclude
fill_http_request k ops store s = do
  ended ← fill_loop ops store.streamable k store.high.head store.high.current no_flags s
  pure (conclude ops ended)
