-- ===== src/Exchange/Outcome.antt =====
-- What the outcome of a send operation does to the store.
use iot_eclipse.Base.{
  ℕ, ◌≡◌, ◌≢◌, ◌↔◌, refl, Bool, true, false, Option, none, some, List, [], ◌∷◌, ◌++◌, ◌==◌, arith,
  if◌then◌else◌, Bool-cases, inl, inr, ==_iff, ap,
}
use iot_eclipse.Code.{ErrorCode, ok, is_ok, ok-cases}
use iot_eclipse.LinkedList.{Heap, Ptr, null, done, ListT, list_reset}
use iot_eclipse.LinkedList.Segment.{Cells, has, IsList, Returns, returns, bind, frame}
use iot_eclipse.Store.{DataState, written, Store, States}
use iot_eclipse.Exchange.{
  response_result, evaluate_response_codes, evaluate_response, clear_sent_data_from_store,
}
use iot_eclipse.Exchange.Update.{updated, Updated, update_store_state-Updated}
use iot_eclipse.Exchange.Clear.{keep, sent_items, clear_loop-keep, IsList-moved}

refused_status :
    (status : ℕ)
    → (status == 200) ≡ false
    → (if status == 200 then ok else evaluate_response_codes status) ≢ ok
unfolding evaluate_response_codes
refused_status status other e = absurd (ground (arith, other, e))

answered :
    (response : Option ℕ) → (response_result ok response ≡ ok) ↔ ((ok ≡ ok) × (response ≡ some 200))
unfolding response_result
answered none = (λ e. absurd (ground arith), λ (_, e). absurd (ground arith))
answered (some status) = elim (Bool-cases (status == 200)) [
  | inl same ↦ (λ e. (refl, ap some ((==_iff status 200).0 same)), λ e. rw same refl)
  | inr other ↦ (λ e. absurd (refused_status status other e), λ (_, e). absurd (ground (arith, e)))
]

-- A send operation counts as successful just if it returned MCL_OK, and the server answered with the
-- status 200.
pub response_result_iff :
    (send_result : ErrorCode) (response : Option ℕ)
    → (response_result send_result response ≡ ok) ↔ ((send_result ≡ ok) × (response ≡ some 200))
unfolding response_result evaluate_response_codes
response_result_iff send_result response = elim (ok-cases send_result) [
  | inl good ↦ rw good (answered response)
  | inr bad ↦
      (λ e. absurd (ground (arith, bad, e)), λ (good, _). absurd (ground (arith, bad, good)))
]

-- No data are in the state written after an update.
pub updated_ne_written : (successful : Bool) (s : DataState) → updated successful s ≢ written
unfolding updated
updated_ne_written true DataState.initial = λ e. absurd (ground (arith, e))
updated_ne_written true DataState.prepared = λ e. absurd (ground (arith, e))
updated_ne_written true DataState.written = λ e. absurd (ground (arith, e))
updated_ne_written true DataState.streaming = λ e. absurd (ground (arith, e))
updated_ne_written true DataState.sent = λ e. absurd (ground (arith, e))
updated_ne_written false DataState.initial = λ e. absurd (ground (arith, e))
updated_ne_written false DataState.prepared = λ e. absurd (ground (arith, e))
updated_ne_written false DataState.written = λ e. absurd (ground (arith, e))
updated_ne_written false DataState.streaming = λ e. absurd (ground (arith, e))
updated_ne_written false DataState.sent = λ e. absurd (ground (arith, e))

-- The addresses of two lists have none in common.
abbrev pub Apart : Cells → Cells → Type 0
Apart xs ys = (a : Ptr) → has a xs ≡ true → has a ys ≡ false

-- The store after a successful send operation.
pub record Delivered (streams : Bool) (xs ys : Cells) (states : States)
    (r : ErrorCode × Store × States × List ℕ) (g : Heap) : Type 0 where
  pub code : r.0 ≡ ok
  pub states_after : Updated true xs ys states r.2
  pub high : IsList g r.1.high (keep r.2 xs)
  pub low : IsList g r.1.low (keep r.2 ys)
  pub out : r.3 ≡ sent_items r.2 xs ++ sent_items r.2 ys
  pub cursor : r.1.high.current ≡ r.1.high.head
  pub streamable : r.1.streamable ≡ streams

-- If a send operation is not successful nothing is lost: the result is the error, no data are
-- destroyed, both lists hold the same nodes as before with their cursors at the head, and what was
-- written is prepared to be sent again.
pub evaluate_response_failure :
    (send_result : ErrorCode) (response : Option ℕ) (h : Heap) (store : Store) (states : States)
    (xs ys : Cells)
    → IsList h store.high xs
    → IsList h store.low ys
    → is_ok (response_result send_result response) ≡ false
    → (states' : States) × Updated false xs ys states states'
      × (evaluate_response send_result response store states h
          ≡ done
              (
                response_result send_result response,
                record store { high = list_reset store.high; low = list_reset store.low },
                states',
                [],
              )
              h)
unfolding evaluate_response
evaluate_response_failure send_result response h store states xs ys high low failed =
    let (states', all, run) = update_store_state-Updated false h store states xs ys high low in
    (states', all, ground (arith, run))

spare :
    (h g : Heap) (l : ListT) (xs : Cells)
    → IsList h l xs
    → ((a : Ptr) → has a xs ≡ true → g a ≡ h a)
    → IsList g l xs
spare h g l xs is same = record {
  links = frame h g null null xs is.links same;
  distinct = is.distinct;
  head_first = is.head_first;
  last_last = is.last_last;
  counted = is.counted;
}

has-keep :
    (states : States) (xs : Cells) (a : Ptr) → has a (keep states xs) ≡ true → has a xs ≡ true
unfolding keep
has-keep states [] a i = i
has-keep states ((p, d) ∷ xs) a i = ground (arith, has-keep states xs a, i)

Apart-sym : (xs ys : Cells) (a : Ptr) → Apart xs ys → has a ys ≡ true → has a xs ≡ false
Apart-sym xs ys a apart i = ground (arith, apart a, i)

cleared_both :
    (h : Heap) (store : Store) (states : States) (xs ys : Cells)
    → IsList h store.high xs
    → IsList h store.low ys
    → store.high.current ≡ store.high.head
    → store.low.current ≡ store.low.head
    → Apart xs ys
    → Returns
        (λ (store', out) g.
          IsList g store'.high (keep states xs)
          × IsList g store'.low (keep states ys)
          × (out ≡ sent_items states xs ++ sent_items states ys)
          × (store'.high.current ≡ store'.high.head)
          × (store'.streamable ≡ store.streamable))
        (clear_sent_data_from_store states store h)
unfolding clear_sent_data_from_store
cleared_both h store states xs ys high low c d apart =
    bind (clear_loop-keep states h store.high xs high c) λ (l, out) g first_list.
      bind
        (clear_loop-keep states g store.low ys
          (spare h g store.low ys low (λ a i. first_list.spared a (Apart-sym xs ys a apart i))) d)
        λ (l', more) g' second_list. returns (
          spare g g' l (keep states xs) first_list.list
              (λ a i. second_list.spared a (apart a (has-keep states xs a i))),
          second_list.list,
          cc (first_list.out, second_list.out),
          first_list.cursor,
          refl,
        )

-- If a send operation is successful, the data that were written to the request, and those that had
-- been sent before, leave the store and are destroyed, and all others stay in their order. The two
-- lists of the store share no node.
pub evaluate_response_success :
    (h : Heap) (store : Store) (states : States) (xs ys : Cells)
    → IsList h store.high xs
    → IsList h store.low ys
    → Apart xs ys
    → Returns
        (Delivered store.streamable xs ys states)
        (evaluate_response ok (some 200) store states h)
unfolding evaluate_response response_result list_reset
evaluate_response_success h store states xs ys high low apart =
    let (states', all, run) = update_store_state-Updated true h store states xs ys high low in
    rw run (
      bind
        (cleared_both h (record store { high = list_reset store.high; low = list_reset store.low })
          states' xs ys (IsList-moved h store.high xs _ high) (IsList-moved h store.low ys _ low)
          refl refl apart)
        λ (cleared, out) g (kept_high, kept_low, gone, at_head, streams). returns (record {
          code = refl;
          states_after = all;
          high = kept_high;
          low = kept_low;
          out = gone;
          cursor = at_head;
          streamable = streams;
        }))
