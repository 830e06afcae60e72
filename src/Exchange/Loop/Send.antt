-- ===== src/Exchange/Loop/Send.antt =====
-- A round of the exchange leaves a store that can be exchanged again, and loses nothing.
use iot_eclipse.Base.{
  ℕ, ◌≡◌, refl, Bool, true, false, ◌||◌, Option, some, List, [], ◌++◌, ◌==◌, arith, ◌∙◌, ap, inl,
  inr,
}
use iot_eclipse.Code.{ErrorCode, ok, is_ok, ok-cases}
use iot_eclipse.LinkedList.{Heap, done, ListT, and_then}
use iot_eclipse.LinkedList.Segment.{Cells, IsList, Returns, returns, bind}
use iot_eclipse.Store.{written, is_sent, Store, States}
use iot_eclipse.Exchange.{evaluate_response, response_result}
use iot_eclipse.Exchange.Update.{has_item, Updated, updated}
use iot_eclipse.Exchange.Clear.{keep, sent_items}
use iot_eclipse.Exchange.Outcome.{
  evaluate_response_success, evaluate_response_failure, response_result_iff,
}
use iot_eclipse.Exchange.Fill.Steps.{Lawful}
use iot_eclipse.Exchange.Loop.{Client, send_request}
use iot_eclipse.Exchange.Loop.Round.{
  sent_out, Ready, After, among, among-append, length-keep_lt, kept_or_gone, Updated-still,
  failed_Ready, same_After, sent_out,
}

-- What a round takes from the functions that it calls: the operations on one datum keep their laws, and
-- the others leave the states of the data alone.
pub record Honest {S : Type 0} (client : Client S) : Type 0 where
  pub lawful : Lawful client.adding
  pub started : (s : S) → client.adding.states (client.start_request s).1 ≡ client.adding.states s
  pub correlated :
      (s : S) → client.adding.states (client.add_correlation_id s).1 ≡ client.adding.states s
  pub sent : (s : S) → client.adding.states (client.send s).1 ≡ client.adding.states s

pub Ready-same :
    (states states' : States) (h : Heap) (store : Store) (xs : Cells)
    → states' ≡ states
    → Ready states h store xs
    → Ready states' h store xs
Ready-same states states' h store xs e ready = rw e ready

keep_nil : (states : States) (h : Heap) (l : ListT) → IsList h l (keep states []) → IsList h l []
unfolding keep
keep_nil states h l is = is

pub sent_after :
    (xs : Cells) (states states' : States) (a : ℕ)
    → Updated true xs [] states states'
    → has_item a xs ≡ true
    → states a ≡ written
    → is_sent (states' a) ≡ true
unfolding updated
sent_after xs states states' a all i was = ground (arith, all a, i, was)

or_wider : (p q r t : Bool) → (p || q) ≡ true → r ≡ (q || t) → (p || r) ≡ true
or_wider p q r t h e = ground (arith, h, e)

nothing_lost_lem :
    (states : States) (xs : Cells) (out : List ℕ)
    → out ≡ sent_items states xs ++ sent_items states []
    → (a : ℕ) → (a == 0) ≡ false
    → has_item a xs ≡ true
    → (has_item a (keep states xs) || among a out) ≡ true
nothing_lost_lem states xs out e a ne i =
    or_wider (has_item a (keep states xs)) (among a (sent_items states xs)) (among a out)
      (among a (sent_items states [])) (kept_or_gone states xs a ne i)
      (ap (among a) e ∙ among-append a (sent_items states xs) (sent_items states []))

sent_gone :
    (states : States) (xs : Cells) (out : List ℕ) (a : ℕ)
    → out ≡ sent_items states xs ++ sent_items states []
    → among a (sent_items states xs) ≡ true
    → among a out ≡ true
sent_gone states xs out a e i =
    ap (among a) e
    ∙ among-append a (sent_items states xs) (sent_items states [])
    ∙ ap (λ t. t || among a (sent_items states [])) i

module _ {S : Type 0} (client : Client S) (honest : Honest client) (before : States) where
  abbrev states : S → States
  states s = client.adding.states s

  pub send_failed :
      (store : Store) (s : S) (code : ErrorCode) (h : Heap)
      → is_ok code ≡ false
      → send_request client store (code, s) h ≡ done (code, store, s, []) h
  unfolding send_request
  send_failed store s code h bad = ground (arith, bad)

  send_ok :
      (store : Store) (s : S) (h : Heap)
      → let ((send_result, response), s') = client.send s in
        send_request client store (ok, s) h
        ≡ and_then
            (evaluate_response send_result response store (states s') h)
            λ (result, store', states', out) g.
              done (result, store', client.adding.with_states states' s', out) g
  unfolding send_request
  send_ok store s h = refl

  -- The response says that the data have arrived.
  delivered_After :
      (h : Heap) (store : Store) (s : S) (xs : Cells)
      → Ready (states s) h store xs
      → (a : ℕ) × (has_item a xs ≡ true) × (states s a ≡ written)
      → ((b : ℕ) → before b ≡ written → states s b ≡ written)
      → Returns (After before states xs) (
          and_then
            (evaluate_response ok (some 200) store (states s) h)
            λ (result, store', states', out) g.
              done (result, store', client.adding.with_states states' s, out) g)
  delivered_After h store s xs ready (a, i, was) held =
      bind (evaluate_response_success h store (states s) xs [] ready.list ready.low (λ b j. refl))
        λ (result, store', states', out) g d.
          let now = honest.lawful.states_with states' s in
          let gone : is_sent (states' a) ≡ true =
            sent_after xs (states s) states' a d.states_after i was in
          returns (record {
            left = keep states' xs;
            ready = Ready-same states' _ g store' (keep states' xs) now (record {
              list = d.high;
              low = keep_nil states' g store'.low d.low;
              cursor = d.cursor;
              fixed = d.streamable ∙ ready.fixed;
              still = Updated-still true xs (states s) states' d.states_after ready.still;
            });
            fewer = λ _. length-keep_lt states' xs a i gone;
            no_more = omega (arith, length-keep_lt states' xs a i gone);
            nothing_lost = nothing_lost_lem states' xs out d.out;
            written_gone = λ b ne j earlier _. sent_gone states' xs out b d.out (
                sent_out states' xs b ne j
                  (sent_after xs (states s) states' b d.states_after j (held b earlier)));
          })

  -- The response says that they have not.
  refused_After :
      (h : Heap) (store : Store) (s : S) (xs : Cells) (send_result : ErrorCode)
      (response : Option ℕ)
      → Ready (states s) h store xs
      → is_ok (response_result send_result response) ≡ false
      → Returns (After before states xs) (
          and_then
            (evaluate_response send_result response store (states s) h)
            λ (result, store', states', out) g.
              done (result, store', client.adding.with_states states' s, out) g)
  refused_After h store s xs send_result response ready bad =
      let (states', all, run) =
        evaluate_response_failure send_result response h store (states s) xs [] ready.list ready.low
          bad in
      let now = honest.lawful.states_with states' s in
      rw run (
        returns {end = h} (
          same_After before states xs _ _ (client.adding.with_states states' s) h bad (
            Ready-same states' _ h _ xs now
              (failed_Ready h store (states s) states' xs ready all))))

  evaluated_After :
      (h : Heap) (store : Store) (s : S) (xs : Cells) (send_result : ErrorCode)
      (response : Option ℕ)
      → Ready (states s) h store xs
      → (a : ℕ) × (has_item a xs ≡ true) × (states s a ≡ written)
      → ((b : ℕ) → before b ≡ written → states s b ≡ written)
      → Returns (After before states xs) (
          and_then
            (evaluate_response send_result response store (states s) h)
            λ (result, store', states', out) g.
              done (result, store', client.adding.with_states states' s, out) g)
  evaluated_After h store s xs send_result response ready any held =
      elim (ok-cases (response_result send_result response)) [
        | inr bad ↦ refused_After h store s xs send_result response ready bad
        | inl good ↦
            let (sent, answered) = (response_result_iff send_result response).0 good in
            rw (sent, answered) (delivered_After h store s xs ready any held)
      ]

  pub send_request-After :
      (h : Heap) (store : Store) (s : S) (xs : Cells) (code : ErrorCode)
      → Ready (states s) h store xs
      → (code ≡ ok → (a : ℕ) × (has_item a xs ≡ true) × (states s a ≡ written))
      → ((b : ℕ) → before b ≡ written → states s b ≡ written)
      → Returns (After before states xs) (send_request client store (code, s) h)
  send_request-After h store s xs code ready any held = elim (ok-cases code) [
    | inr bad ↦
        rw (send_failed store s code h bad)
          (returns (same_After before states xs code store s h bad ready))
    | inl good ↦
        let ((send_result, response), s') = client.send s in
        let same = honest.sent s in
        let (a, i, was) = any good in
        rw (good, send_ok store s h)
          (evaluated_After h store s' xs send_result response
            (Ready-same (states s) (states s') h store xs same ready)
            (a, i, ap (λ f. f a) same ∙ was) (λ b earlier. ap (λ f. f b) same ∙ held b earlier))
  ]
