-- ===== src/Exchange/Loop/Lost.antt =====
-- A datum whose request could not be completed.
use iot_eclipse.Base.{Bool, ◌==◌, ℕ, ◌≡◌, sym, true, false, [], arith, ◌∙◌, ap}
use iot_eclipse.Code.{ErrorCode, ok, is_ok}
use iot_eclipse.LinkedList.{Run, Heap, done}
use iot_eclipse.LinkedList.Segment.{Cells, Returns, returns}
use iot_eclipse.Store.{written, Store}
use iot_eclipse.Exchange.Update.{has_item}
use iot_eclipse.Exchange.Outcome.{}
use iot_eclipse.Exchange.Fill.Result.{done_injective}
use iot_eclipse.Exchange.Loop.{Client, fill_request, exchange_round}
use iot_eclipse.Exchange.Loop.Send.{send_failed, Honest, Ready-same}
use iot_eclipse.Exchange.Fill.{Adding, turn, advance, Flags, iterate, try_add, after_prepare}
use iot_eclipse.Exchange.Loop.Filled.{exchange_round-After, fill_request-Filled, round_ok}
use iot_eclipse.Exchange.Loop.Round.{among, Ready}

weaken :
    {A : Type 0} {P Q : A → Heap → Type 0} {r : Run A}
    → ((a : A) (g : Heap) → P a g → Q a g)
    → Returns P r
    → Returns Q r
weaken f (returns p) = returns (f _ _ p)

-- A datum that has been written is passed over.
skip :
    {S : Type 0} (ops : Adding S) (streamable : Bool) (d : ℕ) (flags : Flags) (s : S)
    → ops.states s d ≡ written
    → turn ops streamable d flags s ≡ advance flags s
unfolding turn after_prepare try_add iterate
skip ops streamable d flags s was = ground (arith, was)

-- Let the store be one that can be exchanged (`Ready`), and the client one whose operations on one
-- datum keep their laws and whose other functions leave the states of the data alone (`Honest`). Let a
-- request be initialized, and its filling, or the correlation id, return an error after a datum `d`
-- of the store's list that is not NULL has been marked as written. Then the round returns the error
-- with the world as the filling left it, and destroys nothing. A turn of the filling at `d` in that
-- world passes it over, and if the next round returns MCL_OK it has destroyed `d`.
pub exchange_round-lost :
    {S : Type 0} (client : Client S) (honest : Honest client) (h : Heap) (store : Store) (s : S)
    (xs : Cells) (r : ErrorCode × S) (d : ℕ)
    → Ready (client.adding.states s) h store xs
    → is_ok (client.start_request s).0 ≡ true
    → fill_request client store (client.start_request s).1 h ≡ done r h
    → is_ok r.0 ≡ false
    → has_item d xs ≡ true
    → (d == 0) ≡ false
    → client.adding.states r.1 d ≡ written
    → (exchange_round client store s h ≡ done (r.0, store, r.1, []) h)
      × ((flags : Flags) → turn client.adding store.streamable d flags r.1 ≡ advance flags r.1)
      × Returns (λ r' g. r'.0 ≡ ok → among d r'.3 ≡ true) (exchange_round client store r.1 h)
exchange_round-lost client honest h store s xs r d ready good e bad i ne was =
    let states = client.adding.states in
    let s' = (client.start_request s).1 in
    let ready' = Ready-same (states s) (states s') h store xs (honest.started s) ready in
    let (r0, e0, filled) = fill_request-Filled client honest h store s' xs ready' in
    let same : r0 ≡ r = done_injective (sym e0 ∙ e) in
    let again : Ready (states r.1) h store xs = record {
      list = ready.list;
      low = ready.low;
      cursor = ready.cursor;
      fixed = ready.fixed;
      still = λ a now. filled.still a (ap (λ t. states t.1 a) same ∙ now);
    } in
    (
      round_ok client honest store s h r good e
          ∙ send_failed client honest (states s) store r.1 r.0 h bad,
      λ flags. skip client.adding store.streamable d flags r.1 was,
      weaken (λ r' g after. after.written_gone d ne i was)
          (exchange_round-After client honest h store r.1 xs again),
    )
