-- ===== src/Exchange/Loop/Settled.antt =====
-- `http_processor_exchange` ends, loses nothing, and leaves an empty store if it succeeds.
use iot_eclipse.Base.{
  ℕ, zero, suc, ◌≤◌, ◌<◌, ◌≡◌, refl, Bool, true, false, ◌||◌, [], ◌∷◌, ◌++◌, ◌==◌, arith, ◌∙◌, ap,
  inl, inr, ◌⊎◌, length, ltb, ◌^◌,
}
use iot_eclipse.Code.{store_is_empty, ok, is_ok, ok-cases}
use iot_eclipse.LinkedList.{Heap, Run, done, and_then}
use iot_eclipse.LinkedList.Segment.{Cells, Returns, returns, bind}
use iot_eclipse.Store.{store_get_data_count, Store, States}
use iot_eclipse.Exchange.Update.{has_item}
use iot_eclipse.Exchange.Outcome.{}
use iot_eclipse.Exchange.Loop.{Client, Report, exchange_round, exchange_loop, exchange}
use iot_eclipse.Exchange.Loop.Send.{Honest}
use iot_eclipse.Exchange.Loop.Filled.{exchange_round-After}
use iot_eclipse.Exchange.Loop.Round.{Ready, After, among, among-append}

module _ {S : Type 0} (client : Client S) (honest : Honest client) where
  abbrev states : S → States
  states s = client.adding.states s

  -- The end of the exchange: the store is ready as before, a datum that is not NULL is still in it or
  -- has been destroyed, and the store is empty if the code is MCL_OK.
  pub record Final (xs : Cells) (r : Report S) (g : Heap) : Type 0 where
    pub left : Cells
    pub ready : Ready (states r.2) g r.1 left
    pub empty : r.0 ≡ ok → left ≡ []
    pub nothing_lost :
        (a : ℕ) → (a == 0) ≡ false → has_item a xs ≡ true → (has_item a left || among a r.3) ≡ true

  count_lem :
      (states : States) (h : Heap) (store : Store) (xs : Cells)
      → Ready states h store xs
      → length xs < 2 ^ 64
      → store_get_data_count store ≡ length xs
  unfolding store_get_data_count
  count_lem states h store xs ready small = omega (arith, ready.list.counted, ready.low.counted)

  no_cells : (xs : Cells) → length xs ≡ 0 → xs ≡ []
  no_cells [] e = refl
  no_cells (x ∷ xs) e = absurd (omega arith)

  zero_or_more : (n : ℕ) → (n ≡ 0) ⊎ (0 < n)
  zero_or_more n = omega arith

  -- A round and the rest of the loop.
  rest_lost :
      (p q r t : Bool) → (p || q) ≡ true → (p ≡ true → (r || t) ≡ true) → (r || (q || t)) ≡ true
  rest_lost p q r t h f = ground (arith, h, f)

  Final-After :
      (before : States) (xs : Cells) (r r' : Report S) (g g' : Heap)
      (after : After before states xs r g)
      → Final after.left r' g'
      → Final xs (r'.0, r'.1, r'.2, r.3 ++ r'.3) g'
  Final-After before xs r r' g g' after final = record {
    left = final.left;
    ready = final.ready;
    empty = final.empty;
    nothing_lost = λ a ne i. rw (among-append a r.3 r'.3) (
        rest_lost (has_item a after.left) (among a r.3) (has_item a final.left) (among a r'.3)
          (after.nothing_lost a ne i) (final.nothing_lost a ne));
  }

  Final-stop :
      (before : States) (xs : Cells) (r : Report S) (g : Heap) (after : After before states xs r g)
      → (r.0 ≡ ok → length after.left ≡ 0)
      → Final xs r g
  Final-stop before xs r g after empty = record {
    left = after.left;
    ready = after.ready;
    empty = λ e. no_cells after.left (empty e);
    nothing_lost = after.nothing_lost;
  }

  -- What the loop does after a round.
  abbrev continue : ℕ → Report S → Heap → Run (Report S)
  continue k (code, store', s', out) g = elim (is_ok code) [
    | false ↦ done (code, store', s', out) g
    | true ↦ elim (ltb 0 (store_get_data_count store')) [
      | false ↦ done (code, store', s', out) g
      | true ↦
          and_then (exchange_loop client k store' s' g)
            λ (code', store'', s'', more) g'. done (code', store'', s'', out ++ more) g'
    ]
  ]

  loop_step :
      (k : ℕ) (store : Store) (s : S) (h : Heap)
      → exchange_loop client (suc k) store s h
        ≡ and_then (exchange_round client store s h) (continue k)
  unfolding exchange_loop
  loop_step k store s h = refl

  continue_bad : (k : ℕ) (r : Report S) (g : Heap) → is_ok r.0 ≡ false → continue k r g ≡ done r g
  continue_bad k r g bad = ground (arith, bad)

  continue_empty :
      (k : ℕ) (r : Report S) (g : Heap)
      → is_ok r.0 ≡ true
      → store_get_data_count r.1 ≡ 0
      → continue k r g ≡ done r g
  continue_empty k r g good e = ground (arith, good, e)

  continue_more :
      (k : ℕ) (r : Report S) (g : Heap)
      → is_ok r.0 ≡ true
      → 0 < store_get_data_count r.1
      → continue k r g
        ≡ and_then
            (exchange_loop client k r.1 r.2 g)
            λ (code', store'', s'', more) g'. done (code', store'', s'', r.3 ++ more) g'
  continue_more k r g good more = ground (arith, good, more)

  exchange_loop-Final :
      (k : ℕ) (h : Heap) (store : Store) (s : S) (xs : Cells)
      → Ready (states s) h store xs
      → 0 < k
      → length xs ≤ k
      → length xs < 2 ^ 64
      → Returns (Final xs) (exchange_loop client k store s h)
  exchange_loop-Final zero h store s xs ready pos enough small = absurd (omega arith)
  exchange_loop-Final (suc k) h store s xs ready pos enough small = rw (loop_step k store s h) (
      bind (exchange_round-After client honest h store s xs ready) λ r g after.
        let count =
          count_lem (states r.2) g r.1 after.left after.ready (omega (arith, after.no_more)) in
        elim (ok-cases r.0) [
          | inr bad ↦ rw (continue_bad k r g bad) (
              returns {result = r} {end = g}
                (Final-stop (states s) xs r g after (λ e. absurd (ground (arith, bad, e)))))
          | inl good ↦ elim (zero_or_more (length after.left)) [
            | inl none_left ↦ rw (continue_empty k r g (ap is_ok good) (count ∙ none_left)) (
                returns {result = r} {end = g}
                  (Final-stop (states s) xs r g after (λ _. none_left)))
            | inr more ↦ rw (continue_more k r g (ap is_ok good) (omega (arith, more, count))) (
                bind
                  (exchange_loop-Final k g r.1 r.2 after.left after.ready
                    (omega (arith, more, after.fewer good)) (omega (arith, after.fewer good))
                    (omega (arith, after.no_more)))
                  λ r' g' final. returns (Final-After (states s) xs r r' g g' after final))
          ]
        ])

  empty_step :
      (h : Heap) (store : Store) (s : S)
      → store_get_data_count store ≡ 0
      → exchange client store s h ≡ done (store_is_empty, store, s, []) h
  unfolding exchange
  empty_step h store s e = ground (arith, e)

  full_step :
      (h : Heap) (store : Store) (s : S)
      → 0 < store_get_data_count store
      → exchange client store s h ≡ exchange_loop client (store_get_data_count store) store s h
  unfolding exchange
  full_step h store s more = ground (arith, more)

  -- `http_processor_exchange` ends on a store that is not streamable, whose data, fewer than 2 ^ 64,
  -- stand in its list of high priority with the cursor at the head, and none of whose data is being
  -- streamed, for a client whose operations on one datum keep their laws and whose other functions
  -- leave the states of the data alone (`Honest`): the loop takes no more rounds than there are data.
  -- Afterwards the store is as it must be for another exchange, each datum that is not NULL is still
  -- in it or has been destroyed, and if the code is MCL_OK the store is empty.
  pub exchange-Final :
      (h : Heap) (store : Store) (s : S) (xs : Cells)
      → Ready (states s) h store xs
      → length xs < 2 ^ 64
      → Returns (Final xs) (exchange client store s h)
  exchange-Final h store s xs ready small =
      let count = count_lem (states s) h store xs ready small in
      elim (zero_or_more (length xs)) [
        | inl none_there ↦ rw (empty_step h store s (count ∙ none_there)) (
            returns (record {
              left = xs;
              ready = ready;
              empty = λ e. absurd (ground (arith, e));
              nothing_lost = λ a ne i. ground (arith, i);
            }))
        | inr more ↦ rw (full_step h store s (omega (arith, count, more))) (
            exchange_loop-Final (store_get_data_count store) h store s xs ready
              (omega (arith, count, more)) (omega (arith, count)) small)
      ]
