-- ===== src/Exchange/Fill/Result.antt =====
-- What `_exchange_fill_http_request` returns.
use iot_eclipse.Base.{
  ℕ, ◌≤◌, length, ◌≡◌, ◌≢◌, refl, sym, true, false, some, [], ◌∷◌, ◌++◌, arith, ◌∙◌, ap,
}
use iot_eclipse.Code.{ErrorCode, ok}
use iot_eclipse.LinkedList.{Heap, done, fault, out_of_fuel, null, and_then}
use iot_eclipse.LinkedList.Segment.{Cells, first, last_of, IsList, Linked-front}
use iot_eclipse.Store.{written, streaming, Store}
use iot_eclipse.Exchange.Update.{has_item}
use iot_eclipse.Exchange.Fill.{
  Adding, Ended, broken, returned, conclude, no_flags, fill_rounds, fill_http_request, fill_loop,
}
use iot_eclipse.Exchange.Fill.Items.{fill_items, on_heap, fill_loop-fill_items}
use iot_eclipse.Exchange.Fill.Ends.{fill_items-Ending}
use iot_eclipse.Exchange.Fill.Written.{Any, EndedWell, fill_items-EndedWell}
use iot_eclipse.Exchange.Fill.Steps.{Lawful, Steps}
use iot_eclipse.Exchange.Fill.Advance.{fill_items-Moves, conclude-Moves}

has_item-back : (xs ys : Cells) (a : ℕ) → has_item a ys ≡ true → has_item a (xs ++ ys) ≡ true
has_item-back [] ys a i = i
has_item-back ((p, d) ∷ xs) ys a i = ground (arith, has_item-back xs ys a i)

back_le : (xs ys : Cells) → length ys ≤ length (xs ++ ys)
back_le [] ys = omega arith
back_le (x ∷ xs) ys = omega (arith, back_le xs ys)

module _ {S : Type 0} (ops : Adding S) (laws : Lawful ops) (h : Heap) (store : Store) (s : S)
    (xs ys : Cells) (list : IsList h store.high (xs ++ ys))
    (cursor : store.high.current ≡ first null ys) (k : ℕ)
    (enough : fill_rounds (length (xs ++ ys)) ≤ k) (fixed : store.streamable ≡ false)
    (still : (a : ℕ) → ops.states s a ≢ streaming) where
  -- The loop on the items ends.
  filled_items :
      (ended : Ended S) × (fill_items ops store.streamable k (xs ++ ys) ys no_flags s ≡ some ended)
  filled_items = rw fixed (
      fill_items-Ending ops laws (xs ++ ys) k ys s (has_item-back xs ys) (back_le xs ys) still
        enough)

  fill_step :
      (ended : Ended S)
      → fill_items ops store.streamable k (xs ++ ys) ys no_flags s ≡ some ended
      → fill_http_request k ops store s h ≡ done (conclude ops ended) h
  unfolding fill_http_request
  fill_step ended e =
      let (_, back) = Linked-front h null null xs ys list.links in
      let loop : fill_loop ops store.streamable k store.high.head store.high.current no_flags s h
          ≡ done ended h =
        ap (λ p. fill_loop ops store.streamable k p store.high.current no_flags s h) list.head_first
        ∙ ap (λ p. fill_loop ops store.streamable k (first null (xs ++ ys)) p no_flags s h) cursor
        ∙ fill_loop-fill_items ops store.streamable h (xs ++ ys) list.links k (last_of null xs) ys
            no_flags s back
        ∙ ap (on_heap h) e in
      ap (λ r. and_then r (λ ended' g. done (conclude ops ended') g)) loop

  -- `_exchange_fill_http_request` ends on a store that is not streamable, whose cursor is inside its
  -- list and none of whose data is being streamed, if the operations on one datum keep their laws
  -- (`Lawful`): 2 n (n + 1) + n + 2 rounds are enough for n data. It changes no node, and each datum
  -- goes through some of the steps from initial to prepared, and from there to written, or to
  -- streaming and then to written.
  pub fill_http_request-Steps :
      (result : ErrorCode × S) × (fill_http_request k ops store s h ≡ done result h)
      × ((a : ℕ) → Steps (ops.states s a) (ops.states result.1 a))
  fill_http_request-Steps =
      let (ended, e) = filled_items in
      (
        conclude ops ended,
        fill_step ended e,
        conclude-Moves ops laws s ended
            (fill_items-Moves ops laws store.streamable k (xs ++ ys) ys no_flags s ended e),
      )

pub done_injective : {A : Type 0} {a b : A} {h g : Heap} → done a h ≡ done b g → a ≡ b
done_injective {a = a} e = ap (λ r. elim r [ fault ↦ a | out_of_fuel ↦ a | done x _ ↦ x ]) e

-- The code that follows the loop.
conclude-Any :
    {S : Type 0} (ops : Adding S) (laws : Lawful ops) (all : Cells) (ended : Ended S)
    → EndedWell ops laws all ended
    → (conclude ops ended).0 ≡ ok
    → Any ops laws all (conclude ops ended).1
unfolding conclude
conclude-Any ops laws all (returned code s) (failed, _) e = absurd (ground (arith, failed, e))
conclude-Any ops laws all (broken false s) holds e = absurd (ground (arith, e))
conclude-Any ops laws all (broken true s) holds e =
    let (a, i, was) = holds.some_written refl in
    (a, i, ap (λ states. states a) (laws.finalize s) ∙ was)

conclude-still :
    {S : Type 0} (ops : Adding S) (laws : Lawful ops) (all : Cells) (ended : Ended S)
    → EndedWell ops laws all ended
    → (a : ℕ) → ops.states (conclude ops ended).1 a ≢ streaming
unfolding conclude
conclude-still ops laws all (returned code s) (_, still) a = still a
conclude-still ops laws all (broken false s) holds a = holds.still a
conclude-still ops laws all (broken true s) holds a =
    λ e. holds.still a (sym (ap (λ states. states a) (laws.finalize s)) ∙ e)

-- For a store that is not streamable, whose cursor is inside its list and of whose data none is being
-- streamed, and for operations that keep their laws (`Lawful`), let `_exchange_fill_http_request` with
-- 2 n (n + 1) + n + 2 rounds or more for n data return a result. Then it began to stream none, and if
-- it returns MCL_OK some datum of the store's list is in the state written.
pub fill_http_request-Any :
    {S : Type 0} (ops : Adding S) (laws : Lawful ops) (h : Heap) (store : Store) (s : S)
    (xs ys : Cells) (k : ℕ) (result : ErrorCode × S)
    → IsList h store.high (xs ++ ys)
    → store.high.current ≡ first null ys
    → fill_rounds (length (xs ++ ys)) ≤ k
    → store.streamable ≡ false
    → ((a : ℕ) → ops.states s a ≢ streaming)
    → fill_http_request k ops store s h ≡ done result h
    → ((a : ℕ) → ops.states result.1 a ≢ streaming)
      × (result.0 ≡ ok
          → (a : ℕ) × (has_item a (xs ++ ys) ≡ true) × (ops.states result.1 a ≡ written))
fill_http_request-Any ops laws h store s xs ys k result list cursor enough fixed still e =
    let (ended, f) = filled_items ops laws h store s xs ys list cursor k enough fixed still in
    let same : conclude ops ended ≡ result =
      done_injective
        (sym (fill_step ops laws h store s xs ys list cursor k enough fixed still ended f) ∙ e) in
    let well : EndedWell ops laws (xs ++ ys) ended =
      fill_items-EndedWell ops laws (xs ++ ys) k ys no_flags s ended (has_item-back xs ys)
        (record { still = still; some_written = λ no_any. absurd (ground (arith, no_any)) })
        (ap (λ t. fill_items ops t k (xs ++ ys) ys no_flags s) (sym fixed) ∙ f) in
    (
      λ a now.
          conclude-still ops laws (xs ++ ys) ended well a (ap (λ r. ops.states r.1 a) same ∙ now),
      λ good.
          let (a, i, was) =
            conclude-Any ops laws (xs ++ ys) ended well (ap (λ r. r.0) same ∙ good) in
          (a, i, ap (λ r. ops.states r.1 a) (sym same) ∙ was),
    )
