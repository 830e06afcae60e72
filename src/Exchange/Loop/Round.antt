-- ===== src/Exchange/Loop/Round.antt =====
-- A round of the exchange: what it does to the store.
use iot_eclipse.Base.{
  ℕ, ◌≤◌, ◌<◌, ◌≡◌, ◌≢◌, refl, sym, Bool, true, false, ◌||◌, List, [], ◌∷◌, ◌++◌, ◌==◌, arith, ◌∙◌,
  ap, Bool-cases, inl, inr, ==_iff, length,
}
use iot_eclipse.Code.{ErrorCode, ok, is_ok}
use iot_eclipse.LinkedList.{Heap, list_reset}
use iot_eclipse.LinkedList.Segment.{Cells, IsList}
use iot_eclipse.Store.{written, DataState, streaming, is_sent, Store, States}
use iot_eclipse.Exchange.Update.{has_item, Updated, updated}
use iot_eclipse.Exchange.Clear.{keep, sent_items, IsList-moved}
use iot_eclipse.Exchange.Outcome.{}
use iot_eclipse.Exchange.Loop.{Report}

length-keep_le : (states : States) (xs : Cells) → length (keep states xs) ≤ length xs
unfolding keep
length-keep_le states [] = omega arith
length-keep_le states ((p, d) ∷ xs) = ground (arith, length-keep_le states xs)

pub length-keep_lt :
    (states : States) (xs : Cells) (a : ℕ)
    → has_item a xs ≡ true
    → is_sent (states a) ≡ true
    → length (keep states xs) < length xs
unfolding keep
length-keep_lt states [] a i gone = absurd (ground (arith, i))
length-keep_lt states ((p, d) ∷ xs) a i gone = elim (Bool-cases (a == d)) [
  | inl same ↦
      let out : is_sent (states d) ≡ true =
        ap (λ b. is_sent (states b)) (sym ((==_iff a d).0 same)) ∙ gone in
      ground (arith, out, length-keep_le states xs)
  | inr other ↦ ground (arith, length-keep_lt states xs a (ground (arith, i, other)) gone)
]

abbrev pub among : ℕ → List ℕ → Bool
among a [] = false
among a (b ∷ bs) = (a == b) || among a bs

pub among-append : (a : ℕ) (bs cs : List ℕ) → among a (bs ++ cs) ≡ (among a bs || among a cs)
among-append a [] cs = refl
among-append a (b ∷ bs) cs = ground (arith, among-append a bs cs)

-- A datum that is not NULL stays or is destroyed.
pub kept_or_gone :
    (states : States) (xs : Cells) (a : ℕ)
    → (a == 0) ≡ false
    → has_item a xs ≡ true
    → (has_item a (keep states xs) || among a (sent_items states xs)) ≡ true
unfolding keep sent_items
kept_or_gone states [] a ne i = absurd (ground (arith, i))
kept_or_gone states ((p, d) ∷ xs) a ne i = elim (Bool-cases (a == d)) [
  | inl same ↦ ground (arith, same, ne, (==_iff a d).0 same)
  | inr other ↦ ground (arith, other, ne, i, kept_or_gone states xs a ne)
]

-- A store that can be exchanged: its data stand in one list, whose cursor is at its head, it is not
-- streamable, and none of its data is being streamed.
pub record Ready (states : States) (h : Heap) (store : Store) (xs : Cells) : Type 0 where
  pub list : IsList h store.high xs
  pub low : IsList h store.low []
  pub cursor : store.high.current ≡ store.high.head
  pub fixed : store.streamable ≡ false
  pub still : (a : ℕ) → states a ≢ streaming

updated_still :
    (successful : Bool) (s : DataState) → s ≢ streaming → updated successful s ≢ streaming
unfolding updated
updated_still true DataState.initial ne = ne
updated_still true DataState.prepared ne = ne
updated_still true DataState.written ne = λ e. absurd (ground (arith, e))
updated_still true DataState.streaming ne = ne
updated_still true DataState.sent ne = ne
updated_still false DataState.initial ne = ne
updated_still false DataState.prepared ne = ne
updated_still false DataState.written ne = λ e. absurd (ground (arith, e))
updated_still false DataState.streaming ne = ne
updated_still false DataState.sent ne = ne

pub Updated-still :
    (successful : Bool) (xs : Cells) (states states' : States)
    → Updated successful xs [] states states'
    → ((a : ℕ) → states a ≢ streaming)
    → (a : ℕ) → states' a ≢ streaming
Updated-still successful xs states states' all still a now =
    absurd (ground (arith, all a, updated_still successful (states a) (still a), still a, now))

pub failed_Ready :
    (h : Heap) (store : Store) (states states' : States) (xs : Cells)
    → Ready states h store xs
    → Updated false xs [] states states'
    → Ready states' h (record store { high = list_reset store.high; low = list_reset store.low }) xs
unfolding list_reset
failed_Ready h store states states' xs ready all = record {
  list = IsList-moved h store.high xs store.high.head ready.list;
  low = IsList-moved h store.low [] store.low.head ready.low;
  cursor = refl;
  fixed = ready.fixed;
  still = Updated-still false xs states states' all ready.still;
}

-- What a round does to the store: it is ready as before, a datum that is not NULL stays or is
-- destroyed, and if the code is MCL_OK fewer data are left, and those are destroyed that were in the
-- state written before.
pub record After {S : Type 0} (before : States) (states : S → States) (xs : Cells) (r : Report S)
    (g : Heap) : Type 0 where
  pub left : Cells
  pub ready : Ready (states r.2) g r.1 left
  pub fewer : r.0 ≡ ok → length left < length xs
  pub no_more : length left ≤ length xs
  pub nothing_lost :
      (a : ℕ) → (a == 0) ≡ false → has_item a xs ≡ true → (has_item a left || among a r.3) ≡ true
  pub written_gone :
      (a : ℕ)
      → (a == 0) ≡ false
      → has_item a xs ≡ true
      → before a ≡ written
      → r.0 ≡ ok
      → among a r.3 ≡ true

pub same_After :
    {S : Type 0} (before : States) (states : S → States) (xs : Cells) (code : ErrorCode)
    (store : Store) (s : S) (h : Heap)
    → is_ok code ≡ false
    → Ready (states s) h store xs
    → After before states xs (code, store, s, []) h
same_After before states xs code store s h bad ready = record {
  left = xs;
  ready = ready;
  fewer = λ e. absurd (ground (arith, e, bad));
  no_more = omega arith;
  nothing_lost = λ a ne i. ground (arith, i);
  written_gone = λ a ne i was e. absurd (ground (arith, e, bad));
}

pub sent_out :
    (states : States) (xs : Cells) (a : ℕ)
    → (a == 0) ≡ false
    → has_item a xs ≡ true
    → is_sent (states a) ≡ true
    → among a (sent_items states xs) ≡ true
unfolding sent_items
sent_out states [] a ne i gone = absurd (ground (arith, i))
sent_out states ((p, d) ∷ xs) a ne i gone = elim (Bool-cases (a == d)) [
  | inl same ↦
      let e = (==_iff a d).0 same in
      let out : is_sent (states d) ≡ true = ap (λ b. is_sent (states b)) (sym e) ∙ gone in
      ground (arith, same, ne, e, out)
  | inr other ↦ ground (arith, other, ne, i, gone, sent_out states xs a ne)
]
