-- ===== src/Exchange/Update.antt =====
-- After a send operation no data of the store is in the state that says it is on its way.
use iot_eclipse.Base.{
  ℕ, zero, suc, ◌+◌, ◌<◌, ◌≡◌, refl, Bool, true, false, ◌||◌, some, [], ◌∷◌, ◌==◌, arith, length,
  if◌then◌else◌, Bool-cases, inl, inr, ==_iff, ◌≢◌,
}
use iot_eclipse.LinkedList.{Ptr, null, Node, Heap, done, ListT, list_next, list_reset, load}
use iot_eclipse.LinkedList.Segment.{Cells, first, Linked, IsList, load_lem}
use iot_eclipse.Store.{DataState, prepared, written, sent, Store, States, store_data_set_state}
use iot_eclipse.Exchange.{update_store_data_state, update_loop, update_store_state}

-- What becomes of a state.
unfoldable pub updated : Bool → DataState → DataState
updated successful written = if successful then sent else prepared
updated successful s = s

abbrev pub has_item : ℕ → Cells → Bool
has_item a [] = false
has_item a ((p, d) ∷ xs) = (a == d) || has_item a xs

-- The states after a list has been gone through.
unfoldable pub after : Bool → Cells → States → States
after successful [] states = states
after successful ((p, d) ∷ xs) states =
    after successful xs (update_store_data_state successful d states)

update_self :
    (successful : Bool) (d : ℕ) (s : DataState) (states : States)
    → states d ≡ s
    → update_store_data_state successful d states d
      ≡ (if d == d then updated successful (states d) else states d)
unfolding update_store_data_state updated store_data_set_state
update_self successful d DataState.initial states e = ground (arith, e)
update_self successful d DataState.prepared states e = ground (arith, e)
update_self successful d DataState.written states e = ground (arith, e)
update_self successful d DataState.streaming states e = ground (arith, e)
update_self successful d DataState.sent states e = ground (arith, e)

update_other :
    (successful : Bool) (d : ℕ) (s : DataState) (states : States) (a : ℕ)
    → (a == d) ≡ false
    → states d ≡ s
    → update_store_data_state successful d states a ≡ states a
unfolding update_store_data_state store_data_set_state
update_other successful d DataState.initial states a ne e = ground (arith, e)
update_other successful d DataState.prepared states a ne e = ground (arith, e)
update_other successful d DataState.written states a ne e = ground (arith, e)
update_other successful d DataState.streaming states a ne e = ground (arith, e)
update_other successful d DataState.sent states a ne e = ground (arith, e)

update_one :
    (successful : Bool) (d : ℕ) (states : States) (a : ℕ)
    → update_store_data_state successful d states a
      ≡ (if a == d then updated successful (states a) else states a)
update_one successful d states a = elim (Bool-cases (a == d)) [
  | inl same ↦ rw ((==_iff a d).0 same) (update_self successful d (states d) states refl)
  | inr other ↦ rw other (update_other successful d (states d) states a other refl)
]

updated_twice :
    (successful : Bool) (s : DataState)
    → updated successful (updated successful s) ≡ updated successful s
unfolding updated
updated_twice true DataState.initial = refl
updated_twice true DataState.prepared = refl
updated_twice true DataState.written = refl
updated_twice true DataState.streaming = refl
updated_twice true DataState.sent = refl
updated_twice false DataState.initial = refl
updated_twice false DataState.prepared = refl
updated_twice false DataState.written = refl
updated_twice false DataState.streaming = refl
updated_twice false DataState.sent = refl

pub after-item :
    (successful : Bool) (xs : Cells) (states : States) (a : ℕ)
    → after successful xs states a
      ≡ (if has_item a xs then updated successful (states a) else states a)
unfolding after
after-item successful [] states a = refl
after-item successful ((p, d) ∷ xs) states a = ground (
  arith,
  after-item successful xs (update_store_data_state successful d states) a,
  update_one successful d states a,
  updated_twice successful (states a),
)

pub next_lem :
    (h : Heap) (l : ListT) (p : Ptr) {n : Node}
    → p ≢ null
    → h p ≡ some n
    → list_next (record l { current = p }) h ≡ done (p, record l { current = n.next }) h
unfolding list_next load
next_lem h l p ne here = ground arith

update_from :
    (k : ℕ) (successful : Bool) (h : Heap) (l : ListT) (states : States) (before : Ptr) (ys : Cells)
    → Linked h before null ys
    → length ys < k
    → update_loop k successful (record l { current = first null ys }) states h
      ≡ done (list_reset l, after successful ys states) h
unfolding update_loop after list_next list_reset
update_from zero successful h l states before ys links fuel = absurd (omega arith)
update_from (suc k) successful h l states before [] links fuel = refl
update_from (suc k) successful h l states before ((p, d) ∷ ys) (ne, here, rest) fuel = ground (
  arith,
  next_lem h l p ne here,
  load_lem h p ne here,
  update_from k successful h l (update_store_data_state successful d states) p ys rest,
)

update_reset :
    (successful : Bool) (h : Heap) (l : ListT) (states : States) (xs : Cells)
    → IsList h l xs
    → update_loop (l.count + 1) successful (list_reset l) states h
      ≡ done (list_reset l, after successful xs states) h
unfolding list_reset
update_reset successful h l states xs is = rw is.head_first (
    update_from (l.count + 1) successful h (record l { head = first null xs }) states null xs
      is.links (omega arith))

-- The states of the data of two lists after an update.
abbrev pub Updated : Bool → Cells → Cells → States → States → Type 0
Updated successful xs ys states states' =
    (a : ℕ)
    → states' a
      ≡ (if has_item a xs || has_item a ys then updated successful (states a) else states a)

-- `_exchange_update_store_state` goes through both lists once, whole, and changes no node: all data
-- of the store that were written become sent, or prepared if the send operation failed, all other
-- states stay, and the cursors of both lists are at their heads.
pub update_store_state-Updated :
    (successful : Bool) (h : Heap) (store : Store) (states : States) (xs ys : Cells)
    → IsList h store.high xs
    → IsList h store.low ys
    → (states' : States) × Updated successful xs ys states states'
      × (update_store_state successful store states h
          ≡ done
              (record store { high = list_reset store.high; low = list_reset store.low }, states')
              h)
unfolding update_store_state
update_store_state-Updated successful h store states xs ys high low = (
  after successful ys (after successful xs states),
  λ a. ground (
    arith,
    after-item successful ys (after successful xs states) a,
    after-item successful xs states a,
    updated_twice successful (states a),
  ),
  ground (
    arith,
    update_reset successful h store.high states xs high,
    update_reset successful h store.low (after successful xs states) ys low,
  ),
)
