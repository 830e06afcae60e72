-- ===== src/Exchange/Clear.antt =====
-- The data that were sent leave the store, and no others.
use iot_eclipse.Base.{
  ℕ, zero, suc, ◌+◌, ◌<◌, ◌≡◌, ◌≢◌, refl, true, false, ◌&&◌, not, some, List, [], ◌∷◌, ◌++◌, ◌==◌,
  arith, length, if◌then◌else◌, ◌∙◌, Bool-cases, inl, inr,
}
use mathlib.Core.List.{append_assoc}
use iot_eclipse.Code.{ErrorCode}
use iot_eclipse.LinkedList.{
  Ptr, null, node, Heap, Run, done, ListT, list_next, list_reset, load, and_then,
  list_remove_with_content,
}
use iot_eclipse.LinkedList.Segment.{
  Cells, has, first, IsList, load_lem, Returns, returns, bind, Linked-front, has-append,
}
use iot_eclipse.LinkedList.Remove.{Removed, list_remove-drop}
use iot_eclipse.Store.{is_sent, States, store_data_remove}
use iot_eclipse.Exchange.{clear_loop}

-- The nodes whose data stay.
unfoldable pub keep : States → Cells → Cells
keep states [] = []
keep states ((p, d) ∷ xs) = if is_sent (states d) then keep states xs else (p, d) ∷ keep states xs

-- The data that were sent. Items are not NULL.
unfoldable pub sent_items : States → Cells → List ℕ
sent_items states [] = []
sent_items states ((p, d) ∷ xs) =
    if is_sent (states d) && not (d == null) then d ∷ sent_items states xs else sent_items states xs

pub record Cleared (h : Heap) (states : States) (xs ys : Cells) (r : ListT × List ℕ) (g : Heap)
    : Type 0 where
  pub list : IsList g r.0 (xs ++ keep states ys)
  pub out : r.1 ≡ sent_items states ys
  pub cursor : r.0.current ≡ r.0.head
  pub spared : (x : Ptr) → has x (xs ++ ys) ≡ false → g x ≡ h x

-- One round of the loop.
module _ (k : ℕ) (states : States) (h : Heap) (l : ListT) (p before next : Ptr) (d : ℕ)
    (ne : p ≢ null) (here : h p ≡ some (node d before next)) (cursor : l.current ≡ p) where
  abbrev moved : ListT
  moved = record l { current = next }

  next_at : list_next l h ≡ done (p, moved) h
  unfolding list_next load
  next_at = ground arith

  keep_step :
      is_sent (states d) ≡ false → clear_loop (suc k) states l h ≡ clear_loop k states moved h
  unfolding clear_loop
  keep_step stays = ground (arith, next_at, load_lem h p ne here)

  remove_step :
      is_sent (states d) ≡ true
      → clear_loop (suc k) states l h
        ≡ and_then (list_remove_with_content moved p h) λ (code, l', out) g.
          and_then (clear_loop k states l' g) λ (end, rest) g'. done (end, out ++ rest) g'
  unfolding clear_loop store_data_remove
  remove_step goes = ground (arith, next_at, load_lem h p ne here)

-- The cursor is no part of what a list stands for.
pub IsList-moved :
    (h : Heap) (l : ListT) (xs : Cells) (p : Ptr)
    → IsList h l xs
    → IsList h (record l { current = p }) xs
IsList-moved h l xs p is = record {
  links = is.links;
  distinct = is.distinct;
  head_first = is.head_first;
  last_last = is.last_last;
  counted = is.counted;
}

end_step :
    (k : ℕ) (states : States) (h : Heap) (l : ListT)
    → l.current ≡ null
    → clear_loop (suc k) states l h ≡ done (list_reset l, []) h
unfolding clear_loop list_next list_reset
end_step k states h l e = ground (arith, e)

weaken :
    {A : Type 0} {P Q : A → Heap → Type 0} {r : Run A}
    → ((a : A) (g : Heap) → P a g → Q a g)
    → Returns P r
    → Returns Q r
weaken f (returns p) = returns (f _ _ p)

-- What the loop does behind a node that stays holds with that node before it.
Cleared-keep :
    (h : Heap) (states : States) (xs ys : Cells) (p : Ptr) (d : ℕ) (r : ListT × List ℕ) (g : Heap)
    → is_sent (states d) ≡ false
    → Cleared h states (xs ++ (p, d) ∷ []) ys r g
    → Cleared h states xs ((p, d) ∷ ys) r g
unfolding keep sent_items
Cleared-keep h states xs ys p d r g stays c = record {
  list = rw stays (rw (append_assoc xs ((p, d) ∷ []) (keep states ys)) at c.list);
  out = rw stays c.out;
  cursor = c.cursor;
  spared = λ x o. c.spared x (rw (append_assoc xs ((p, d) ∷ []) ys) o);
}

-- The same behind a node that was removed.
Cleared-remove :
    (h h' : Heap) (l l' : ListT) (states : States) (xs ys : Cells) (p : Ptr) (d : ℕ)
    (r : ListT × List ℕ) (g : Heap) (code : ErrorCode)
    → is_sent (states d) ≡ true
    → Removed h xs p d ys l (code, l') h'
    → Cleared h' states xs ys r g
    → Cleared h states xs ((p, d) ∷ ys) (r.0, (if not (d == null) then d ∷ [] else []) ++ r.1) g
unfolding keep sent_items
Cleared-remove h h' l l' states xs ys p d r g code goes before c = record {
  list = rw goes c.list;
  out = ground (arith, c.out);
  cursor = c.cursor;
  spared = λ x o.
      c.spared x (ground (arith, o, has-append x xs ((p, d) ∷ ys), has-append x xs ys))
      ∙ before.spared x o;
}

Cleared-end :
    (h : Heap) (states : States) (l : ListT) (xs : Cells)
    → IsList h l (xs ++ [])
    → Cleared h states xs [] (list_reset l, []) h
unfolding keep sent_items list_reset
Cleared-end h states l xs is = record {
  list = IsList-moved h l (xs ++ []) l.head is;
  out = refl;
  cursor = refl;
  spared = λ x o. refl;
}

-- The removal within a round: the list after it, and the data destroyed.
abbrev Gone : Heap → Cells → Ptr → ℕ → Cells → ListT → ErrorCode × ListT × List ℕ → Heap → Type 0
Gone h xs p d ys l (code, l', out) g =
    Removed h xs p d ys l (code, l') g × (out ≡ (if not (d == null) then d ∷ [] else []))

removal :
    (h : Heap) (l : ListT) (xs ys : Cells) (p : Ptr) (d : ℕ)
    → IsList h l (xs ++ (p, d) ∷ ys)
    → Returns (Gone h xs p d ys l) (list_remove_with_content l p h)
unfolding list_remove_with_content
removal h l xs ys p d is =
    let (_, (ne, here, _)) = Linked-front h null null xs ((p, d) ∷ ys) is.links in
    rw (load_lem h p ne here) (
      bind (list_remove-drop h l xs ys p d is)
        λ (code, l') g gone. returns (gone, rw gone.code refl))

clear_from :
    (k : ℕ) (states : States) (h : Heap) (l : ListT) (xs ys : Cells)
    → IsList h l (xs ++ ys)
    → l.current ≡ first null ys
    → length ys < k
    → Returns (Cleared h states xs ys) (clear_loop k states l h)
clear_from zero states h l xs ys is cursor fuel = absurd (omega arith)
clear_from (suc k) states h l xs [] is cursor fuel =
    rw (end_step k states h l cursor) (returns (Cleared-end h states l xs is))
clear_from (suc k) states h l xs ((p, d) ∷ ys) is cursor fuel =
    let (_, (ne, here, _)) = Linked-front h null null xs ((p, d) ∷ ys) is.links in
    elim (Bool-cases (is_sent (states d))) [
      | inr stays ↦ rw (keep_step k states h l p _ _ d ne here cursor stays) (
          weaken (λ r g. Cleared-keep h states xs ys p d r g stays)
            (clear_from k states h (record l { current = first null ys }) (xs ++ (p, d) ∷ []) ys
              (rw (append_assoc xs ((p, d) ∷ []) ys) (IsList-moved h l (xs ++ (p, d) ∷ ys) _ is))
              refl (omega arith)))
      | inl goes ↦
          let l' : ListT = record l { current = first null ys } in
          rw (remove_step k states h l p _ _ d ne here cursor goes) (
            bind (removal h l' xs ys p d (IsList-moved h l (xs ++ (p, d) ∷ ys) _ is))
              λ (code, l'', out) h' (gone, e).
                bind
                  (clear_from k states h' l'' xs ys gone.list (gone.cursor ∙ ground arith)
                    (omega arith))
                  λ (end, rest) g c. returns (
                    rw e
                      (Cleared-remove h h' l' l'' states xs ys p d (end, rest) g code goes gone c)))
    ]

-- From a list whose cursor is at its head, as the update leaves it, the loop ends and removes just
-- the nodes whose data are in the state sent: the others stay in their order, the data removed are
-- destroyed once each, the cursor is at the head again, and no address outside the list has changed.
pub clear_loop-keep :
    (states : States) (h : Heap) (l : ListT) (xs : Cells)
    → IsList h l xs
    → l.current ≡ l.head
    → Returns (Cleared h states [] xs) (clear_loop (l.count + 1) states l h)
clear_loop-keep states h l xs is cursor =
    clear_from (l.count + 1) states h l [] xs is (cursor ∙ is.head_first) (omega arith)
