-- ===== src/LinkedList/Walk.antt =====
-- The functions that walk the whole list: `list_exist`, and the two that destroy it.
use iot_eclipse.Base.{
  ℕ, zero, suc, ◌+◌, ◌<◌, ◌≡◌, refl, Bool, false, not, ◌&&◌, Option, none, some, List, [], ◌∷◌,
  ◌==◌, arith, length, if◌then◌else◌,
}
use iot_eclipse.Code.{ok, fail}
use iot_eclipse.LinkedList.{
  Ptr, null, Heap, write, done, ListT, list_exist, exist_loop, list_destroy_with_content,
  destroy_loop,
}
use iot_eclipse.LinkedList.Segment.{
  Cells, has, Distinct, first, Linked, IsList, Returns, returns, bind, frame-write, load_lem,
  free_lem,
}

-- The first item that is accepted.
unfoldable pub find_item : (ℕ → Bool) → Cells → Option ℕ
find_item accepts [] = none
find_item accepts ((p, d) ∷ xs) = if accepts d then some d else find_item accepts xs

exist_loop-find_item :
    (k : ℕ) (accepts : ℕ → Bool) (h : Heap) (before : Ptr) (xs : Cells)
    → Linked h before null xs
    → length xs < k
    → exist_loop k accepts (first null xs) h ≡ done (find_item accepts xs) h
unfolding exist_loop find_item
exist_loop-find_item zero accepts h before xs links fuel = absurd (omega arith)
exist_loop-find_item (suc k) accepts h before [] links fuel = refl
exist_loop-find_item (suc k) accepts h before ((p, d) ∷ xs) (ne, here, rest) fuel =
    ground (arith, exist_loop-find_item k accepts h p xs rest)

-- `list_exist` ends, changes nothing, and returns the first item that the comparison accepts, or
-- MCL_FAIL if it accepts none.
pub list_exist-find_item :
    (accepts : ℕ → Bool) (h : Heap) (l : ListT) (xs : Cells)
    → IsList h l xs
    → list_exist accepts l h
      ≡ done (elim (find_item accepts xs) [ none ↦ (fail, none) | some d ↦ (ok, some d) ]) h
unfolding list_exist
list_exist-find_item accepts h l xs is =
    rw (is.head_first, exist_loop-find_item (l.count + 1) accepts h null xs is.links (omega arith))

-- The items that the callback is called on: those that are not NULL, in order.
unfoldable pub called : Bool → Cells → List ℕ
called callback [] = []
called callback ((p, d) ∷ xs) =
    if callback && not (d == null) then d ∷ called callback xs else called callback xs

-- `g` is `h` without the nodes of `xs`.
abbrev pub Without : Cells → Heap → Heap → Type 0
Without xs h g = (a : Ptr) → g a ≡ (if has a xs then none else h a)

freed :
    (h g : Heap) (p : Ptr) (d : ℕ) (xs : Cells) (a : Ptr)
    → g a ≡ (if has a xs then none else write h p none a)
    → g a ≡ (if has a ((p, d) ∷ xs) then none else h a)
unfolding write
freed h g p d xs a e = ground arith

destroy_loop-Without :
    (k : ℕ) (callback : Bool) (h : Heap) (before : Ptr) (xs : Cells)
    → Linked h before null xs
    → Distinct xs
    → length xs < k
    → Returns
        (λ out g. (out ≡ called callback xs) × Without xs h g)
        (destroy_loop k callback (first null xs) h)
unfolding destroy_loop called
destroy_loop-Without zero callback h before xs links distinct fuel = absurd (omega arith)
destroy_loop-Without (suc k) callback h before [] links distinct fuel = returns (refl, λ a. refl)
destroy_loop-Without (suc k) callback h before ((p, d) ∷ xs) (ne, here, rest) (out, distinct) fuel =
    let not_null : (p == null) ≡ false = ground arith in
    let later =
      destroy_loop-Without k callback (write h p none) p xs
        (frame-write h p none p null xs rest out) distinct (omega arith) in
    rw (not_null, load_lem h p ne here, free_lem h p ne here, destroy_loop)
      (bind later
        (λ r g (e, gone). returns {end = g} (ground arith, λ a. freed h g p d xs a (gone a))))

-- `list_destroy_with_content` ends, frees exactly the nodes of the list, each once, and calls the
-- callback on each item that is not NULL, in order, or on none if there is no callback.
pub destroy-Without :
    (callback : Bool) (h : Heap) (l : ListT) (xs : Cells)
    → IsList h l xs
    → Returns
        (λ out g. (out ≡ called callback xs) × Without xs h g)
        (list_destroy_with_content callback l h)
unfolding list_destroy_with_content
destroy-Without callback h l xs is =
    rw is.head_first
      (destroy_loop-Without (l.count + 1) callback h null xs is.links is.distinct (omega arith))
