-- ===== src/LinkedList/Iterate.antt =====
-- `list_next` and `list_reset`: the loop `while (MCL_NULL != (node = list_next(list)))` visits every
-- node once.
use iot_eclipse.Base.{
  ℕ, zero, suc, ◌+◌, ◌<◌, ◌≡◌, refl, true, false, List, [], ◌∷◌, ◌++◌, ◌==◌, arith, length,
}
use iot_eclipse.LinkedList.{
  Ptr, null, Heap, Cmd, done, out_of_fuel, ListT, list_next, list_reset, and_then,
}
use iot_eclipse.LinkedList.Segment.{Cells, first, last_of, Linked, IsList, Linked-front}

-- The loop of a client: the nodes that `list_next` returns before NULL.
unfoldable pub visit : ℕ → ListT → Cmd (List Ptr × ListT)
unfolding list_next
visit zero l h = out_of_fuel
visit (suc k) l h = and_then (list_next l h) λ (p, l') g. elim (p == null) [
  | true ↦ done ([], l') g
  | false ↦ and_then (visit k l' g) λ (rest, end) g'. done (p ∷ rest, end) g'
]

abbrev pub addresses : Cells → List Ptr
addresses [] = []
addresses ((p, _) ∷ xs) = p ∷ addresses xs

abbrev at_cursor : ListT → Ptr → ListT
at_cursor l p = record l { current = p }

visit_from :
    (k : ℕ) (h : Heap) (l : ListT) (before : Ptr) (ys : Cells)
    → Linked h before null ys
    → length ys < k
    → visit k (at_cursor l (first null ys)) h ≡ done (addresses ys, at_cursor l l.head) h
unfolding visit
visit_from zero h l before ys links fuel = absurd (omega arith)
visit_from (suc k) h l before [] links fuel = refl
visit_from (suc k) h l before ((p, d) ∷ ys) (ne, here, rest) fuel =
    ground (arith, visit_from k h l p ys rest)

-- From a reset list the loop ends after each node has been visited once, in order, and leaves the
-- list reset; it changes no node.
pub visit-reset :
    (h : Heap) (l : ListT) (xs : Cells)
    → IsList h l xs
    → visit (l.count + 1) (list_reset l) h ≡ done (addresses xs, list_reset l) h
unfolding list_reset
visit-reset h l xs is =
    rw is.head_first (
      visit_from (l.count + 1) h (record l { head = first null xs }) null xs is.links (omega arith))

-- From a cursor inside the list, the loop that calls `list_next` until it returns NULL visits the nodes from there to the end, and then stands at
-- the head again.
pub visit-suffix :
    (h : Heap) (l : ListT) (xs ys : Cells)
    → IsList h l (xs ++ ys)
    → l.current ≡ first null ys
    → visit (length ys + 1) l h ≡ done (addresses ys, list_reset l) h
unfolding list_reset
visit-suffix h l xs ys is cursor =
    let (_, links) = Linked-front h null null xs ys is.links in
    rw (← cursor) at (visit_from (length ys + 1) h l (last_of null xs) ys links (omega arith))
