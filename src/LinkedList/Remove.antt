-- ===== src/LinkedList/Remove.antt =====
-- `list_remove` takes one node out and leaves the others as they are.
use iot_eclipse.Base.{
  ℕ, ◌-◌, ◌<◌, ◌≡◌, ◌≢◌, refl, false, none, some, [], ◌∷◌, ◌++◌, ◌==◌, arith, length-append,
  if◌then◌else◌, ◌∙◌,
}
use mathlib.Core.List.{append-nil}
use iot_eclipse.Code.{ErrorCode, ok, array_is_empty}
use iot_eclipse.LinkedList.{Ptr, null, Node, Heap, write, done, ListT, list_remove, unlink}
use iot_eclipse.LinkedList.Segment.{
  Cells, has, first, last_of, IsList, Returns, returns, Linked-front, write_ne, write_eq,
  last_of-append, ne_last,
}
use iot_eclipse.LinkedList.Unlink.{Around, around, Distinct-drop, outside, unlink_lem}

-- The node at `p`, between those of `xs` and those of `ys`, has been removed, and the rest of the
-- heap is as before.
pub record Removed (h : Heap) (xs : Cells) (p : Ptr) (d : ℕ) (ys : Cells) (l : ListT)
    (r : ErrorCode × ListT) (g : Heap) : Type 0 where
  pub code : r.0 ≡ ok
  pub list : IsList g r.1 (xs ++ ys)
  pub freed : g p ≡ none
  pub cursor : r.1.current ≡ (if l.current == p then first null ys else l.current)
  pub spared : (x : Ptr) → has x (xs ++ (p, d) ∷ ys) ≡ false → g x ≡ h x

-- `list_remove` at a node that is there and whose connections can be undone.
remove_step :
    (h g : Heap) (l : ListT) (p : Ptr) (n : Node)
    → 0 < l.count
    → p ≢ null
    → h p ≡ some n
    → unlink n h ≡ done tt g
    → g p ≡ some n
    → list_remove l p h
      ≡ done
          (
            ok,
            record {
              count = l.count - 1;
              head = if l.head == p then n.next else l.head;
              last = if l.last == p then n.prev else l.last;
              current = if l.current == p then n.next else l.current;
            },
          )
          (write g p none)
unfolding list_remove
remove_step h g l p n more ne here ran kept = ground arith

head_after :
    (xs ys : Cells) (p : Ptr) (d : ℕ) (head : Ptr)
    → Around xs p ys
    → head ≡ first null (xs ++ (p, d) ∷ ys)
    → (if head == p then first null ys else head) ≡ first null (xs ++ ys)
head_after [] ys p d head s e = ground arith
head_after ((a, b) ∷ xs) ys p d head s e = ground (arith, s.not_left)

last_after :
    (xs ys : Cells) (p : Ptr) (d : ℕ) (last : Ptr)
    → Around xs p ys
    → last ≡ last_of null (xs ++ (p, d) ∷ ys)
    → (if last == p then last_of null xs else last) ≡ last_of null (xs ++ ys)
last_after xs [] p d last s e =
    rw append-nil (ground (arith, e ∙ last_of-append null xs ((p, d) ∷ [])))
last_after xs ((q, f) ∷ ys) p d last s e = ground (
  arith,
  e ∙ last_of-append null xs ((p, d) ∷ (q, f) ∷ ys),
  last_of-append null xs ((q, f) ∷ ys),
  ne_last p q f ys s.not_right,
)

-- `list_remove` of a node of the list takes just that node out, wherever it stands: the list then stands for the sequence without it, the node is freed, a cursor on it has
-- moved to the next node, and no address outside the list has changed.
pub list_remove-drop :
    (h : Heap) (l : ListT) (xs ys : Cells) (p : Ptr) (d : ℕ)
    → IsList h l (xs ++ (p, d) ∷ ys)
    → Returns (Removed h xs p d ys l) (list_remove l p h)
list_remove-drop h l xs ys p d is =
    let (_, (ne, here, _)) = Linked-front h null null xs ((p, d) ∷ ys) is.links in
    let u = unlink_lem h xs ys p d is.links is.distinct in
    let s = around xs ys p d is.distinct in
    let size = length-append xs ((p, d) ∷ ys) in
    rw (remove_step h u.heap l p _ (omega (arith, size)) ne here u.ran (u.kept ∙ here)) (
      returns (record {
        code = refl;
        list = record {
          links = u.links;
          distinct = Distinct-drop xs ys p d is.distinct;
          head_first = head_after xs ys p d l.head s is.head_first;
          last_last = last_after xs ys p d l.last s is.last_last;
          counted = omega (arith, size, length-append xs ys);
        };
        freed = write_eq u.heap p none;
        cursor = refl;
        spared = λ x o.
            let right = (outside x xs ((p, d) ∷ ys) o).1 in
            write_ne u.heap p x none (ground (arith, right)) ∙ u.spared x o;
      }))

-- From an empty list nothing is removed.
pub list_remove_empty :
    (h : Heap) (l : ListT) (p : Ptr) → l.count ≡ 0 → list_remove l p h ≡ done (array_is_empty, l) h
unfolding list_remove
list_remove_empty h l p e = ground arith
