-- ===== src/LinkedList/Unlink.antt =====
-- `unlink`, the first half of `list_remove`: the neighbours of a node are connected round it.
use iot_eclipse.Base.{
  ℕ, ◌≡◌, ◌≢◌, refl, true, false, Option, none, some, [], ◌∷◌, ◌++◌, arith, Bool-cases, inl, inr,
  ◌∙◌, sym,
}
use mathlib.Core.List.{append-nil}
use iot_eclipse.LinkedList.{Ptr, null, Node, node, Heap, write, done, unlink}
use iot_eclipse.LinkedList.Segment.{
  Cells, has, Distinct, first, last_of, Linked, frame-write, Linked-append, Linked-front,
  relink_last, relink_first, write_ne, has-append, has-last_of, ne_last, Distinct-append,
}

-- What the distinct addresses round a node give.
pub record Around (xs : Cells) (p : Ptr) (ys : Cells) : Type 0 where
  pub left : Distinct xs
  pub right : Distinct ys
  pub not_left : has p xs ≡ false
  pub not_right : has p ys ≡ false
  pub apart : (a : Ptr) → has a xs ≡ true → (a ≢ p) × (has a ys ≡ false)

pub around : (xs ys : Cells) (p : Ptr) (d : ℕ) → Distinct (xs ++ (p, d) ∷ ys) → Around xs p ys
around xs ys p d distinct =
    let (dx, (out, dy), apart) = Distinct-append xs ((p, d) ∷ ys) distinct in
    record {
      left = dx;
      right = dy;
      not_left = elim (Bool-cases (has p xs)) [
        | inl inside ↦ absurd (ground (arith, apart p inside))
        | inr outside ↦ outside
      ];
      not_right = out;
      apart = λ a i. (λ e. ground (arith, apart a i), ground (arith, apart a i));
    }

pub Distinct-drop :
    (xs ys : Cells) (p : Ptr) (d : ℕ) → Distinct (xs ++ (p, d) ∷ ys) → Distinct (xs ++ ys)
Distinct-drop [] ys p d (out, distinct) = distinct
Distinct-drop ((a, e) ∷ xs) ys p d (out, distinct) = (
  ground (arith, has-append a xs ((p, d) ∷ ys), has-append a xs ys),
  Distinct-drop xs ys p d distinct,
)

-- The connections after `unlink`, and the node itself still there.
pub record Unlinked (h : Heap) (xs ys : Cells) (p : Ptr) (d : ℕ) : Type 0 where
  pub heap : Heap
  pub ran : unlink (node d (last_of null xs) (first null ys)) h ≡ done tt heap
  pub kept : heap p ≡ h p
  pub links : Linked (write heap p none) null null (xs ++ ys)
  pub spared : (x : Ptr) → has x (xs ++ (p, d) ∷ ys) ≡ false → heap x ≡ h x

-- `unlink` on each of its four branches.
unlink_only : (h : Heap) (d : ℕ) → unlink (node d null null) h ≡ done tt h
unfolding unlink
unlink_only h d = refl

unlink_first :
    (h : Heap) (q : Ptr) (d e : ℕ) (p n : Ptr)
    → q ≢ null
    → h q ≡ some (node e p n)
    → unlink (node d null q) h ≡ done tt (write h q (some (node e null n)))
unfolding unlink
unlink_first h q d e p n ne here = ground arith

unlink_last :
    (h : Heap) (q : Ptr) (d e : ℕ) (p n : Ptr)
    → q ≢ null
    → h q ≡ some (node e p n)
    → unlink (node d q null) h ≡ done tt (write h q (some (node e p null)))
unfolding unlink
unlink_last h q d e p n ne here = ground arith

unlink_middle :
    (h : Heap) (a b : Ptr) (d e f : ℕ) (pa na pb nb : Ptr)
    → a ≢ null
    → b ≢ null
    → h a ≡ some (node e pa na)
    → write h a (some (node e pa b)) b ≡ some (node f pb nb)
    → unlink (node d a b) h
      ≡ done tt (write (write h a (some (node e pa b))) b (some (node f a nb)))
unfolding unlink
unlink_middle h a b d e f pa na pb nb nea neb ha hb = ground arith

not_inside : (a p : Ptr) (xs ys : Cells) → Around xs p ys → has a ys ≡ true → has a xs ≡ false
not_inside a p xs ys s right = elim (Bool-cases (has a xs)) [
  | inl left ↦ absurd (cc (right, (s.apart a left).1))
  | inr outside ↦ outside
]

pub outside :
    (x : Ptr) (xs ys : Cells) → has x (xs ++ ys) ≡ false → (has x xs ≡ false) × (has x ys ≡ false)
outside x xs ys o = ground (arith, o, has-append x xs ys)

pub unlink_lem :
    (h : Heap) (xs ys : Cells) (p : Ptr) (d : ℕ)
    → Linked h null null (xs ++ (p, d) ∷ ys)
    → Distinct (xs ++ (p, d) ∷ ys)
    → Unlinked h xs ys p d
unlink_lem h [] [] p d links distinct = record {
  heap = h;
  ran = unlink_only h d;
  kept = refl;
  links = tt;
  spared = λ x o. refl;
}
unlink_lem h [] ((q, e) ∷ ys) p d (ne, here, (neq, hereq, rest)) distinct =
    let c : Option Node = some (node e null (first null ys)) in
    let s = around [] ((q, e) ∷ ys) p d distinct in
    record {
      heap = write h q c;
      ran = unlink_first h q d e p (first null ys) neq hereq;
      kept = write_ne h q p c (ground (arith, s.not_right));
      links =
          frame-write (write h q c) p none null null ((q, e) ∷ ys)
            (relink_first h p null null q e ys (neq, hereq, rest) s.right) s.not_right;
      spared = λ x o. write_ne h q x c (ground (arith, o));
    }
unlink_lem h ((a, b) ∷ xs) [] p d links distinct =
    let l = Linked-front h null null ((a, b) ∷ xs) ((p, d) ∷ []) links in
    let s = around ((a, b) ∷ xs) [] p d distinct in
    let r = relink_last h null p null a b xs l.0 s.left in
    record {
      heap = write h (last_of a xs) (some (node r.item r.prev null));
      ran = unlink_last h (last_of a xs) d r.item r.prev p r.ne_null r.holds;
      kept = write_ne h (last_of a xs) p _ (ne_last p a b xs s.not_left);
      links = rw append-nil (frame-write _ p none null null ((a, b) ∷ xs) r.links s.not_left);
      spared = λ x o.
          write_ne h (last_of a xs) x _
            (ne_last x a b xs (outside x ((a, b) ∷ xs) ((p, d) ∷ []) o).0);
    }
unlink_lem h ((a, b) ∷ xs) ((q, e) ∷ ys) p d links distinct =
    let l : Linked h null p ((a, b) ∷ xs) × Linked h (last_of a xs) null ((p, d) ∷ (q, e) ∷ ys) =
      Linked-front h null null ((a, b) ∷ xs) ((p, d) ∷ (q, e) ∷ ys) links in
    let s = around ((a, b) ∷ xs) ((q, e) ∷ ys) p d distinct in
    let z : Ptr = last_of a xs in
    let r = relink_last h null p q a b xs l.0 s.left in
    let h' : Heap = write h z (some (node r.item r.prev q)) in
    let (z_ne_p, z_out) = s.apart z (has-last_of null a b xs) in
    let back : Linked h' p null ((q, e) ∷ ys) =
      frame-write h z _ p null ((q, e) ∷ ys) l.1.2 z_out in
    let c : Option Node = some (node e z (first null ys)) in
    let q_out : has q ((a, b) ∷ xs) ≡ false =
      not_inside q p ((a, b) ∷ xs) ((q, e) ∷ ys) s (ground arith) in
    record {
      heap = write h' q c;
      ran =
          unlink_middle h z q d r.item e r.prev p p (first null ys) r.ne_null back.0 r.holds back.1;
      kept =
          write_ne h' q p c (ground (arith, s.not_right)) ∙ write_ne h z p _ (λ e. z_ne_p (sym e));
      links =
          frame-write (write h' q c) p none null null (((a, b) ∷ xs) ++ (q, e) ∷ ys)
            (Linked-append (write h' q c) null null ((a, b) ∷ xs) ((q, e) ∷ ys)
              (frame-write h' q c null q ((a, b) ∷ xs) r.links q_out)
              (relink_first h' p z null q e ys back s.right))
            (has-append p ((a, b) ∷ xs) ((q, e) ∷ ys) ∙ rw (s.not_left, s.not_right));
      spared = λ x o.
          let (left, right) = outside x ((a, b) ∷ xs) ((p, d) ∷ (q, e) ∷ ys) o in
          write_ne h' q x c (ground (arith, right)) ∙ write_ne h z x _ (ne_last x a b xs left);
    }
