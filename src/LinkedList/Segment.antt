-- ===== src/LinkedList/Segment.antt =====
-- What a heap with a linked list stands for: the nodes from the head on, each with its item, and
-- linked both ways.
use iot_eclipse.Base.{
  ℕ, ◌≡◌, ◌≢◌, refl, ap, ◌∙◌, Bool, true, false, ◌||◌, Option, none, some, List, [], ◌∷◌, ◌++◌,
  ◌==◌, arith, length, Bool-cases, inl, inr,
}
use iot_eclipse.LinkedList.{
  Ptr, null, Node, node, Heap, write, Run, done, Cmd, and_then, ListT, load, set_next, set_prev,
  free,
}

-- A run that ends, with a result and a heap that fulfil a condition.
pub data Returns {A : Type 0} (Post : A → Heap → Type 0) : Run A → Type 0 where
  returns : {result : A} {end : Heap} → Post result end → Returns Post (done result end)

pub bind :
    {A B : Type 0} {next : A → Cmd B} {Mid : A → Heap → Type 0} {Post : B → Heap → Type 0}
    {first : Run A}
    → Returns Mid first
    → ((result : A) (mid : Heap) → Mid result mid → Returns Post (next result mid))
    → Returns Post (and_then first next)
bind (returns reached) go_on = go_on _ _ reached

-- Address and item of each node, in order.
abbrev pub Cells : Type 0
Cells = List (Ptr × ℕ)

abbrev pub has : Ptr → Cells → Bool
has place [] = false
has place ((p, _) ∷ rest) = (place == p) || has place rest

abbrev pub Distinct : Cells → Type 0
Distinct [] = Unit
Distinct ((p, _) ∷ xs) = (has p xs ≡ false) × Distinct xs

-- The first address, or what comes behind.
abbrev pub first : Ptr → Cells → Ptr
first stop [] = stop
first stop ((p, _) ∷ xs) = p

-- The last address, or what comes before.
abbrev pub last_of : Ptr → Cells → Ptr
last_of before [] = before
last_of before ((p, _) ∷ xs) = last_of p xs

-- The nodes are in the heap, linked to one another, to `before` and to `stop`.
abbrev pub Linked : Heap → Ptr → Ptr → Cells → Type 0
Linked h before stop [] = Unit
Linked h before stop ((p, d) ∷ xs) =
    (p ≢ null) × (h p ≡ some (node d before (first stop xs))) × Linked h p stop xs

pub record IsList (h : Heap) (l : ListT) (xs : Cells) : Type 0 where
  pub links : Linked h null null xs
  pub distinct : Distinct xs
  pub head_first : l.head ≡ first null xs
  pub last_last : l.last ≡ last_of null xs
  pub counted : l.count ≡ length xs

-- A list survives any change that spares its nodes.
pub frame :
    (h g : Heap) (before stop : Ptr) (xs : Cells)
    → Linked h before stop xs
    → ((a : Ptr) → has a xs ≡ true → g a ≡ h a)
    → Linked g before stop xs
frame h g before stop [] links same = tt
frame h g before stop ((p, d) ∷ xs) (ne, here, rest) same =
    (ne, ground (arith, same p), frame h g p stop xs rest (λ a i. same a (ground arith)))

pub frame-write :
    (h : Heap) (a : Ptr) (c : Option Node) (before stop : Ptr) (xs : Cells)
    → Linked h before stop xs
    → has a xs ≡ false
    → Linked (write h a c) before stop xs
unfolding write
frame-write h a c before stop xs links out = frame h _ before stop xs links (λ b i.
    elim (Bool-cases (b == a)) [
      | inl same ↦ let e : b ≡ a = ground arith in absurd (ground (arith, ap (λ t. has t xs) e))
      | inr other ↦ rw other
    ])

pub Linked-append :
    (h : Heap) (before stop : Ptr) (xs ys : Cells)
    → Linked h before (first stop ys) xs
    → Linked h (last_of before xs) stop ys
    → Linked h before stop (xs ++ ys)
Linked-append h before stop [] ys front back = back
Linked-append h before stop ((p, d) ∷ []) ys (ne, here, _) back = (ne, here, back)
Linked-append h before stop ((p, d) ∷ (q, e) ∷ xs) ys (ne, here, rest) back =
    (ne, here, Linked-append h p stop ((q, e) ∷ xs) ys rest back)

pub Linked-front :
    (h : Heap) (before stop : Ptr) (xs ys : Cells)
    → Linked h before stop (xs ++ ys)
    → Linked h before (first stop ys) xs × Linked h (last_of before xs) stop ys
Linked-front h before stop [] ys links = (tt, links)
Linked-front h before stop ((p, d) ∷ []) ys (ne, here, rest) = ((ne, here, tt), rest)
Linked-front h before stop ((p, d) ∷ (q, e) ∷ xs) ys (ne, here, rest) =
    let (front, back) = Linked-front h p stop ((q, e) ∷ xs) ys rest in ((ne, here, front), back)

pub has-append :
    (place : Ptr) (front back : Cells)
    → has place (front ++ back) ≡ (has place front || has place back)
has-append place [] back = refl
has-append place ((p, d) ∷ front) back = ground (arith, has-append place front back)

has_eq : (a p : Ptr) (xs : Cells) → a ≡ p → has a xs ≡ has p xs
has_eq a p xs e = ap (λ t. has t xs) e

pub Distinct-append :
    (xs ys : Cells)
    → Distinct (xs ++ ys)
    → Distinct xs × Distinct ys × ((a : Ptr) → has a xs ≡ true → has a ys ≡ false)
Distinct-append [] ys d = (tt, d, λ a i. ground arith)
Distinct-append ((p, _) ∷ xs) ys (out, d) =
    let (dx, dy, apart) = Distinct-append xs ys d in
    (
      (ground (arith, has-append p xs ys), dx),
      dy,
      λ a i. ground (arith, apart a, has-append a xs ys, has_eq a p ys),
    )

pub has-last_of :
    (before p : Ptr) (d : ℕ) (xs : Cells) → has (last_of before ((p, d) ∷ xs)) ((p, d) ∷ xs) ≡ true
has-last_of before p d [] = ground arith
has-last_of before p d ((q, e) ∷ xs) = ground (arith, has-last_of p q e xs)

pub last_of-append :
    (before : Ptr) (xs ys : Cells) → last_of before (xs ++ ys) ≡ last_of (last_of before xs) ys
last_of-append before [] ys = refl
last_of-append before ((p, d) ∷ xs) ys = last_of-append p xs ys

pub first-append : (stop : Ptr) (xs ys : Cells) → first stop (xs ++ ys) ≡ first (first stop ys) xs
first-append stop [] ys = refl
first-append stop ((p, d) ∷ xs) ys = refl

-- What the last node holds, and the segment after its `next` has been turned to `stop'`.
pub record Relinked (h : Heap) (before stop stop' q : Ptr) (xs : Cells) : Type 0 where
  pub item : ℕ
  pub prev : Ptr
  pub ne_null : q ≢ null
  pub holds : h q ≡ some (node item prev stop)
  pub links : Linked (write h q (some (node item prev stop'))) before stop' xs

pub write_ne : (h : Heap) (p a : Ptr) (c : Option Node) → a ≢ p → write h p c a ≡ h a
unfolding write
write_ne h p a c ne = ground arith

pub write_eq : (h : Heap) (p : Ptr) (c : Option Node) → write h p c p ≡ c
unfolding write
write_eq h p c = ground arith

-- An address outside a segment is not that of its last node.
pub ne_last : (a q : Ptr) (e : ℕ) (xs : Cells) → has a ((q, e) ∷ xs) ≡ false → a ≢ last_of q xs
ne_last a q e xs out same =
    cc (out, has_eq a (last_of q xs) ((q, e) ∷ xs) same, has-last_of q q e xs)

pub relink_last :
    (h : Heap) (before stop stop' p : Ptr) (d : ℕ) (xs : Cells)
    → Linked h before stop ((p, d) ∷ xs)
    → Distinct ((p, d) ∷ xs)
    → Relinked h before stop stop' (last_of before ((p, d) ∷ xs)) ((p, d) ∷ xs)
relink_last h before stop stop' p d [] (ne, here, _) _ = record {
  item = d;
  prev = before;
  ne_null = ne;
  holds = here;
  links = (ne, write_eq h p _, tt);
}
relink_last h before stop stop' p d ((q, e) ∷ xs) (ne, here, rest) (out, apart) =
    let r = relink_last h p stop stop' q e xs rest apart in
    record {
      item = r.item;
      prev = r.prev;
      ne_null = r.ne_null;
      holds = r.holds;
      links = (ne, write_ne h (last_of q xs) p _ (ne_last p q e xs out) ∙ here, r.links);
    }

-- The segment after the `prev` of its first node has been turned to `before'`.
pub relink_first :
    (h : Heap) (before before' stop p : Ptr) (d : ℕ) (xs : Cells)
    → Linked h before stop ((p, d) ∷ xs)
    → Distinct ((p, d) ∷ xs)
    → Linked (write h p (some (node d before' (first stop xs)))) before' stop ((p, d) ∷ xs)
relink_first h before before' stop p d xs (ne, here, rest) (out, apart) =
    (ne, unfold write in ground arith, frame-write h p _ p stop xs rest out)

-- The commands at a node that is there.
module _ (h : Heap) (p : Ptr) {n : Node} (ne : p ≢ null) (holds : h p ≡ some n) where
  pub load_lem : load p h ≡ done n h
  unfolding load
  load_lem = ground arith

  pub set_next_lem : (q : Ptr) → set_next p q h ≡ done tt (write h p (some (record n { next = q })))
  unfolding set_next
  set_next_lem q = ground arith

  pub set_prev_lem : (q : Ptr) → set_prev p q h ≡ done tt (write h p (some (record n { prev = q })))
  unfolding set_prev
  set_prev_lem q = ground arith

  pub free_lem : free p h ≡ done tt (write h p none)
  unfolding free
  free_lem = ground arith
