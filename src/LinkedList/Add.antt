-- ===== src/LinkedList/Add.antt =====
-- `list_add` puts its item behind the others.
use iot_eclipse.Base.{
  ℕ, ◌+◌, ◌-◌, ◌^◌, ◌<◌, ◌≤◌, ◌≡◌, ◌≢◌, refl, ap, false, Option, none, some, [], ◌∷◌, ◌++◌, ◌==◌,
  arith, length-append, if◌then◌else◌, ltb, Bool-cases, inl, inr, ◌⊎◌, ◌∙◌, sym,
}
use iot_eclipse.Code.{ErrorCode, ok, out_of_memory, limit_exceeded, is_ok}
use iot_eclipse.LinkedList.{Ptr, null, Node, node, Heap, write, done, ListT, list_add}
use iot_eclipse.LinkedList.Segment.{
  Cells, has, Distinct, last_of, Linked, IsList, Returns, returns, frame-write, Linked-append,
  relink_last, write_ne, write_eq, last_of-append, has-append, ne_last,
}

-- An address with no node is not in the list.
pub not-mem_of_none :
    (h : Heap) (a before stop : Ptr) (xs : Cells)
    → Linked h before stop xs
    → h a ≡ none
    → has a xs ≡ false
not-mem_of_none h a before stop [] links unused = refl
not-mem_of_none h a before stop ((p, d) ∷ xs) (ne, here, rest) unused = elim (Bool-cases (a == p)) [
  | inl same ↦ let e : a ≡ p = ground arith in absurd (cc (ap h e, here, unused))
  | inr other ↦ rw other (not-mem_of_none h a p stop xs rest unused)
]

Distinct-snoc :
    (xs : Cells) (a : Ptr) (d : ℕ) → Distinct xs → has a xs ≡ false → Distinct (xs ++ (a, d) ∷ [])
Distinct-snoc [] a d h out = (refl, tt)
Distinct-snoc ((p, e) ∷ xs) a d (new, h) out =
    (ground (arith, has-append p xs ((a, d) ∷ [])), Distinct-snoc xs a d h (ground arith))

-- What holds after an item has been added at `fresh`.
pub record Added (xs : Cells) (l : ListT) (fresh : Ptr) (d : ℕ) (r : ErrorCode × ListT) (g : Heap)
    : Type 0 where
  pub code : r.0 ≡ ok
  pub list : IsList g r.1 (xs ++ (fresh, d) ∷ [])
  pub cursor : r.1.current ≡ (if l.count == 0 then fresh else l.current)

-- The two ways through `list_add` that add an item.
add_first :
    (h : Heap) (l : ListT) (fresh : Ptr) (d : ℕ)
    → fresh ≢ null
    → l.count ≡ 0
    → l.last ≡ null
    → list_add fresh l d h
      ≡ done
          (ok, record { count = l.count + 1; head = fresh; last = fresh; current = fresh })
          (write h fresh (some (node d null null)))
unfolding list_add
add_first h l fresh d new empty last = ground arith

add_later :
    (h : Heap) (l : ListT) (fresh q : Ptr) (d : ℕ) (n : Node)
    → fresh ≢ null
    → l.count ≢ 0
    → l.count < 2 ^ 64 - 1
    → l.last ≡ q
    → q ≢ null
    → write h fresh (some (node d q null)) q ≡ some n
    → list_add fresh l d h
      ≡ done
          (ok, record l { count = l.count + 1; last = fresh })
          (write (write h fresh (some (node d q null))) q (some (record n { next = fresh })))
unfolding list_add
add_later h l fresh q d n new more room last ne tail = ground arith

-- Given the address of a new node, `list_add` puts the item behind the others: the list then stands
-- for the old sequence and the new item, and the cursor moves only if the list was empty.
pub list_add-snoc :
    (h : Heap) (l : ListT) (xs : Cells) (fresh : Ptr) (d : ℕ)
    → IsList h l xs
    → fresh ≢ null
    → h fresh ≡ none
    → l.count < 2 ^ 64 - 1
    → Returns (Added xs l fresh d) (list_add fresh l d h)
list_add-snoc h l [] fresh d is new unused room =
    rw (add_first h l fresh d new is.counted is.last_last) (
      returns (record {
        code = refl;
        list = record {
          links = (new, write_eq h fresh _, tt);
          distinct = (refl, tt);
          head_first = refl;
          last_last = refl;
          counted = omega arith;
        };
        cursor = ground arith;
      }))
list_add-snoc h l ((p, e) ∷ xs) fresh d is new unused room =
    let q : Ptr = last_of p xs in
    let c : Option Node = some (node d q null) in
    let out : has fresh ((p, e) ∷ xs) ≡ false =
      not-mem_of_none h fresh null null ((p, e) ∷ xs) is.links unused in
    let r =
      relink_last (write h fresh c) null null fresh p e xs
        (frame-write h fresh c null null ((p, e) ∷ xs) is.links out) is.distinct in
    rw (add_later h l fresh q d _ new (omega arith) room is.last_last r.ne_null r.holds) (
      returns (record {
        code = refl;
        list = record {
          links =
              Linked-append _ null null ((p, e) ∷ xs) ((fresh, d) ∷ []) r.links
                (new, write_ne _ q fresh _ (ne_last fresh p e xs out) ∙ write_eq h fresh c, tt);
          distinct = Distinct-snoc ((p, e) ∷ xs) fresh d is.distinct out;
          head_first = is.head_first;
          last_last = sym (last_of-append p xs ((fresh, d) ∷ []));
          counted = omega (arith, length-append xs ((fresh, d) ∷ []));
        };
        cursor = ground arith;
      }))

-- Without memory for the node, or at the greatest count, `list_add` changes nothing.
pub list_add_refused :
    (h : Heap) (l : ListT) (fresh : Ptr) (d : ℕ)
    → (fresh ≡ null) ⊎ (2 ^ 64 - 1 ≤ l.count)
    → (c : ErrorCode) × (list_add fresh l d h ≡ done (c, l) h) × (is_ok c ≡ false)
unfolding list_add
list_add_refused h l fresh d (inl none_left) =
    (if ltb l.count (2 ^ 64 - 1) then out_of_memory else limit_exceeded, ground arith, ground arith)
list_add_refused h l fresh d (inr full) = (limit_exceeded, ground arith, refl)
