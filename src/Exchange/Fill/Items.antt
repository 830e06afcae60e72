-- ===== src/Exchange/Fill/Items.antt =====
-- The loop on a linked list does what it does on the sequence of the items.
use iot_eclipse.Base.{
  ℕ, zero, suc, ◌≡◌, ◌≢◌, refl, Bool, true, false, Option, none, some, [], ◌∷◌, arith, sym, ◌∙◌, ap,
  Bool-cases, inl, inr,
}
use iot_eclipse.LinkedList.{Ptr, null, node, Heap, Run, done, out_of_fuel}
use iot_eclipse.LinkedList.Segment.{Cells, first, Linked, load_lem}
use iot_eclipse.Exchange.Fill.{
  Adding, Flags, Turn, leave, break, advance, stay, Ended, broken, follow, turn, fill_loop,
}

module _ {S : Type 0} (ops : Adding S) (streamable : Bool) where
  -- The loop on the nodes that are left, of a list `all`.
  unfoldable pub fill_items : ℕ → Cells → Cells → Flags → S → Option (Ended S)
  fill_items zero all rest flags s = none
  fill_items (suc k) all [] flags s = elim flags.added_any [
    | true ↦ fill_items k all all (record flags { added_any = false }) s
    | false ↦ some (broken flags.added_any_at_all s)
  ]
  fill_items (suc k) all ((p, d) ∷ rest) flags s =
      follow some (fill_items k all rest) (fill_items k all ((p, d) ∷ rest))
        (turn ops streamable d flags s)

  pub item_step :
      (k : ℕ) (all : Cells) (p : Ptr) (d : ℕ) (rest : Cells) (flags : Flags) (s : S)
      → fill_items (suc k) all ((p, d) ∷ rest) flags s
        ≡ follow some
            (fill_items k all rest)
            (fill_items k all ((p, d) ∷ rest))
            (turn ops streamable d flags s)
  unfolding fill_items
  item_step k all p d rest flags s = refl

-- A run on a heap that does not change.
abbrev pub on_heap : {A : Type 0} → Heap → Option A → Run A
on_heap h none = out_of_fuel
on_heap h (some result) = done result h

follow-on_heap :
    {S : Type 0} (h : Heap) (onward again : Flags → S → Run (Ended S))
    (onward' again' : Flags → S → Option (Ended S)) (t : Turn S)
    → ((flags : Flags) (s : S) → onward flags s ≡ on_heap h (onward' flags s))
    → ((flags : Flags) (s : S) → again flags s ≡ on_heap h (again' flags s))
    → follow (λ ended. done ended h) onward again t ≡ on_heap h (follow some onward' again' t)
follow-on_heap h onward again onward' again' (leave code s) e f = refl
follow-on_heap h onward again onward' again' (break flags s) e f = refl
follow-on_heap h onward again onward' again' (advance flags s) e f = e flags s
follow-on_heap h onward again onward' again' (stay flags s) e f = f flags s

module _ {S : Type 0} (ops : Adding S) (streamable : Bool) (h : Heap) (all : Cells)
    (links : Linked h null null all) where
  node_step :
      (k : ℕ) (p before next : Ptr) (d : ℕ) (flags : Flags) (s : S)
      → p ≢ null
      → h p ≡ some (node d before next)
      → fill_loop ops streamable (suc k) (first null all) p flags s h
        ≡ follow
            (λ ended. done ended h)
            (λ flags' s'. fill_loop ops streamable k (first null all) next flags' s' h)
            (λ flags' s'. fill_loop ops streamable k (first null all) p flags' s' h)
            (turn ops streamable d flags s)
  unfolding fill_loop
  node_step k p before next d flags s ne here = ground (arith, load_lem h p ne here)

  end_step :
      (k : ℕ) (flags : Flags) (s : S)
      → flags.added_any ≡ true
      → fill_loop ops streamable k
          (first null all)
          (first null all)
          (record flags { added_any = false })
          s
          h
        ≡ on_heap h (fill_items ops streamable k all all (record flags { added_any = false }) s)
      → fill_loop ops streamable (suc k) (first null all) null flags s h
        ≡ on_heap h (fill_items ops streamable (suc k) all [] flags s)
  unfolding fill_loop fill_items
  end_step k flags s again e = rw again e

  stop_step :
      (k : ℕ) (flags : Flags) (s : S)
      → flags.added_any ≡ false
      → fill_loop ops streamable (suc k) (first null all) null flags s h
        ≡ on_heap h (fill_items ops streamable (suc k) all [] flags s)
  unfolding fill_loop fill_items
  stop_step k flags s last = rw last refl

  pub fill_loop-fill_items :
      (k : ℕ) (before : Ptr) (rest : Cells) (flags : Flags) (s : S)
      → Linked h before null rest
      → fill_loop ops streamable k (first null all) (first null rest) flags s h
        ≡ on_heap h (fill_items ops streamable k all rest flags s)
  fill_loop-fill_items zero before rest flags s linked = unfold fill_loop fill_items in refl
  fill_loop-fill_items (suc k) before [] flags s linked = elim (Bool-cases flags.added_any) [
    | inl again ↦
        end_step k flags s again
          (fill_loop-fill_items k null all (record flags { added_any = false }) s links)
    | inr last ↦ stop_step k flags s last
  ]
  fill_loop-fill_items (suc k) before ((p, d) ∷ rest) flags s (ne, here, linked) =
      node_step k p before (first null rest) d flags s ne here
      ∙ follow-on_heap h _ _ (fill_items ops streamable k all rest)
          (fill_items ops streamable k all ((p, d) ∷ rest)) (turn ops streamable d flags s)
          (λ flags' s'. fill_loop-fill_items k p rest flags' s' linked)
          (λ flags' s'. fill_loop-fill_items k before ((p, d) ∷ rest) flags' s' (ne, here, linked))
      ∙ ap (on_heap h) (sym (item_step ops streamable k all p d rest flags s))
