-- ===== src/LinkedList/Examples.antt =====
-- A list of two items, and the theorems at it.
use iot_eclipse.Base.{◌≡◌, inl, refl, true, false, none, some, [], ◌∷◌, arith, ◌==◌}
use iot_eclipse.Code.{ErrorCode, ok, is_ok}
use iot_eclipse.LinkedList.{
  null, node, Heap, write, done, ListT, list_add, list_remove, list_exist,
  list_destroy_with_content, list_reset,
}
use iot_eclipse.LinkedList.Segment.{Cells, IsList, Returns}
use iot_eclipse.LinkedList.Add.{Added, list_add-snoc, list_add_refused}
use iot_eclipse.LinkedList.Remove.{Removed, list_remove-drop}
use iot_eclipse.LinkedList.Walk.{find_item, called, Without, list_exist-find_item, destroy-Without}
use iot_eclipse.LinkedList.Iterate.{visit, visit-reset, visit-suffix}

abbrev heap : Heap
heap = write (write (λ _. none) 8 (some (node 30 null 9))) 9 (some (node 40 8 null))

abbrev two : ListT
two = record { count = 2; head = 8; last = 9; current = 9 }

abbrev cells : Cells
cells = (8, 30) ∷ (9, 40) ∷ []

two-IsList : IsList heap two cells
unfolding write
two-IsList = record {
  links = (omega arith, refl, (omega arith, refl, tt));
  distinct = (refl, (refl, tt));
  head_first = refl;
  last_last = refl;
  counted = refl;
}

list_add-snoc_example : Returns (Added cells two 10 50) (list_add 10 two 50 heap)
unfolding write
list_add-snoc_example =
    list_add-snoc heap two cells 10 50 two-IsList (omega arith) refl (omega arith)

list_add_refused_test :
    (c : ErrorCode) × (list_add null two 50 heap ≡ done (c, two) heap) × (is_ok c ≡ false)
list_add_refused_test = list_add_refused heap two null 50 (inl refl)

list_remove-drop_example :
    Returns (Removed heap ((8, 30) ∷ []) 9 40 [] two) (list_remove two 9 heap)
list_remove-drop_example = list_remove-drop heap two ((8, 30) ∷ []) [] 9 40 two-IsList

visit-reset_test : visit 3 (list_reset two) heap ≡ done (8 ∷ 9 ∷ [], list_reset two) heap
visit-reset_test = visit-reset heap two cells two-IsList

visit-suffix_test : visit 2 two heap ≡ done (9 ∷ [], list_reset two) heap
visit-suffix_test = visit-suffix heap two ((8, 30) ∷ []) ((9, 40) ∷ []) two-IsList refl

list_exist-find_item_example : list_exist (λ d. d == 40) two heap ≡ done (ok, some 40) heap
unfolding find_item
list_exist-find_item_example = list_exist-find_item (λ d. d == 40) heap two cells two-IsList

destroy-Without_example :
    Returns
      (λ out g. (out ≡ called true cells) × Without cells heap g)
      (list_destroy_with_content true two heap)
destroy-Without_example = destroy-Without true heap two cells two-IsList
