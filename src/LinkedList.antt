-- ===== src/LinkedList.antt =====
-- MindConnect_Library_V3.1.3.0/src/list.c: the doubly linked list with a cursor, on an explicit
-- heap of nodes. The `list_t` itself is a record that the functions return anew. A `void *` is a
-- number, and 0 is NULL.
pub mod Segment
pub mod Add
pub mod Unlink
pub mod Remove
pub mod Iterate
pub mod Walk
mod Examples
use iot_eclipse.Base.{
  ℕ, zero, suc, ◌+◌, ◌-◌, ◌^◌, Bool, true, false, not, ◌&&◌, Option, none, some, List, [], ◌∷◌,
  ◌==◌, ltb, if◌then◌else◌,
}
use iot_eclipse.Code.{ErrorCode, ok, fail, out_of_memory, array_is_empty, limit_exceeded, is_ok}

abbrev pub Ptr : Type 0
Ptr = ℕ

abbrev pub null : Ptr
null = 0

-- `list_node_t`
pub record Node : Type 0 where
  pub item : ℕ
  pub prev : Ptr
  pub next : Ptr

abbrev pub node : ℕ → Ptr → Ptr → Node
node d p n = record { item = d; prev = p; next = n }

abbrev pub Heap : Type 0
Heap = Ptr → Option Node

unfoldable pub write : Heap → Ptr → Option Node → Heap
write heap place cell a = if a == place then cell else heap a

-- A run ends well, touches memory that is no node, or has not ended within its fuel.
pub data Run (A : Type 0) : Type 0 where
  fault out_of_fuel : Run A
  done : A → Heap → Run A

abbrev pub Cmd : Type 0 → Type 0
Cmd A = Heap → Run A

abbrev pub pure : {A : Type 0} → A → Cmd A
pure = done

abbrev pub and_then : {A B : Type 0} → Run A → (A → Cmd B) → Run B
and_then fault next = fault
and_then out_of_fuel next = out_of_fuel
and_then (done result heap) next = next result heap

infixl 5 ◌>>=◌ ◌>>◌
abbrev pub ◌>>=◌ : {A B : Type 0} → Cmd A → (A → Cmd B) → Cmd B
command >>= next = λ heap. and_then (command heap) next

abbrev pub ◌>>◌ : {A B : Type 0} → Cmd A → Cmd B → Cmd B
command >> next = command >>= λ _. next

-- `*p`: a fault at NULL and where there is no node.
unfoldable pub load : Ptr → Cmd Node
load p h = if p == null then fault else elim (h p) [ none ↦ fault | some n ↦ done n h ]

abbrev pub put : Ptr → Option Node → Cmd (Unit {0})
put p c h = done tt (write h p c)

-- `p->next = q` and `p->prev = q`
unfoldable pub set_next : Ptr → Ptr → Cmd (Unit {0})
unfolding load
set_next p q = do n ← load p; put p (some (record n { next = q }))

unfoldable pub set_prev : Ptr → Ptr → Cmd (Unit {0})
unfolding load
set_prev p q = do n ← load p; put p (some (record n { prev = q }))

unfoldable pub free : Ptr → Cmd (Unit {0})
unfolding load
free p = load p >> put p none

-- `list_t`
pub record ListT : Type 0 where
  pub count : ℕ
  pub head : Ptr
  pub last : Ptr
  pub current : Ptr

-- `list_initialize`, for a list that could be allocated.
abbrev pub list_initialize : ListT
list_initialize = record { count = 0; head = null; last = null; current = null }

-- `list_add`; `fresh` is what `malloc` returns for the node.
unfoldable pub list_add : Ptr → ListT → ℕ → Cmd (ErrorCode × ListT)
unfolding set_next
list_add fresh l d =
    if not (ltb l.count (2 ^ 64 - 1))
    then pure (limit_exceeded, l)
    else if fresh == null
    then pure (out_of_memory, l)
    else (do
      put fresh (some (node d l.last null))
      if l.count == 0
          then pure
              (ok, record { count = l.count + 1; head = fresh; last = fresh; current = fresh })
          else (do
            set_next l.last fresh
            pure (ok, record l { count = l.count + 1; last = fresh })))

-- The connections round a node that is taken out.
unfoldable pub unlink : Node → Cmd (Unit {0})
unfolding set_next set_prev
unlink n =
    if n.prev == null
    then (if n.next == null then pure tt else set_prev n.next null)
    else if n.next == null
    then set_next n.prev null
    else (do set_next n.prev n.next; set_prev n.next n.prev)

-- `list_remove`
unfoldable pub list_remove : ListT → Ptr → Cmd (ErrorCode × ListT)
unfolding load free
list_remove l p = if not (ltb 0 l.count) then pure (array_is_empty, l) else (do
  before ← load p
  unlink before
  n ← load p
  free p
  pure (
    ok,
    record {
      count = l.count - 1;
      head = if l.head == p then n.next else l.head;
      last = if l.last == p then n.prev else l.last;
      current = if l.current == p then n.next else l.current;
    },
  ))

-- `list_remove_with_content`: with the items that the callback was called on.
unfoldable pub list_remove_with_content : ListT → Ptr → Cmd (ErrorCode × ListT × List ℕ)
unfolding load list_remove
list_remove_with_content l p = do
  n ← load p
  (code, l') ← list_remove l p
  pure (code, l', if is_ok code && not (n.item == null) then n.item ∷ [] else [])

-- `list_next`: the node under the cursor, and the list with the cursor moved on. From behind the
-- end it moves to the head.
unfoldable pub list_next : ListT → Cmd (Ptr × ListT)
unfolding load
list_next l =
    if l.current == null
    then pure (l.current, record l { current = l.head })
    else (do n ← load l.current; pure (l.current, record l { current = n.next }))

-- `list_reset`
unfoldable pub list_reset : ListT → ListT
list_reset l = record l { current = l.head }

-- The loop of `list_exist`: the item that `compare_function` accepts first.
exist_loop : ℕ → (ℕ → Bool) → Ptr → Cmd (Option ℕ)
unfolding load
exist_loop zero accepts p h = out_of_fuel
exist_loop (suc k) accepts p h = elim (p == null) [
  | true ↦ done none h
  | false ↦ and_then (load p h) λ n g. elim (accepts n.item) [
    | true ↦ done (some n.item) g
    | false ↦ exist_loop k accepts n.next g
  ]
]

-- `list_exist`
unfoldable pub list_exist : (ℕ → Bool) → ListT → Cmd (ErrorCode × Option ℕ)
unfolding exist_loop
list_exist accepts l = do
  found ← exist_loop (l.count + 1) accepts l.head
  pure (elim found [ none ↦ (fail, none) | some d ↦ (ok, some d) ])

-- The loop of `list_destroy_with_content`, with the items that the callback was called on.
destroy_loop : ℕ → Bool → Ptr → Cmd (List ℕ)
unfolding load free
destroy_loop zero callback p h = out_of_fuel
destroy_loop (suc k) callback p h = elim (p == null) [
  | true ↦ done [] h
  | false ↦ and_then (load p h) λ n g. and_then (free p g) λ _ g'.
      and_then (destroy_loop k callback n.next g') λ called end.
        done (if callback && not (n.item == null) then n.item ∷ called else called) end
]

-- `list_destroy_with_content` and, without a callback, `list_destroy`, for a list that is not NULL.
unfoldable pub list_destroy_with_content : Bool → ListT → Cmd (List ℕ)
unfolding destroy_loop
list_destroy_with_content callback l = destroy_loop (l.count + 1) callback l.head

unfoldable pub list_destroy : ListT → Cmd (List ℕ)
unfolding list_destroy_with_content
list_destroy = list_destroy_with_content false
