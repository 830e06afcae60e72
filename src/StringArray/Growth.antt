-- ===== src/StringArray/Growth.antt =====
-- An array holds the strings that were added, in their order, whether or not it had to grow.
use iot_eclipse.Base.{
  ℕ, zero, suc, ◌+◌, ◌-◌, ◌^◌, ◌≤◌, ◌<◌, ◌≡◌, refl, Bool, true, false, Option, none, some, List, [],
  ◌∷◌, ◌++◌, ◌==◌, leb, if◌then◌else◌, length, length-append, take, replicate, length-replicate,
  get_elem?, length-set, get_elem?-set_self, get_elem?-set_ne, length-take, arith, Bool-cases, inl,
  inr, ◌∙◌, ◌≢◌,
}
use iot_eclipse.Code.{ErrorCode, ok, out_of_memory}
use iot_eclipse.Memory.{Memory}
use iot_eclipse.StringType.{StringT, add_size}
use iot_eclipse.StringArray.{
  Item, StringArray, empty_item, default_increment_value, room, items_size, store_item, resized,
  string_array_add, string_array_get,
}

-- The index stands inside the items, and the items have not outgrown a block.
pub record WellFormed (a : StringArray) : Type 0 where
  pub inside : a.index ≤ a.count
  pub whole : length a.items ≡ a.count
  pub small : a.count < 2 ^ 59
  pub step : a.increment_value < 2 ^ 59

room_lem : (n : ℕ) → n < 2 ^ 60 → room n ≡ n
room_lem n small = omega arith

get_elem?-grown :
    (n : ℕ) (xs ys : List Item) (i : ℕ)
    → i < n
    → i < length xs
    → get_elem? (take n xs ++ ys) i ≡ get_elem? xs i
get_elem?-grown zero xs ys i lt inside = absurd (omega arith)
get_elem?-grown (suc n) [] ys i lt inside = absurd (omega arith)
get_elem?-grown (suc n) (x ∷ xs) ys zero lt inside = refl
get_elem?-grown (suc n) (x ∷ xs) ys (suc i) lt inside =
    get_elem?-grown n xs ys i (omega arith) (omega arith)

-- The strings that `string_array_get` returned are returned still.
abbrev pub Keeps : StringArray → StringArray → Type 0
Keeps a b = (i : ℕ) → i < a.index → string_array_get b i ≡ string_array_get a i

store_WellFormed :
    (a : StringArray) (string : StringT) (destroy : Bool)
    → WellFormed a
    → a.index < a.count
    → WellFormed (store_item a string destroy)
unfolding store_item
store_WellFormed a string destroy wf less =
    let item : Item = record { string = some string; destroy = destroy } in
    record {
      inside = omega (arith, wf.inside, wf.small);
      whole = length-set a.items a.index item ∙ wf.whole;
      small = wf.small;
      step = wf.step;
    }

store_get :
    (a : StringArray) (string : StringT) (destroy : Bool)
    → WellFormed a
    → a.index < a.count
    → string_array_get (store_item a string destroy) a.index ≡ some string
unfolding store_item string_array_get
store_get a string destroy wf less =
    let item : Item = record { string = some string; destroy = destroy } in
    let here = get_elem?-set_self a.items a.index item (omega (arith, wf.whole)) in
    ground (arith, here, wf.small)

store_Keeps :
    (a : StringArray) (string : StringT) (destroy : Bool)
    → WellFormed a
    → a.index < a.count
    → Keeps a (store_item a string destroy)
unfolding store_item string_array_get
store_Keeps a string destroy wf less i before =
    let item : Item = record { string = some string; destroy = destroy } in
    let other : a.index ≢ i = λ e. absurd (omega arith) in
    rw (get_elem?-set_ne a.items item other) (ground (arith, wf.small))

module _ (a : StringArray) (increment : ℕ) (wf : WellFormed a) (pos : 0 < increment)
    (step : increment < 2 ^ 59) (fits : a.count + increment < 2 ^ 59) where
  abbrev grown : StringArray
  grown = resized a increment (add_size a.count increment)

  resized_WellFormed : WellFormed grown
  unfolding resized
  resized_WellFormed =
      let n : ℕ = add_size a.count increment in
      record {
        inside = omega (arith, wf.inside);
        whole =
            length-append (take (room n) a.items) (replicate (room n - length a.items) empty_item)
            ∙ omega (
              arith,
              wf.whole,
              length-take (room n) a.items,
              length-replicate (room n - length a.items) empty_item,
            );
        small = omega arith;
        step = step;
      }

  resized_Keeps : Keeps a grown
  unfolding resized string_array_get
  resized_Keeps i before =
      let n : ℕ = add_size a.count increment in
      rw
        (get_elem?-grown (room n) a.items (replicate (room n - length a.items) empty_item) i
          (omega (arith, wf.inside)) (omega (arith, wf.inside, wf.whole)))
        refl

-- What `string_array_add` did: with the array that is left, if there is one.
abbrev pub Added : StringArray → StringT → Memory → ErrorCode → Option StringArray → Memory → Type 0
Added a string m code none m' =
    (code ≡ out_of_memory) × (a.index ≡ a.count) × (m'.live ≡ m.live - 1)
Added a string m code (some b) m' =
    (code ≡ ok)
    × WellFormed b
    × (b.index ≡ a.index + 1)
    × (string_array_get b a.index ≡ some string)
    × Keeps a b
    × (m'.live ≡ m.live)

Added-end :
    (a b : StringArray) (string : StringT) (destroy : Bool) (m m' : Memory)
    → WellFormed b
    → b.index < b.count
    → b.index ≡ a.index
    → Keeps a b
    → m'.live ≡ m.live
    → Added a string m ok (some (store_item b string destroy)) m'
Added-end a b string destroy m m' wf less same keeps live = (
  refl,
  store_WellFormed b string destroy wf less,
  unfold store_item in omega (arith, wf.small),
  rw (← same) (store_get b string destroy wf less),
  λ i before. store_Keeps b string destroy wf less i (omega arith) ∙ keeps i before,
  live,
)

-- The increment of an array that is full: 0 stands for the default.
abbrev pub growth : StringArray → ℕ
growth a = if a.increment_value == 0 then default_increment_value else a.increment_value

module _ (a : StringArray) (string : StringT) (destroy : Bool) (m : Memory) where
  abbrev asked_again : Memory
  asked_again = record m { asked = m.asked + 1 }

  room_step :
      leb a.count a.index ≡ false
      → string_array_add a string destroy m ≡ ((ok, some (store_item a string destroy)), m)
  unfolding string_array_add
  room_step e = rw e refl

  grow_step :
      leb a.count a.index ≡ true
      → (items_size (add_size a.count (growth a)) == 0) ≡ false
      → m.answers m.asked ≡ true
      → string_array_add a string destroy m ≡ (
        (ok, some (store_item (resized a (growth a) (add_size a.count (growth a))) string destroy)),
        asked_again,
      )
  unfolding string_array_add
  grow_step e size granted = rw (e, size, granted) refl

  refused_step :
      leb a.count a.index ≡ true
      → (items_size (add_size a.count (growth a)) == 0) ≡ false
      → m.answers m.asked ≡ false
      → string_array_add a string destroy m
        ≡ ((out_of_memory, none), record asked_again { live = m.live - 1 })
  unfolding string_array_add
  refused_step e size refused = rw (e, size, refused) refl

-- `string_array_add` on a well-formed array appends its string, also where the array is full and has
-- to grow: the array stays well-formed, the string is found at the old index, and every string
-- before is found as before. Only a full array that cannot grow is refused, and its items are
-- released then. The array is far from the largest that a size can count.
pub string_array_add-get :
    (a : StringArray) (string : StringT) (destroy : Bool) (m : Memory)
    → WellFormed a
    → a.count + growth a < 2 ^ 59
    → let ((code, b), m') = string_array_add a string destroy m in Added a string m code b m'
string_array_add-get a string destroy m wf fits =
    let n : ℕ = add_size a.count (growth a) in
    elim (Bool-cases (leb a.count a.index)) [
      | inr open_slot ↦
          rw (room_step a string destroy m open_slot)
            (Added-end a a string destroy m m wf (ground arith) refl (λ i before. refl) refl)
      | inl full ↦
          let pos : 0 < growth a = ground arith in
          let step : growth a < 2 ^ 59 = ground (arith, wf.step) in
          let size : (items_size n == 0) ≡ false = ground (arith, pos) in
          elim (Bool-cases (m.answers m.asked)) [
            | inl granted ↦ rw (grow_step a string destroy m full size granted) (
                Added-end a (resized a (growth a) n) string destroy m
                  (asked_again a string destroy m)
                  (resized_WellFormed a (growth a) wf pos step fits)
                  (unfold resized in omega (arith, wf.inside)) (unfold resized in refl)
                  (resized_Keeps a (growth a) wf pos step fits) refl)
            | inr refused ↦
                rw (refused_step a string destroy m full size refused)
                  (refl, ground (arith, wf.inside), refl)
          ]
    ]
