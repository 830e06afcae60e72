-- ===== src/Exchange/Fill/Ends.antt =====
-- The loop ends: a bound for its rounds.
use iot_eclipse.Base.{
  ℕ, zero, suc, ◌+◌, ◌*◌, ◌≤◌, ◌<◌, ◌≡◌, ◌≢◌, refl, Bool, true, false, Option, some, [], ◌∷◌, ◌==◌,
  arith, ap, Bool-cases, inl, inr, ◌⊎◌, length, if◌then◌else◌, ==_iff,
}
use iot_eclipse.LinkedList.Segment.{Cells}
use iot_eclipse.Store.{DataState, streaming}
use iot_eclipse.Exchange.Update.{has_item}
use iot_eclipse.Exchange.Fill.{
  Adding, Flags, Turn, leave, break, advance, stay, Ended, follow, turn, is_streaming, no_flags,
  fill_rounds,
}
use iot_eclipse.Exchange.Fill.Steps.{Lawful}
use iot_eclipse.Exchange.Fill.Advance.{Moves, world, turn-Moves}
use iot_eclipse.Exchange.Fill.Written.{Holds, Turned, turn-Turned}
use iot_eclipse.Exchange.Fill.Lighter.{weight, weight-Steps, left, Progress, turn-Progress}
use iot_eclipse.Exchange.Fill.Items.{fill_items, item_step}

fewer_at_next : (m r q' q : ℕ) → q' ≤ q → q' * m + r + 1 < q * m + suc r + 1
fewer_at_next m r q' q h = grind arith

fewer_at_end : (n q' q : ℕ) → q' < q → q' * (n + 1) + n + 1 < q * (n + 1) + 0 + 1
fewer_at_end n q' q h = grind arith

weight_le : (s : DataState) → weight s ≤ 1
weight_le s = ground arith

first_rounds : (m r n t c : ℕ) → t ≤ c → r ≤ n → (2 * t + 0) * m + r + 1 ≤ 2 * c * m + n + 1
first_rounds m r n t c le le' = grind arith

module _ {S : Type 0} (ops : Adding S) (laws : Lawful ops) where
  -- What is left to do for all data of a list.
  abbrev pub total : Cells → S → ℕ
  total [] s = 0
  total ((p, d) ∷ xs) s = left ops laws d s + total xs s

  total_count : (xs : Cells) (s : S) → total xs s ≤ length xs
  total_count [] s = omega arith
  total_count ((p, d) ∷ xs) s = omega (arith, total_count xs s, weight_le (ops.states s d))

  total_le :
      (xs : Cells) (s s' : S)
      → ((a : ℕ) → left ops laws a s' ≤ left ops laws a s)
      → total xs s' ≤ total xs s
  total_le [] s s' all = omega arith
  total_le ((p, d) ∷ xs) s s' all = omega (arith, all d, total_le xs s s' all)

  total_lt :
      (xs : Cells) (s s' : S) (a : ℕ)
      → ((b : ℕ) → left ops laws b s' ≤ left ops laws b s)
      → left ops laws a s' < left ops laws a s
      → has_item a xs ≡ true
      → total xs s' < total xs s
  total_lt [] s s' a all less i = absurd (ground (arith, i))
  total_lt ((p, d) ∷ xs) s s' a all less i = elim (Bool-cases (a == d)) [
    | inl same ↦
        let e = (==_iff a d).0 same in
        omega (
          arith,
          ap (λ b. left ops laws b s) e,
          ap (λ b. left ops laws b s') e,
          total_le xs s s' all,
        )
    | inr other ↦ omega (arith, all d, total_lt xs s s' a all less (ground (arith, i, other)))
  ]

  -- The rounds that are enough, with the data and the nodes that are left.
  abbrev flag : Bool → ℕ
  flag b = if b then 1 else 0

  abbrev pub rounds : Cells → Cells → Flags → S → ℕ
  rounds all rest flags s =
      (2 * total all s + flag flags.added_any) * (length all + 1) + length rest + 1

  flag_le : (b : Bool) → flag b ≤ 1
  flag_le b = ground arith

  module _ (all : Cells) where
    -- The next round has enough left.
    next_rounds :
        (rest : Cells) (p : ℕ) (d : ℕ) (flags flags' : Flags) (s s' : S)
        → has_item d all ≡ true
        → ((a : ℕ) → left ops laws a s' ≤ left ops laws a s)
        → (flags'.added_any ≡ flags.added_any) ⊎ (left ops laws d s' < left ops laws d s)
        → rounds all rest flags' s' < rounds all ((p, d) ∷ rest) flags s
    next_rounds rest p d flags flags' s s' i none_heavier (inl same) =
        fewer_at_next (length all + 1) (length rest) _ _
          (omega (arith, total_le all s s' none_heavier, ap flag same))
    next_rounds rest p d flags flags' s s' i none_heavier (inr less) =
        fewer_at_next (length all + 1) (length rest) _ _
          (omega (arith, total_lt all s s' d none_heavier less i, flag_le flags'.added_any))

    -- The loop ends within so many rounds.
    abbrev Ending : Option (Ended S) → Type 0
    Ending result = (ended : Ended S) × (result ≡ some ended)

    -- What is known where the loop stands: no datum is being streamed.
    abbrev Still : Flags → S → Type 0
    Still flags s = Holds ops laws all flags.added_any_at_all s

    lower : (s s' : S) → Moves ops laws s s' → (a : ℕ) → left ops laws a s' ≤ left ops laws a s
    lower s s' m a = weight-Steps (m a)

    follow-Ending :
        (d : ℕ) (flags : Flags) (s : S) (t : Turn S) (onward again : Flags → S → Option (Ended S))
        → Progress ops laws d flags s t
        → Moves ops laws s (world ops laws t)
        → Turned ops laws all t
        → ((flags' : Flags) (s' : S)
            → ((a : ℕ) → left ops laws a s' ≤ left ops laws a s)
            → (flags'.added_any ≡ flags.added_any) ⊎ (left ops laws d s' < left ops laws d s)
            → Still flags' s'
            → Ending (onward flags' s'))
        → Ending (follow some onward again t)
    unfolding Progress
    follow-Ending d flags s (leave code s') onward again near m still f = (_, refl)
    follow-Ending d flags s (break flags' s') onward again near m still f = (_, refl)
    follow-Ending d flags s (advance flags' s') onward again near m still f =
        f flags' s' (lower s s' m) near still
    follow-Ending d flags s (stay flags' s') onward again near m still f = absurd near

    restart :
        (k : ℕ) (flags : Flags) (s : S)
        → flags.added_any ≡ true
        → Ending (fill_items ops false k all all (record flags { added_any = false }) s)
        → Ending (fill_items ops false (suc k) all [] flags s)
    unfolding fill_items
    restart k flags s again ending = rw again ending

    stop :
        (k : ℕ) (flags : Flags) (s : S)
        → flags.added_any ≡ false
        → Ending (fill_items ops false (suc k) all [] flags s)
    unfolding fill_items
    stop k flags s last = rw last (_, refl)

    fill_items_lem :
        (k : ℕ) (rest : Cells) (flags : Flags) (s : S)
        → ((a : ℕ) → has_item a rest ≡ true → has_item a all ≡ true)
        → Still flags s
        → rounds all rest flags s < k
        → Ending (fill_items ops false k all rest flags s)
    fill_items_lem zero rest flags s inside still fuel = absurd (omega arith)
    fill_items_lem (suc k) [] flags s inside still fuel = elim (Bool-cases flags.added_any) [
      | inl again ↦
          let one : flag flags.added_any ≡ 1 = ap flag again in
          let fewer =
            fewer_at_end (length all) (2 * total all s + 0) (2 * total all s + flag flags.added_any)
              (omega arith) in
          restart k flags s again (
            fill_items_lem k all (record flags { added_any = false }) s (λ a i. i) still
              (omega (arith, fewer)))
      | inr last ↦ stop k flags s last
    ]
    fill_items_lem (suc k) ((p, d) ∷ rest) flags s inside still fuel =
        let i = inside d (ground arith) in
        let off : is_streaming (ops.states s d) ≡ false = ground (arith, still.still d) in
        rw (item_step ops false k all p d rest flags s) (
          follow-Ending d flags s (turn ops false d flags s) (fill_items ops false k all rest)
            (fill_items ops false k all ((p, d) ∷ rest)) (turn-Progress ops laws d flags s off)
            (turn-Moves ops laws false d flags s) (turn-Turned ops laws all d flags i s still)
            (λ flags' s' all_le l still'.
              fill_items_lem k rest flags' s' (λ a j. inside a (ground (arith, j))) still'
                (omega (arith, next_rounds rest p d flags flags' s s' i all_le l))))

    pub fill_items-Ending :
        (k : ℕ) (rest : Cells) (s : S)
        → ((a : ℕ) → has_item a rest ≡ true → has_item a all ≡ true)
        → length rest ≤ length all
        → ((a : ℕ) → ops.states s a ≢ streaming)
        → fill_rounds (length all) ≤ k
        → Ending (fill_items ops false k all rest no_flags s)
    fill_items-Ending k rest s inside le still enough =
        fill_items_lem k rest no_flags s inside
          (record { still = still; some_written = λ no_any. absurd (ground (arith, no_any)) })
          (omega (
            arith,
            first_rounds (length all + 1) (length rest) (length all) (total all s) (length all)
                (total_count all s) le,
            enough,
          ))
