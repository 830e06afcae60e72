-- ===== src/Exchange/Fill/Written.antt =====
-- A request that was filled without streaming holds something.
use iot_eclipse.Base.{
  ℕ, zero, suc, ◌≡◌, ◌≢◌, refl, Bool, true, false, Option, some, [], ◌∷◌, ◌==◌, arith, ap,
  Bool-cases, inl, inr, ==_iff,
}
use mathlib.Core.Option.{some-injective}
use iot_eclipse.Code.{ErrorCode, ok, fail, is_ok}
use iot_eclipse.LinkedList.Segment.{Cells}
use iot_eclipse.Store.{DataState, initial, written, streaming}
use iot_eclipse.Exchange.Update.{has_item}
use iot_eclipse.Exchange.Fill.{
  Adding, Flags, Turn, leave, break, advance, stay, Ended, broken, returned, follow, turn, iterate,
  check_result, try_add, after_prepare, is_added, is_no_more_space, is_streaming, is_initial,
}
use iot_eclipse.Exchange.Fill.Branches.{check_added, check_failed, check_keep}
use iot_eclipse.Exchange.Fill.Items.{fill_items}
use iot_eclipse.Exchange.Fill.Steps.{Lawful}

module _ {S : Type 0} (ops : Adding S) (laws : Lawful ops) (all : Cells) where
  -- Some datum of the list has been written.
  abbrev pub Any : S → Type 0
  Any s = (a : ℕ) × (has_item a all ≡ true) × (ops.states s a ≡ written)

  -- No datum is being streamed, and if the flag says so some has been written.
  pub record Holds (any : Bool) (s : S) : Type 0 where
    pub still : (a : ℕ) → ops.states s a ≢ streaming
    pub some_written : any ≡ true → Any s

  abbrev pub Turned : Turn S → Type 0
  Turned (leave code s) = (code ≡ fail) × ((a : ℕ) → ops.states s a ≢ streaming)
  Turned (break flags s) = Holds flags.added_any_at_all s
  Turned (advance flags s) = Holds flags.added_any_at_all s
  Turned (stay flags s) = Holds flags.added_any_at_all s

  abbrev pub EndedWell : Ended S → Type 0
  EndedWell (returned code s) = (code ≡ fail) × ((a : ℕ) → ops.states s a ≢ streaming)
  EndedWell (broken any s) = Holds any s

  module _ (d : ℕ) (flags : Flags) (inside : has_item d all ≡ true) where
    iterate-Turned :
        (flags' : Flags) (s : S)
        → Holds flags'.added_any_at_all s
        → Turned (iterate ops false d flags' s)
    unfolding iterate
    iterate-Turned flags' s holds = elim (Bool-cases (is_streaming (ops.states s d))) [
      | inl on ↦ rw on holds
      | inr off ↦ rw off holds
    ]

    off : (s : S) → ((a : ℕ) → ops.states s a ≢ streaming) → is_streaming (ops.states s d) ≡ false
    off s still = ground (arith, still d)

    check_result-Turned :
        (code : ErrorCode) (s : S)
        → ((a : ℕ) → ops.states s a ≢ streaming)
        → (flags.added_any_at_all ≡ true → Any s)
        → (is_added code ≡ true → ops.states s d ≡ written)
        → Turned (check_result ops false d flags (code, s))
    check_result-Turned code s still prior now = elim (Bool-cases (is_added code)) [
      | inl good ↦
          rw (check_added ops false d flags code s good) (
            iterate-Turned _ s
              (record { still = still; some_written = λ _. (d, inside, now good) }))
      | inr bad ↦ elim (Bool-cases (is_no_more_space code)) [
        | inr other ↦
            rw (check_failed ops false d flags code s bad other)
              (record { still = still; some_written = prior })
        | inl full ↦
            rw (check_keep ops false d flags code s bad full (off s still) refl)
              (iterate-Turned flags s (record { still = still; some_written = prior }))
      ]
    ]

    try_add-Turned :
        (state : DataState) (s : S)
        → ops.states s d ≡ state
        → Holds flags.added_any_at_all s
        → Turned (try_add ops false d flags state s)
    unfolding try_add
    try_add-Turned DataState.initial s e holds = iterate-Turned flags s holds
    try_add-Turned DataState.written s e holds = iterate-Turned flags s holds
    try_add-Turned DataState.sent s e holds = iterate-Turned flags s holds
    try_add-Turned DataState.streaming s e holds = absurd (holds.still d e)
    try_add-Turned DataState.prepared s e holds =
        let (code, s') = ops.add_current_data d s in
        check_result-Turned code s' (λ a now. holds.still a (ground (arith, laws.add d a s e, now)))
          (λ any.
            let (a, i, was) = holds.some_written any in
            (a, i, ground (arith, laws.add d a s e, was)))
          (λ good. ground (arith, laws.add d d s e, good))

    after_prepare-Turned :
        (code : ErrorCode) (s : S)
        → Holds flags.added_any_at_all s
        → Turned (after_prepare ops false d flags (code, s))
    unfolding after_prepare
    after_prepare-Turned code s holds = elim (Bool-cases (is_ok code)) [
      | inl good ↦ rw good (try_add-Turned (ops.states s d) s refl holds)
      | inr bad ↦ rw bad (refl, holds.still)
    ]

    is_initial_eq : (state : DataState) → is_initial state ≡ true → state ≡ initial
    is_initial_eq state e = ground (arith, e)

    kept_written :
        (a : ℕ) (s : S)
        → ops.states s d ≡ initial
        → ops.states s a ≡ written
        → ops.states (ops.prepare_data d s).1 a ≡ written
    kept_written a s e was = elim (Bool-cases (a == d)) [
      | inl same ↦ absurd (ground (arith, was, ap (ops.states s) ((==_iff a d).0 same), e))
      | inr other ↦ ground (arith, laws.prepare d a s e, other, was)
    ]

    pub turn-Turned : (s : S) → Holds flags.added_any_at_all s → Turned (turn ops false d flags s)
    unfolding turn
    turn-Turned s holds = elim (Bool-cases (is_initial (ops.states s d))) [
      | inl new ↦
          let e = is_initial_eq (ops.states s d) new in
          let (code, s') = ops.prepare_data d s in
          rw new (
            after_prepare-Turned code s' (record {
              still = λ a now. holds.still a (ground (arith, laws.prepare d a s e, now));
              some_written =
                  λ any. let (a, i, was) = holds.some_written any in (a, i, kept_written a s e was);
            }))
      | inr old ↦ rw old (after_prepare-Turned ok s holds)
    ]

  follow-EndedWell :
      (t : Turn S) (next again : Flags → S → Option (Ended S)) (ended : Ended S)
      → Turned t
      → ((flags : Flags) (s : S)
          → Holds flags.added_any_at_all s
          → next flags s ≡ some ended
          → EndedWell ended)
      → ((flags : Flags) (s : S)
          → Holds flags.added_any_at_all s
          → again flags s ≡ some ended
          → EndedWell ended)
      → follow some next again t ≡ some ended
      → EndedWell ended
  follow-EndedWell (leave code s) next again ended turned f g e =
      rw (← some-injective (returned code s) ended e) turned
  follow-EndedWell (break flags s) next again ended turned f g e =
      rw (← some-injective (broken flags.added_any_at_all s) ended e) turned
  follow-EndedWell (advance flags s) next again ended turned f g e = f flags s turned e
  follow-EndedWell (stay flags s) next again ended turned f g e = g flags s turned e

  end_EndedWell :
      (s : S) (any again : Bool) (next : Option (Ended S)) (ended : Ended S)
      → Holds any s
      → (next ≡ some ended → EndedWell ended)
      → (elim again [ true ↦ next | false ↦ some (broken any s) ]) ≡ some ended
      → EndedWell ended
  end_EndedWell s any true next ended holds f e = f e
  end_EndedWell s any false next ended holds f e =
      rw (← some-injective (broken any s) ended e) holds

  pub fill_items-EndedWell :
      (k : ℕ) (rest : Cells) (flags : Flags) (s : S) (ended : Ended S)
      → ((a : ℕ) → has_item a rest ≡ true → has_item a all ≡ true)
      → Holds flags.added_any_at_all s
      → fill_items ops false k all rest flags s ≡ some ended
      → EndedWell ended
  unfolding fill_items
  fill_items-EndedWell zero rest flags s ended inside holds e = absurd (ground (arith, e))
  fill_items-EndedWell (suc k) [] flags s ended inside holds e =
      end_EndedWell s flags.added_any_at_all flags.added_any _ ended holds
        (fill_items-EndedWell k all (record flags { added_any = false }) s ended (λ a i. i) holds) e
  fill_items-EndedWell (suc k) ((p, d) ∷ rest) flags s ended inside holds e =
      follow-EndedWell (turn ops false d flags s) _ _ ended
        (turn-Turned d flags (inside d (ground arith)) s holds)
        (λ flags' s' holds'.
          fill_items-EndedWell k rest flags' s' ended (λ a i. inside a (ground (arith, i))) holds')
        (λ flags' s' holds'. fill_items-EndedWell k ((p, d) ∷ rest) flags' s' ended inside holds') e
