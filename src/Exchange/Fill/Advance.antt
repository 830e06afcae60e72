-- ===== src/Exchange/Fill/Advance.antt =====
-- The states that the data go through while a request is filled.
use iot_eclipse.Base.{
  ℕ, zero, suc, ◌≡◌, refl, Bool, ◌&&◌, true, false, Option, some, [], ◌∷◌, ◌==◌, arith, ◌∙◌, ap,
  Bool-cases, inl, inr, ◌⊎◌, if◌then◌else◌,
}
use mathlib.Core.Option.{some-injective}
use iot_eclipse.Code.{ErrorCode, ok, is_ok}
use iot_eclipse.LinkedList.Segment.{Cells}
use iot_eclipse.Store.{
  DataState, initial, prepared, written, streaming, States, store_data_set_state,
}
use iot_eclipse.Exchange.Fill.{
  Adding, Flags, Turn, leave, break, advance, stay, Ended, broken, returned, follow, turn, iterate,
  check_result, try_add, after_prepare, is_added, is_no_more_space, is_streaming, is_initial,
  conclude,
}
use iot_eclipse.Exchange.Fill.Branches.{
  check_added, check_failed, check_leave, check_start, check_keep,
}
use iot_eclipse.Exchange.Fill.Steps.{
  Step, prepare, write, start, complete, Steps, stop, and_more, Steps-trans, Lawful,
}
use iot_eclipse.Exchange.Fill.Items.{fill_items}

module _ {S : Type 0} (ops : Adding S) (laws : Lawful ops) where
  -- Each datum goes through some steps.
  abbrev pub Moves : S → S → Type 0
  Moves s s' = (a : ℕ) → Steps (ops.states s a) (ops.states s' a)

  Moves-trans : {s s1 s2 : S} → Moves s s1 → Moves s1 s2 → Moves s s2
  Moves-trans m n a = Steps-trans (m a) (n a)

  -- One step of one datum.
  one_step :
      (d a : ℕ) (states states' : States) (changes : Bool) (t : DataState)
      → Step (states d) t
      → states' a ≡ (if changes && a == d then t else states a)
      → Steps (states a) (states' a)
  one_step d a states states' changes t p e = elim (Bool-cases (changes && a == d)) [
    | inl here ↦
        let same : a ≡ d = ground arith in
        let now : states' a ≡ t = ground (arith, e, here) in rw (now, same) (and_more p stop)
    | inr not_here ↦ rw (e, not_here) stop
  ]

  -- The world after a round, and after the loop.
  abbrev pub world : Turn S → S
  world (leave code s) = s
  world (break flags s) = s
  world (advance flags s) = s
  world (stay flags s) = s

  abbrev pub ended_world : Ended S → S
  ended_world (returned code s) = s
  ended_world (broken any s) = s

  module _ (streamable : Bool) (d : ℕ) (flags : Flags) where
    world-iterate : (flags' : Flags) (s : S) → world (iterate ops streamable d flags' s) ≡ s
    unfolding iterate
    world-iterate flags' s = elim (Bool-cases (is_streaming (ops.states s d))) [
      | inl on ↦ rw on refl
      | inr off ↦ rw off refl
    ]

    iterate-Moves :
        (flags' : Flags) (s s' : S)
        → Moves s s'
        → Moves s (world (iterate ops streamable d flags' s'))
    iterate-Moves flags' s s' m = rw (world-iterate flags' s') m

    start-Moves :
        (s : S)
        → ops.states s d ≡ prepared
        → Moves s (ops.with_states (store_data_set_state d streaming (ops.states s)) s)
    unfolding store_data_set_state
    start-Moves s e a =
        let s' = ops.with_states (store_data_set_state d streaming (ops.states s)) s in
        one_step d a (ops.states s) (ops.states s') true streaming (rw e start)
          (ap (λ f. f a) (laws.states_with (store_data_set_state d streaming (ops.states s)) s))

    check_result-Moves :
        (code : ErrorCode) (s s' : S)
        → Moves s s'
        → (is_added code ≡ false → (ops.states s' d ≡ prepared) ⊎ (ops.states s' d ≡ streaming))
        → Moves s (world (check_result ops streamable d flags (code, s')))
    check_result-Moves code s s' m same = elim (Bool-cases (is_added code)) [
      | inl good ↦ rw (check_added ops streamable d flags code s' good) (iterate-Moves _ s s' m)
      | inr bad ↦ elim (Bool-cases (is_no_more_space code)) [
        | inr other ↦ rw (check_failed ops streamable d flags code s' bad other) m
        | inl full ↦ elim (same bad) [
          | inr on ↦ rw (check_leave ops streamable d flags code s' bad full (ap is_streaming on)) m
          | inl off ↦ elim (Bool-cases streamable) [
            | inl may ↦
                rw (check_start ops streamable d flags code s' bad full (ap is_streaming off) may)
                  (iterate-Moves flags s _ (Moves-trans m (start-Moves s' off)))
            | inr cannot ↦
                rw (check_keep ops streamable d flags code s' bad full (ap is_streaming off) cannot)
                  (iterate-Moves flags s s' m)
          ]
        ]
      ]
    ]

    add-Moves :
        (s : S)
        → ops.states s d ≡ prepared
        → Moves s (world (check_result ops streamable d flags (ops.add_current_data d s)))
    add-Moves s e =
        let (code, s') = ops.add_current_data d s in
        check_result-Moves code s s'
          (λ a.
            one_step d a (ops.states s) (ops.states s') (is_added code) written (rw e write)
              (laws.add d a s e))
          (λ bad. inl (ground (arith, laws.add d d s e, bad, e)))

    stream_step :
        (s s' : S) (code : ErrorCode) (a : ℕ)
        → ops.states s d ≡ streaming
        → (ops.states s' a ≡ ops.states s a)
          ⊎ ((is_added code ≡ true) × (a ≡ d) × (ops.states s' a ≡ written))
        → Steps (ops.states s a) (ops.states s' a)
    stream_step s s' code a e (inl same) = rw same stop
    stream_step s s' code a e (inr (good, same, now)) =
        let was : ops.states s a ≡ streaming = ap (ops.states s) same ∙ e in
        rw (now, was) (and_more complete stop)

    stream-Moves :
        (s : S)
        → ops.states s d ≡ streaming
        → Moves s (world (check_result ops streamable d flags (ops.add_by_streaming d s)))
    stream-Moves s e =
        let (code, s') = ops.add_by_streaming d s in
        check_result-Moves code s s' (λ a. stream_step s s' code a e (laws.stream d a s e))
          (λ bad. elim (laws.stream d d s e) [
            | inl same ↦ inr (same ∙ e)
            | inr (good, _, _) ↦ absurd (ground (arith, good, bad))
          ])

    try_add-Moves :
        (state : DataState) (s : S)
        → ops.states s d ≡ state
        → Moves s (world (try_add ops streamable d flags state s))
    unfolding try_add
    try_add-Moves DataState.initial s e = iterate-Moves flags s s (λ a. stop)
    try_add-Moves DataState.written s e = iterate-Moves flags s s (λ a. stop)
    try_add-Moves DataState.sent s e = iterate-Moves flags s s (λ a. stop)
    try_add-Moves DataState.prepared s e = add-Moves s e
    try_add-Moves DataState.streaming s e = stream-Moves s e

    after_prepare-Moves :
        (code : ErrorCode) (s s' : S)
        → Moves s s'
        → Moves s (world (after_prepare ops streamable d flags (code, s')))
    unfolding after_prepare
    after_prepare-Moves code s s' m = elim (Bool-cases (is_ok code)) [
      | inl good ↦ rw good (Moves-trans m (try_add-Moves (ops.states s' d) s' refl))
      | inr bad ↦ rw bad m
    ]

    is_initial_eq : (state : DataState) → is_initial state ≡ true → state ≡ initial
    is_initial_eq state e = ground (arith, e)

    pub turn-Moves : (s : S) → Moves s (world (turn ops streamable d flags s))
    unfolding turn
    turn-Moves s = elim (Bool-cases (is_initial (ops.states s d))) [
      | inl new ↦
          let e = is_initial_eq (ops.states s d) new in
          let (code, s') = ops.prepare_data d s in
          rw new (
            after_prepare-Moves code s s' (λ a.
              one_step d a (ops.states s) (ops.states s') (is_ok code) prepared (rw e prepare)
                (laws.prepare d a s e)))
      | inr old ↦ rw old (after_prepare-Moves ok s s (λ a. stop))
    ]

  follow-Moves :
      (s : S) (t : Turn S) (onward again : Flags → S → Option (Ended S)) (ended : Ended S)
      → Moves s (world t)
      → ((flags : Flags) (s' : S) → onward flags s' ≡ some ended → Moves s' (ended_world ended))
      → ((flags : Flags) (s' : S) → again flags s' ≡ some ended → Moves s' (ended_world ended))
      → follow some onward again t ≡ some ended
      → Moves s (ended_world ended)
  follow-Moves s (leave code s') onward again ended m f g e =
      rw (← some-injective (returned code s') ended e) m
  follow-Moves s (break flags s') onward again ended m f g e =
      rw (← some-injective (broken flags.added_any_at_all s') ended e) m
  follow-Moves s (advance flags s') onward again ended m f g e = Moves-trans m (f flags s' e)
  follow-Moves s (stay flags s') onward again ended m f g e = Moves-trans m (g flags s' e)

  end_Moves :
      (s : S) (any again : Bool) (next : Option (Ended S)) (ended : Ended S)
      → (next ≡ some ended → Moves s (ended_world ended))
      → (elim again [ true ↦ next | false ↦ some (broken any s) ]) ≡ some ended
      → Moves s (ended_world ended)
  end_Moves s any true next ended f e = f e
  end_Moves s any false next ended f e = rw (← some-injective (broken any s) ended e) (λ a. stop)

  pub fill_items-Moves :
      (streamable : Bool) (k : ℕ) (all rest : Cells) (flags : Flags) (s : S) (ended : Ended S)
      → fill_items ops streamable k all rest flags s ≡ some ended
      → Moves s (ended_world ended)
  unfolding fill_items
  fill_items-Moves streamable zero all rest flags s ended e = absurd (ground (arith, e))
  fill_items-Moves streamable (suc k) all [] flags s ended e =
      end_Moves s flags.added_any_at_all flags.added_any _ ended
        (fill_items-Moves streamable k all all (record flags { added_any = false }) s ended) e
  fill_items-Moves streamable (suc k) all ((p, d) ∷ rest) flags s ended e =
      follow-Moves s (turn ops streamable d flags s) _ _ ended (turn-Moves streamable d flags s)
        (λ flags' s'. fill_items-Moves streamable k all rest flags' s' ended)
        (λ flags' s'. fill_items-Moves streamable k all ((p, d) ∷ rest) flags' s' ended) e

  pub conclude-Moves :
      (s : S) (ended : Ended S) → Moves s (ended_world ended) → Moves s (conclude ops ended).1
  unfolding conclude
  conclude-Moves s (returned code s') m = m
  conclude-Moves s (broken true s') m = λ a. rw (laws.finalize s') (m a)
  conclude-Moves s (broken false s') m = m
