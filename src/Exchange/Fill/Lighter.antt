-- ===== src/Exchange/Fill/Lighter.antt =====
-- A round of the loop brings the data nearer to their end, on a store that is not streamable: it never
-- stays at a node, and if it sets the flag then a datum that was left to do is left no longer.
use iot_eclipse.Base.{ℕ, ◌≤◌, ◌<◌, ◌≡◌, refl, true, false, arith, ap, Bool-cases, inl, inr, ◌⊎◌}
use iot_eclipse.Code.{ErrorCode, ok, is_ok}
use iot_eclipse.Store.{initial, DataState}
use iot_eclipse.Exchange.Fill.{
  Adding, Flags, Turn, leave, break, advance, stay, turn, iterate, check_result, try_add,
  after_prepare, is_added, is_no_more_space, is_streaming, is_initial,
}
use iot_eclipse.Exchange.Fill.Branches.{check_added, check_failed, check_keep}
use iot_eclipse.Exchange.Fill.Steps.{prepare, write, start, complete, Steps, stop, and_more, Lawful}

-- What is left to do for a datum.
abbrev pub weight : DataState → ℕ
weight DataState.initial = 1
weight DataState.prepared = 1
weight DataState.streaming = 0
weight DataState.written = 0
weight DataState.sent = 0

pub weight-Steps : {s t : DataState} → Steps s t → weight t ≤ weight s
weight-Steps stop = omega arith
weight-Steps (and_more prepare p) = omega (arith, weight-Steps p)
weight-Steps (and_more write p) = omega (arith, weight-Steps p)
weight-Steps (and_more start p) = omega (arith, weight-Steps p)
weight-Steps (and_more complete p) = omega (arith, weight-Steps p)

module _ {S : Type 0} (ops : Adding S) (laws : Lawful ops) where
  abbrev pub left : ℕ → S → ℕ
  left d s = weight (ops.states s d)

  unfoldable pub Progress : ℕ → Flags → S → Turn S → Type 0
  Progress d flags s (leave code s') = Unit
  Progress d flags s (break flags' s') = Unit
  Progress d flags s (advance flags' s') =
      (flags'.added_any ≡ flags.added_any) ⊎ (left d s' < left d s)
  Progress d flags s (stay flags' s') = ⊥

  module _ (d : ℕ) (flags : Flags) (s : S) where
    iterate-Progress :
        (flags' : Flags) (s' : S)
        → is_streaming (ops.states s' d) ≡ false
        → (flags'.added_any ≡ flags.added_any) ⊎ (left d s' < left d s)
        → Progress d flags s (iterate ops false d flags' s')
    unfolding iterate Progress
    iterate-Progress flags' s' off near = rw off near

    check_result-Progress :
        (code : ErrorCode) (s' : S)
        → is_streaming (ops.states s' d) ≡ false
        → (is_added code ≡ true → left d s' < left d s)
        → Progress d flags s (check_result ops false d flags (code, s'))
    check_result-Progress code s' off less = elim (Bool-cases (is_added code)) [
      | inl good ↦
          rw (check_added ops false d flags code s' good)
            (iterate-Progress _ s' off (inr (less good)))
      | inr bad ↦ elim (Bool-cases (is_no_more_space code)) [
        | inr other ↦ rw (check_failed ops false d flags code s' bad other) (unfold Progress in tt)
        | inl full ↦
            rw (check_keep ops false d flags code s' bad full off refl)
              (iterate-Progress flags s' off (inl refl))
      ]
    ]

    try_add-Progress :
        (state : DataState) (s' : S)
        → ops.states s' d ≡ state
        → is_streaming state ≡ false
        → weight state ≤ left d s
        → Progress d flags s (try_add ops false d flags state s')
    unfolding try_add
    try_add-Progress DataState.initial s' e off le =
        iterate-Progress flags s' (ap is_streaming e) (inl refl)
    try_add-Progress DataState.written s' e off le =
        iterate-Progress flags s' (ap is_streaming e) (inl refl)
    try_add-Progress DataState.sent s' e off le =
        iterate-Progress flags s' (ap is_streaming e) (inl refl)
    try_add-Progress DataState.streaming s' e off le = absurd (ground (arith, off))
    try_add-Progress DataState.prepared s' e off le =
        let (code, s2) = ops.add_current_data d s' in
        check_result-Progress code s2 (ground (arith, laws.add d d s' e, e))
          (λ good. ground (arith, laws.add d d s' e, good, le))

    after_prepare-Progress :
        (code : ErrorCode) (s' : S)
        → is_streaming (ops.states s' d) ≡ false
        → left d s' ≤ left d s
        → Progress d flags s (after_prepare ops false d flags (code, s'))
    unfolding after_prepare
    after_prepare-Progress code s' off le = elim (Bool-cases (is_ok code)) [
      | inl good ↦ rw good (try_add-Progress (ops.states s' d) s' refl off le)
      | inr bad ↦ rw bad (unfold Progress in tt)
    ]

    is_initial_eq : (state : DataState) → is_initial state ≡ true → state ≡ initial
    is_initial_eq state e = ground (arith, e)

    pub turn-Progress :
        is_streaming (ops.states s d) ≡ false → Progress d flags s (turn ops false d flags s)
    unfolding turn
    turn-Progress off = elim (Bool-cases (is_initial (ops.states s d))) [
      | inl new ↦
          let e = is_initial_eq (ops.states s d) new in
          let (code, s') = ops.prepare_data d s in
          rw new (
            after_prepare-Progress code s' (ground (arith, laws.prepare d d s e, e))
              (ground (arith, laws.prepare d d s e, e)))
      | inr old ↦ rw old (after_prepare-Progress ok s off (omega arith))
    ]
