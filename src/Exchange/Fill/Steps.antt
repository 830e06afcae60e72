-- ===== src/Exchange/Fill/Steps.antt =====
-- The steps that the states of the data take while a request is filled, and what the operations do to
-- the states.
use iot_eclipse.Base.{ℕ, ◌≡◌, refl, ◌&&◌, true, ◌==◌, arith, ◌⊎◌, if◌then◌else◌}
use iot_eclipse.Code.{is_ok}
use iot_eclipse.Store.{DataState, initial, prepared, written, streaming, sent, States}
use iot_eclipse.Exchange.Fill.{Adding, is_added}

-- The steps of the states of `store_data_t` while a request is filled.
pub data Step : DataState → DataState → Type 0 where
  prepare : Step initial prepared
  write : Step prepared written
  start : Step prepared streaming
  complete : Step streaming written

-- Any number of steps.
pub data Steps : DataState → DataState → Type 0 where
  stop : {s : DataState} → Steps s s
  and_more : {s t u : DataState} → Step s t → Steps t u → Steps s u

pub Steps-trans : {s t u : DataState} → Steps s t → Steps t u → Steps s u
Steps-trans stop q = q
Steps-trans (and_more p ps) q = and_more p (Steps-trans ps q)

-- What has been written stays so, and so does what has been sent.
pub Steps-written : {s : DataState} → Steps written s → s ≡ written
Steps-written stop = refl
Steps-written (and_more p _) = elim p [ ]

pub Steps-sent : {s : DataState} → Steps sent s → s ≡ sent
Steps-sent stop = refl
Steps-sent (and_more p _) = elim p [ ]

-- Nothing becomes sent while a request is filled.
pub Steps-to_sent : {s : DataState} → Steps s sent → s ≡ sent
Steps-to_sent stop = refl
Steps-to_sent (and_more prepare p) = absurd (ground (arith, Steps-to_sent p))
Steps-to_sent (and_more write p) = absurd (ground (arith, Steps-to_sent p))
Steps-to_sent (and_more start p) = absurd (ground (arith, Steps-to_sent p))
Steps-to_sent (and_more complete p) = absurd (ground (arith, Steps-to_sent p))

-- How the operations change the states of the data.
pub record Lawful {S : Type 0} (ops : Adding S) : Type 0 where
  pub states_with : (states : States) (s : S) → ops.states (ops.with_states states s) ≡ states
  pub prepare :
      (d a : ℕ) (s : S)
      → ops.states s d ≡ initial
      → let (code, s') = ops.prepare_data d s in
        ops.states s' a ≡ (if is_ok code && a == d then prepared else ops.states s a)
  pub add :
      (d a : ℕ) (s : S)
      → ops.states s d ≡ prepared
      → let (code, s') = ops.add_current_data d s in
        ops.states s' a ≡ (if is_added code && a == d then written else ops.states s a)
  pub stream :
      (d a : ℕ) (s : S)
      → ops.states s d ≡ streaming
      → let (code, s') = ops.add_by_streaming d s in
        (ops.states s' a ≡ ops.states s a)
        ⊎ ((is_added code ≡ true) × (a ≡ d) × (ops.states s' a ≡ written))
  pub finalize : (s : S) → ops.states (ops.finalize_request s).1 ≡ ops.states s
