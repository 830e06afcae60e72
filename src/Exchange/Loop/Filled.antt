-- ===== src/Exchange/Loop/Filled.antt =====
-- A round of the exchange, with the request that it fills, leaves the store ready for the next.
use iot_eclipse.Base.{
  ℕ, ◌≤◌, length, ◌≡◌, ◌≢◌, refl, sym, true, false, [], arith, ◌∙◌, ap, inl, inr, if◌then◌else◌,
}
use iot_eclipse.Code.{ErrorCode, ok, is_ok, ok-cases}
use iot_eclipse.LinkedList.{Heap, done}
use iot_eclipse.LinkedList.Segment.{Cells, Returns, returns}
use iot_eclipse.Store.{DataState, written, streaming, Store, States}
use iot_eclipse.Exchange.Update.{has_item}
use iot_eclipse.Exchange.Outcome.{}
use iot_eclipse.Exchange.Fill.{fill_rounds, fill_http_request}
use iot_eclipse.Exchange.Fill.Steps.{Steps, Steps-written}
use iot_eclipse.Exchange.Fill.Result.{fill_http_request-Steps, fill_http_request-Any}
use iot_eclipse.Exchange.Loop.{Client, send_request, fill_request, exchange_round}
use iot_eclipse.Exchange.Loop.Send.{Honest, Ready-same, send_request-After}
use iot_eclipse.Exchange.Loop.Round.{Ready, After, same_After}

written_kept : {t u : DataState} → Steps t u → t ≡ written → u ≡ written
written_kept steps was = Steps-written (rw (sym was) steps)

module _ {S : Type 0} (client : Client S) (honest : Honest client) where
  abbrev states : S → States
  states s = client.adding.states s

  -- The request has been filled, and if the code is MCL_OK something has been written to it.
  pub record Filled (xs : Cells) (s : S) (r : ErrorCode × S) : Type 0 where
    pub still : (a : ℕ) → states r.1 a ≢ streaming
    pub kept : (a : ℕ) → states s a ≡ written → states r.1 a ≡ written
    pub any : r.0 ≡ ok → (a : ℕ) × (has_item a xs ≡ true) × (states r.1 a ≡ written)

  -- What becomes of the request that has been filled.
  abbrev correlated : ErrorCode × S → ErrorCode × S
  correlated (code, s) = if is_ok code then client.add_correlation_id s else (code, s)

  filled_step :
      (store : Store) (s : S) (h : Heap) (r : ErrorCode × S)
      → fill_http_request (fill_rounds store.high.count) client.adding store s h ≡ done r h
      → fill_request client store s h ≡ done (correlated r) h
  unfolding fill_request
  filled_step store s h r e = rw e refl

  correlated_Filled :
      (xs : Cells) (s : S) (r : ErrorCode × S)
      → ((a : ℕ) → states r.1 a ≢ streaming)
      → (r.0 ≡ ok → (a : ℕ) × (has_item a xs ≡ true) × (states r.1 a ≡ written))
      → ((a : ℕ) → states s a ≡ written → states r.1 a ≡ written)
      → Filled xs s (correlated r)
  correlated_Filled xs s (code, s') still any kept = elim (ok-cases code) [
    | inr bad ↦
        rw bad (record { still = still; kept = kept; any = λ e. absurd (ground (arith, e, bad)) })
    | inl good ↦
        let same = honest.correlated s' in
        rw good (record {
          still = λ a now. still a (sym (ap (λ f. f a) same) ∙ now);
          kept = λ a was. ap (λ f. f a) same ∙ kept a was;
          any = λ _. let (a, i, was) = any good in (a, i, ap (λ f. f a) same ∙ was);
        })
  ]

  pub fill_request-Filled :
      (h : Heap) (store : Store) (s : S) (xs : Cells)
      → Ready (states s) h store xs
      → (r : ErrorCode × S) × (fill_request client store s h ≡ done r h) × Filled xs s r
  fill_request-Filled h store s xs ready =
      let ops = client.adding in
      let k = fill_rounds store.high.count in
      let enough : fill_rounds (length xs) ≤ k = rw ready.list.counted (omega arith) in
      let cursor = ready.cursor ∙ ready.list.head_first in
      let (r, e, steps) =
        fill_http_request-Steps ops honest.lawful h store s [] xs ready.list cursor k enough
          ready.fixed ready.still in
      let (still, any) =
        fill_http_request-Any ops honest.lawful h store s [] xs k r ready.list cursor enough
          ready.fixed ready.still e in
      (
        _,
        filled_step store s h r e,
        correlated_Filled xs s r still any (λ a was. written_kept (steps a) was),
      )

  round_bad :
      (store : Store) (s : S) (h : Heap)
      → is_ok (client.start_request s).0 ≡ false
      → exchange_round client store s h
        ≡ done ((client.start_request s).0, store, (client.start_request s).1, []) h
  unfolding exchange_round
  round_bad store s h bad = ground (arith, bad)

  pub round_ok :
      (store : Store) (s : S) (h : Heap) (r : ErrorCode × S)
      → is_ok (client.start_request s).0 ≡ true
      → fill_request client store (client.start_request s).1 h ≡ done r h
      → exchange_round client store s h ≡ send_request client store r h
  unfolding exchange_round
  round_ok store s h r good e = ground (arith, good, e)

  is_ok-true : (code : ErrorCode) → code ≡ ok → is_ok code ≡ true
  is_ok-true code e = ap is_ok e

  pub exchange_round-After :
      (h : Heap) (store : Store) (s : S) (xs : Cells)
      → Ready (states s) h store xs
      → Returns (After (states s) states xs) (exchange_round client store s h)
  exchange_round-After h store s xs ready =
      let (code, s') = client.start_request s in
      let ready' = Ready-same (states s) (states s') h store xs (honest.started s) ready in
      elim (ok-cases code) [
        | inr bad ↦
            rw (round_bad store s h bad)
              (returns (same_After (states s) states xs code store s' h bad ready'))
        | inl good ↦
            let (r, e, filled) = fill_request-Filled h store s' xs ready' in
            rw (round_ok store s h r (is_ok-true code good) e) (
              send_request-After client honest (states s) h store r.1 xs r.0
                (record {
                  list = ready'.list;
                  low = ready'.low;
                  cursor = ready'.cursor;
                  fixed = ready'.fixed;
                  still = filled.still;
                })
                filled.any (λ b was. filled.kept b (ap (λ f. f b) (honest.started s) ∙ was)))
      ]
