-- ===== src/StringUtil/Find.antt =====
-- What `string_util_find` promises, and what it misses: after a mismatch it does not look at the
-- same character again as a possible start.
use iot_eclipse.Base.{
  ℕ, zero, suc, ◌+◌, ◌-◌, ◌≤◌, ◌<◌, ◌≡◌, ◌≢◌, refl, Bool, true, false, none, some, [], ◌∷◌, arith,
  ◌==◌, Bool-cases, inl, inr, ◌⊎◌, ==_iff, ltb,
}
use iot_eclipse.Base.Bytes.{Bytes, at}
use iot_eclipse.StringUtil.{strlen, find_loop, find_with, find}

module _ (same : ℕ → ℕ → Bool) (source target : Bytes) where
  -- The first `n` characters of the target stand in the source from `start` on.
  abbrev pub Matches : ℕ → ℕ → Type 0
  Matches start n = (k : ℕ) → k < n → same (at source (start + k)) (at target k) ≡ true

  Matches-snoc :
      (start n : ℕ)
      → Matches start n
      → same (at source (start + n)) (at target n) ≡ true
      → Matches start (n + 1)
  Matches-snoc start n before now k h = elim (Bool-cases (k == n)) [
    | inl e ↦ rw ((==_iff k n).0 e) now
    | inr e ↦ before k (ground arith)
  ]

  find_loop-Matches :
      (n index state i : ℕ)
      → 0 < strlen target
      → state ≤ index
      → state < strlen target
      → Matches (index - state) state
      → find_loop same n source target (strlen target) index state ≡ some i
      → Matches i (strlen target) × (i + strlen target ≤ index + n)
  unfolding find_loop
  find_loop-Matches zero index state i pos le lt before e = absurd (ground arith)
  find_loop-Matches (suc n) index state i pos le lt before e =
      elim (Bool-cases (same (at source index) (at target state))) [
        | inl hit ↦ elim (Bool-cases (state + 1 == strlen target)) [
          | inl last ↦
              let found : i ≡ index - state = ground arith in
              let whole : state + 1 ≡ strlen target = ground arith in
              let shift : index - state + state ≡ index = omega arith in
              (
                rw (found, ← whole) (Matches-snoc (index - state) state before (rw shift hit)),
                omega arith,
              )
          | inr more ↦
              let shift : index - state + state ≡ index = omega arith in
              let move : index + 1 - (state + 1) ≡ index - state = omega arith in
              let (all, room) =
                find_loop-Matches n (index + 1) (state + 1) i pos (omega arith) (ground arith)
                  (rw move (Matches-snoc (index - state) state before (rw shift hit)))
                  (rw (hit, more) at e) in
              (all, omega arith)
        ]
        | inr miss ↦
            let more : (0 == strlen target) ≡ false = ground arith in
            let (all, room) =
              find_loop-Matches n (index + 1) 0 i pos (omega arith) pos
                (λ k h. absurd (omega arith)) (rw (miss, more) at e) in
            (all, omega arith)
      ]

-- A start index that `string_util_find` reports is right: the target stands there, character by
-- character, wholly inside the source.
pub find-Matches :
    (source target : Bytes) (i : ℕ)
    → find source target ≡ some i
    → Matches ◌==◌ source target i (strlen target) × (i + strlen target ≤ strlen source)
unfolding find find_with
find-Matches source target i e = elim (Bool-cases (strlen target == 0)) [
  | inl empty ↦ absurd (ground arith)
  | inr some_text ↦ elim (Bool-cases (ltb (strlen source) (strlen target))) [
    | inl long ↦ absurd (ground arith)
    | inr fits ↦
        let pos : 0 < strlen target = ground arith in
        let (all, room) =
          find_loop-Matches ◌==◌ source target (strlen source) 0 0 i pos (omega arith) pos
            (λ k h. absurd (omega arith)) (rw (some_text, fits) at e) in
        (all, omega arith)
  ]
]

-- The first place of the character `c` at or behind `index`, as the distance from `index`.
module _ (source : Bytes) (c : ℕ) where
  find_loop-char :
      (n index : ℕ)
      → (find_loop ◌==◌ n source (c ∷ []) 1 index 0 ≡ none
          × ((k : ℕ) → index ≤ k → k < index + n → at source k ≢ c))
        ⊎ ((i : ℕ) × (find_loop ◌==◌ n source (c ∷ []) 1 index 0 ≡ some i)
            × (at source i ≡ c)
            × (index ≤ i)
            × (i < index + n)
            × ((k : ℕ) → index ≤ k → k < i → at source k ≢ c))
  unfolding find_loop
  find_loop-char zero index = inl (refl, λ k lo hi. absurd (omega arith))
  find_loop-char (suc n) index = elim (Bool-cases (at source index == c)) [
    | inl hit ↦ inr (
      index,
      rw hit (ground arith),
      (==_iff _ c).0 hit,
      omega arith,
      omega arith,
      λ k lo hi. absurd (omega arith),
    )
    | inr miss ↦
        let here : at source index ≢ c = ground arith in
        elim (find_loop-char n (index + 1)) [
          | inl (e, before) ↦ inl (
            rw miss e,
            λ k lo hi. elim (Bool-cases (k == index)) [
              | inl same ↦ rw ((==_iff k index).0 same) here
              | inr ne ↦ before k (ground arith) (omega arith)
            ],
          )
          | inr (i, e, hit, lo', hi', before) ↦ inr (
            i,
            rw miss e,
            hit,
            omega arith,
            omega arith,
            λ k lo hi. elim (Bool-cases (k == index)) [
              | inl same ↦ rw ((==_iff k index).0 same) here
              | inr ne ↦ before k (ground arith) hi
            ],
          )
        ]
  ]

-- For a target of one character `string_util_find` is exact: it reports the first place of that
-- character, or nothing, and then the text does not hold it.
pub find-char :
    (source : Bytes) (c : ℕ)
    → 0 < c
    → (find source (c ∷ []) ≡ none × ((k : ℕ) → k < strlen source → at source k ≢ c))
      ⊎ ((i : ℕ) × (find source (c ∷ []) ≡ some i)
          × (at source i ≡ c)
          × (i < strlen source)
          × ((k : ℕ) → k < i → at source k ≢ c))
unfolding find find_with
find-char source c pos =
    let one : strlen (c ∷ []) ≡ 1 = unfold strlen in ground arith in
    elim (Bool-cases (ltb (strlen source) 1)) [
      | inl short ↦ inl (rw (one, short), λ k h. absurd (ground arith))
      | inr fits ↦ elim (find_loop-char source c (strlen source) 0) [
        | inl (e, before) ↦ inl (rw (one, fits) e, λ k h. before k (omega arith) (omega arith))
        | inr (i, e, hit, lo, hi, before) ↦
            inr (i, rw (one, fits) e, hit, omega arith, λ k h. before k (omega arith) h)
      ]
    ]

-- Two equal characters before the end of a match hide it: the target `c d` is not found in `c c d`.
pub find_misses :
    (c d : ℕ)
    → 0 < c
    → 0 < d
    → c ≢ d
    → (find (c ∷ c ∷ d ∷ []) (c ∷ d ∷ []) ≡ none)
      × Matches ◌==◌ (c ∷ c ∷ d ∷ []) (c ∷ d ∷ []) 1 (strlen (c ∷ d ∷ []))
unfolding find find_with strlen find_loop
find_misses c d hc hd ne = (
  ground arith,
  λ k h. elim (Bool-cases (k == 0)) [
    | inl first ↦ rw ((==_iff k 0).0 first) (ground arith)
    | inr later ↦ let second : k ≡ 1 = ground arith in rw second (ground arith)
  ],
)
