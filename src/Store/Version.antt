-- ===== src/Store/Version.antt =====
-- The versions that a store accepts are two numbers with a dot between them.
use iot_eclipse.Base.{
  ℕ, zero, suc, ◌+◌, ◌-◌, ◌≤◌, ◌<◌, ◌≡◌, ◌≢◌, Bool, true, false, ◌||◌, none, some, [], ◌∷◌, ◌==◌,
  ltb, if◌then◌else◌, arith, Bool-cases, Option-cases, inl, inr,
}
use iot_eclipse.Base.Bytes.{Bytes, at}
use iot_eclipse.StringUtil.{strlen, find}
use iot_eclipse.StringUtil.Find.{find-Matches}
use iot_eclipse.Store.{digits_loop, is_positive_integer, is_valid_version}

abbrev pub IsDigit : ℕ → Type 0
IsDigit c = (b'0' ≤ c) × (c ≤ b'9')

digits_loop_sound :
    (k : ℕ) (version : Bytes) (index : ℕ) (status : Bool)
    → digits_loop k version index status ≡ true
    → (status ≡ true) × ((i : ℕ) → i < k → IsDigit (at version (index + i)))
unfolding digits_loop
digits_loop_sound zero version index status e = (e, λ i lt. absurd (omega arith))
digits_loop_sound (suc k) version index status e =
    let c = at version index in
    let kept = if ltb c b'0' || ltb b'9' c then false else status in
    let (now, later) = digits_loop_sound k version (index + 1) kept e in
    (
      ground (arith, now),
      λ i lt. elim (Bool-cases (i == 0)) [
        | inl start ↦
            let same : index + i ≡ index = ground (arith, start) in rw same (ground (arith, now))
        | inr behind ↦
            let shift : index + 1 + (i - 1) ≡ index + i = ground (arith, behind) in
            rw shift at (later (i - 1) (ground (arith, behind)))
      ],
    )

-- `_is_positive_integer` accepts only digits from the start index to the end index. (It accepts a
-- zero, and a range that is empty.)
pub is_positive_integer_sound :
    (version : Bytes) (first last : ℕ)
    → is_positive_integer version first last ≡ true
    → (i : ℕ) → first ≤ i
    → i < last
    → IsDigit (at version i)
unfolding is_positive_integer
is_positive_integer_sound version first last e i from below =
    let shift : first + (i - first) ≡ i = omega arith in
    rw shift at
      ((digits_loop_sound (last - first) version first true e).1 (i - first) (omega arith))

-- The dot of a version, and digits on both sides.
pub record IsVersion (version : Bytes) : Type 0 where
  pub dot : ℕ
  pub is_dot : at version dot ≡ b'.'
  pub major : 0 < dot
  pub minor : dot + 1 < strlen version
  pub digits : (i : ℕ) → i < strlen version → i ≢ dot → IsDigit (at version i)

none_step : (version : Bytes) → find version (b'.' ∷ []) ≡ none → is_valid_version version ≢ true
unfolding is_valid_version
none_step version missing e = absurd (ground (arith, missing, e))

found_step :
    (version : Bytes) (dot : ℕ)
    → find version (b'.' ∷ []) ≡ some dot
    → is_valid_version version ≡ true
    → (0 < dot)
      × (dot < strlen version - 1)
      × (is_positive_integer version 0 dot ≡ true)
      × (is_positive_integer version (dot + 1) (strlen version) ≡ true)
unfolding is_valid_version
found_step version dot found e = ground (arith, found, e)

dot_length : 0 < strlen (b'.' ∷ [])
unfolding strlen
dot_length = omega arith

-- A text that `_is_valid_version` accepts is a dot with at least one character before and behind it,
-- and all other characters are digits.
pub is_valid_version-IsVersion :
    (version : Bytes) → is_valid_version version ≡ true → IsVersion version
is_valid_version-IsVersion version e = elim (Option-cases (find version (b'.' ∷ []))) [
  | inl missing ↦ absurd (none_step version missing e)
  | inr (dot, found) ↦
      let (matches, _) = find-Matches version (b'.' ∷ []) dot found in
      let p = found_step version dot found e in
      record {
        dot = dot;
        is_dot = ground (arith, matches 0 dot_length);
        major = p.0;
        minor = omega (arith, p.1);
        digits = λ i below other. elim (Bool-cases (ltb i dot)) [
          | inl front ↦
              is_positive_integer_sound version 0 dot p.2 i (omega arith) (ground (arith, front))
          | inr back ↦
              is_positive_integer_sound version (dot + 1) (strlen version) p.3 i
                (ground (arith, back, other)) below
        ];
      }
]
