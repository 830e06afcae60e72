-- ===== src/StringType/Compare.antt =====
-- When `string_compare_with_cstr` returns MCL_OK.
use iot_eclipse.Base.{
  ℕ, zero, suc, ◌≤◌, ◌≡◌, ◌↔◌, refl, true, false, some, [], ◌∷◌, arith, length, ◌==◌, Bool-cases,
  inl, inr, ap, take, length-take, ==_iff,
}
use iot_eclipse.Base.Bytes.{Bytes}
use iot_eclipse.Code.{ok}
use iot_eclipse.StringUtil.{strlen, strncmp}
use iot_eclipse.StringUtil.Length.{strlen-le-length}
use iot_eclipse.StringType.{StringT, string_compare_with_cstr}

-- Up to the length of both, `strncmp` compares byte by byte.
strncmp-text :
    (a b : Bytes) (n : ℕ)
    → strlen a ≡ n
    → strlen b ≡ n
    → (strncmp a b n ≡ true) ↔ (take n a ≡ take n b)
unfolding strncmp strlen
strncmp-text a b zero ha hb = (λ _. refl, λ _. refl)
strncmp-text [] b (suc n) ha hb = absurd (omega arith)
strncmp-text (x ∷ a) [] (suc n) ha hb = absurd (omega arith)
strncmp-text (x ∷ a) (y ∷ b) (suc n) ha hb = ground (arith, strncmp-text a b n)

length-take_le : (n : ℕ) (p : Bytes) → n ≤ length p → length (take n p) ≡ n
length-take_le n p h = omega (arith, length-take n p)

-- A string whose length is that of its text compares equal to a text at another address exactly
-- when the two texts are the same, byte by byte.
pub compare-text :
    (s : StringT) (buffer other : Bytes)
    → s.buffer ≡ some buffer
    → s.length ≡ strlen buffer
    → (string_compare_with_cstr false (some s) (some other) ≡ ok)
      ↔ (take (strlen buffer) buffer ≡ take (strlen other) other)
unfolding string_compare_with_cstr
compare-text s buffer other hb hl = elim (Bool-cases (strlen other == strlen buffer)) [
  | inl same ↦
      let e : strlen other ≡ strlen buffer = (==_iff _ _).0 same in
      let bytes = strncmp-text buffer other (strlen buffer) refl e in
      rw (hb, hl, same, e) (ground (arith, bytes))
  | inr differ ↦
      rw (hb, hl, differ) (λ h. absurd (ground arith), λ h. absurd (ground (arith, lengths h)))
]
  where
    lengths : take (strlen buffer) buffer ≡ take (strlen other) other → strlen buffer ≡ strlen other
    lengths h = omega (
      arith,
      ap length h,
      length-take_le (strlen buffer) buffer (strlen-le-length buffer),
      length-take_le (strlen other) other (strlen-le-length other),
    )
