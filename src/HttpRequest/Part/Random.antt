-- ===== src/HttpRequest/Part/Random.antt =====
-- The boundary that `_generate_random_boundary` makes.
use iot_eclipse.Base.{
  ℕ, zero, suc, ◌+◌, ◌%◌, ◌<◌, ◌≡◌, refl, false, Option, none, some, [], ◌∷◌, ◌++◌, length, set,
  take, arith, ap, sym, length-set, inl, inr,
}
use iot_eclipse.Base.Bytes.{Bytes, at}
use iot_eclipse.Code.{ErrorCode, ok, ok-cases, is_ok}
use iot_eclipse.Memory.{Memory}
use iot_eclipse.StringType.{StringT, string_initialize_new, copy_destroy}
use iot_eclipse.StringType.Build.{blocks}
use iot_eclipse.HttpRequest.Room.{length-fresh_from}
use iot_eclipse.HttpRequest.Part.{
  draw_loop, boundary_characters, generate_random_boundary, fill_boundary, keep_boundary, buffer_of,
}

-- The characters that `k` draws from the `i`-th on stand for.
abbrev pub drawn : (ℕ → ErrorCode × ℕ) → ℕ → ℕ → Bytes
drawn draw zero i = []
drawn draw (suc k) i = at boundary_characters ((draw i).1 % 62) ∷ drawn draw k (i + 1)

pub length-drawn : (draw : ℕ → ErrorCode × ℕ) (k i : ℕ) → length (drawn draw k i) ≡ k
length-drawn draw zero i = refl
length-drawn draw (suc k) i = ap suc (length-drawn draw k (i + 1))

take-set :
    (n i : ℕ) (xs ys : Bytes) (v : ℕ)
    → n ≡ i + 1
    → i < length xs
    → take n (set xs i v) ++ ys ≡ take i xs ++ (v ∷ ys)
take-set n i [] ys v e lt = absurd (omega arith)
take-set zero i (x ∷ xs) ys v e lt = absurd (omega arith)
take-set (suc n) zero (x ∷ xs) ys v e lt =
    let z : n ≡ 0 = omega arith in ap (λ k. v ∷ (take k xs ++ ys)) z
take-set (suc n) (suc i) (x ∷ xs) ys v e lt =
    ap (◌∷◌ x) (take-set n i xs ys v (omega arith) (omega arith))

take_all : (xs : Bytes) (n : ℕ) → length xs ≡ n → take n xs ++ [] ≡ xs
take_all [] zero e = refl
take_all [] (suc n) e = absurd (omega arith)
take_all (x ∷ xs) zero e = absurd (omega arith)
take_all (x ∷ xs) (suc n) e = ap (◌∷◌ x) (take_all xs n (omega arith))

draw_loop-drawn :
    (draw : ℕ → ErrorCode × ℕ) (k i : ℕ) (buffer : Bytes)
    → length buffer ≡ i + k
    → let (code, result) = draw_loop draw k i buffer in
      code ≡ ok → result ≡ take i buffer ++ drawn draw k i
unfolding draw_loop
draw_loop-drawn draw zero i buffer size = λ e. sym (take_all buffer i (omega arith))
draw_loop-drawn draw (suc k) i buffer size =
    let v = at boundary_characters ((draw i).1 % 62) in
    let moved = take-set (i + 1) i buffer (drawn draw k (i + 1)) v refl (omega arith) in
    let rest =
      draw_loop-drawn draw k (i + 1) (set buffer i v) (omega (arith, length-set buffer i v)) in
    ground (arith, moved, rest)

-- A new string of 22 characters, none of which has been written.
Blank : ErrorCode × Option StringT → Type 0
Blank (code, none) = is_ok code ≡ false
Blank (code, some s) = (length (buffer_of s) ≡ 22) × (s.kind ≡ copy_destroy)

string_initialize_new-Blank : (m : Memory) → Blank (string_initialize_new none 22 m).0
unfolding string_initialize_new Blank
string_initialize_new-Blank m = grind (arith, length-fresh_from)

-- The boundary that has been made, or none; and the blocks that are taken.
unfoldable pub Made : (ℕ → ErrorCode × ℕ) → ErrorCode × Option StringT → Type 0
Made draw (code, none) = is_ok code ≡ false
Made draw (code, some s) = (code ≡ ok) × (s.buffer ≡ some (drawn draw 22 0)) × (blocks (some s) ≡ 2)

keep_boundary-Made :
    (draw : ℕ → ErrorCode × ℕ) (s : StringT) (drawn_all : ErrorCode × Bytes) (m : Memory)
    → s.kind ≡ copy_destroy
    → (drawn_all.0 ≡ ok → drawn_all.1 ≡ drawn draw 22 0)
    → Made draw (keep_boundary s drawn_all m).0
unfolding keep_boundary Made
keep_boundary-Made draw s (code, buffer) m kind all = elim (ok-cases code) [
  | inl good ↦ rw good (refl, ap some (all good), rw kind refl)
  | inr bad ↦ rw bad bad
]

fill_boundary-Made :
    (draw : ℕ → ErrorCode × ℕ) (s : ErrorCode × Option StringT) (m : Memory)
    → Blank s
    → Made draw (fill_boundary draw s m).0
unfolding fill_boundary Blank
fill_boundary-Made draw (code, none) m blank = unfold Made in blank
fill_boundary-Made draw (code, some s) m blank =
    keep_boundary-Made draw s (draw_loop draw 22 0 (buffer_of s)) m blank.1
      (draw_loop-drawn draw 22 0 (buffer_of s) blank.0)

-- `_generate_random_boundary` either fails and makes no string, or makes one of the 22 characters
-- that the random numbers stand for.
pub generate_random_boundary-Made :
    (draw : ℕ → ErrorCode × ℕ) (m : Memory) → Made draw (generate_random_boundary draw m).0
unfolding generate_random_boundary
generate_random_boundary-Made draw m =
    let (s, m') = string_initialize_new none 22 m in
    fill_boundary-Made draw s m' (string_initialize_new-Blank m)
