-- ===== src/HttpRequest/Room.antt =====
-- What room a payload has, and what it keeps, when its block is resized.
use iot_eclipse.Base.{
  ℕ, zero, suc, ◌+◌, ◌-◌, ◌^◌, ◌≤◌, ◌<◌, ◌≡◌, refl, Option, none, some, [], ◌∷◌, ◌++◌, length,
  length-append, length-take, take, arith, Bool-cases, inl, inr, ap, ◌≢◌,
}
use iot_eclipse.Base.Bytes.{Bytes}
use iot_eclipse.Code.{ok, http_request_no_more_space}
use iot_eclipse.Memory.{Memory, fresh_from}
use iot_eclipse.HttpRequest.{Request, reallocate, resized, resize_to}

-- The length of the block that a payload points to.
abbrev pub block_length : Option Bytes → ℕ
block_length none = 0
block_length (some block) = length block

-- The offset stands inside the block, whose length is the payload's size, and the size is at most the
-- maximum.
pub record WellFormed (r : Request) : Type 0 where
  pub inside : r.payload_offset ≤ r.payload_size
  pub size : block_length r.payload ≡ r.payload_size
  pub most : r.payload_size ≤ r.max_http_payload_size
  pub small : r.max_http_payload_size < 2 ^ 63

-- The new size leaves room for what is required beside what there is, however it is rounded.
abbrev pub Grows : (ℕ → ℕ → ℕ) → Type 0
Grows grow = (required size : ℕ) → required + size ≤ grow required size

-- What there is before the offset.
abbrev pub content_of : Option Bytes → ℕ → Bytes
content_of none offset = []
content_of (some block) offset = take offset block

abbrev pub content : Request → Bytes
content r = content_of r.payload r.payload_offset

pub length-fresh_from : (m : Memory) (n i : ℕ) → length (fresh_from m n i) ≡ n
unfolding fresh_from
length-fresh_from m zero i = refl
length-fresh_from m (suc n) i = ap suc (length-fresh_from m n (i + 1))

length-resized : (p : Option Bytes) (n : ℕ) (m : Memory) → length (resized p n m) ≡ n
unfolding resized
length-resized none n m = length-fresh_from m n 0
length-resized (some block) n m = omega (
  arith,
  length-append (take n block) (fresh_from m (n - length block) 0),
  length-take n block,
  length-fresh_from m (n - length block) 0,
)

-- Two requests with the same boundary and the same limits.
pub record Same (r r' : Request) : Type 0 where
  pub boundary : r'.boundary ≡ r.boundary
  pub most : r'.max_http_payload_size ≡ r.max_http_payload_size
  pub enabled : r'.resize_enabled ≡ r.resize_enabled

-- A request that has room for `required` bytes more, and holds what it held.
pub record Roomy (r : Request) (required : ℕ) (r' : Request) : Type 0 where
  pub well_formed : WellFormed r'
  pub offset : r'.payload_offset ≡ r.payload_offset
  pub room : r.payload_offset + required ≤ r'.payload_size
  pub kept : content r' ≡ content r
  pub same : Same r r'

take-resized :
    (i n : ℕ) (block rest : Bytes)
    → i ≤ n
    → i ≤ length block
    → take i (take n block ++ rest) ≡ take i block
take-resized zero n block rest le inside = refl
take-resized (suc i) zero block rest le inside = absurd (omega arith)
take-resized (suc i) (suc n) [] rest le inside = absurd (omega arith)
take-resized (suc i) (suc n) (c ∷ block) rest le inside =
    ap (◌∷◌ c) (take-resized i n block rest (omega arith) (omega arith))

content-resized :
    (p : Option Bytes) (offset n : ℕ) (m : Memory)
    → offset ≤ block_length p
    → offset ≤ n
    → take offset (resized p n m) ≡ content_of p offset
unfolding resized
content-resized none zero n m inside le = refl
content-resized none (suc offset) n m inside le = absurd (omega arith)
content-resized (some block) offset n m inside le =
    take-resized offset n block (fresh_from m (n - length block) 0) le inside

resized-Roomy :
    (n required : ℕ) (r : Request) (m : Memory)
    → WellFormed r
    → r.payload_offset + required ≤ n
    → n ≤ r.max_http_payload_size
    → Roomy r required (record r { payload = some (resized r.payload n m); payload_size = n })
resized-Roomy n required r m wf enough most = record {
  well_formed = record {
    inside = omega arith;
    size = length-resized r.payload n m;
    most = most;
    small = wf.small;
  };
  offset = refl;
  room = enough;
  kept =
      content-resized r.payload r.payload_offset n m (omega (arith, wf.inside, wf.size))
        (omega arith);
  same = record { boundary = refl; most = refl; enabled = refl };
}

pub same_Roomy :
    (required : ℕ) (r : Request)
    → WellFormed r
    → r.payload_offset + required ≤ r.payload_size
    → Roomy r required r
same_Roomy required r wf enough = record {
  well_formed = wf;
  offset = refl;
  room = enough;
  kept = refl;
  same = record { boundary = refl; most = refl; enabled = refl };
}

pub resize_to_room :
    (n required : ℕ) (r : Request) (m : Memory)
    → WellFormed r
    → r.payload_offset + required ≤ n
    → n ≤ r.max_http_payload_size
    → let ((code, r'), _) = resize_to n r m in
      (code ≢ http_request_no_more_space) × (code ≡ ok → Roomy r required r')
unfolding resize_to
resize_to_room n required r m wf enough most = elim (Bool-cases (reallocate r.payload n m).0) [
  | inl granted ↦
      rw granted
        ((λ e. absurd (ground (arith, e))), λ e. resized-Roomy n required r m wf enough most)
  | inr refused ↦ rw refused ((λ e. absurd (ground (arith, e))), λ e. absurd (ground (arith, e)))
]
