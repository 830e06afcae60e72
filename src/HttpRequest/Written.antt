-- ===== src/HttpRequest/Written.antt =====
-- What a piece of the payload is once it has been written behind the content, and that the pieces of a
-- section can be written one after the other.
use iot_eclipse.Base.{
  ℕ, zero, suc, ◌+◌, ◌^◌, ◌≤◌, ◌<◌, ◌≡◌, refl, Option, none, some, [], ◌∷◌, ◌++◌, length,
  length-append, length-take, length-drop, take, drop, arith, Option-cases, inl, inr, ◌∙◌, ap, sym,
}
use iot_eclipse.Base.Bytes.{Bytes}
use iot_eclipse.Code.{ErrorCode, ok}
use iot_eclipse.StringUtil.{snprintf}
use iot_eclipse.StringUtil.Print.{snprintf_whole}
use iot_eclipse.StringType.{add_size}
use iot_eclipse.HttpRequest.{Request, write_at, put, put_line}
use iot_eclipse.HttpRequest.Room.{WellFormed, Same, content, content_of, block_length}

take-start : (ys zs ws : Bytes) → take (length ys) ((ys ++ zs) ++ ws) ≡ ys
take-start [] zs ws = refl
take-start (y ∷ ys) zs ws = ap (◌∷◌ y) (take-start ys zs ws)

take-written :
    (n : ℕ) (xs ys zs ws : Bytes)
    → n ≡ length xs + length ys
    → take n (xs ++ ((ys ++ zs) ++ ws)) ≡ xs ++ ys
take-written n [] ys zs ws e = let f : n ≡ length ys = omega arith in rw f (take-start ys zs ws)
take-written zero (x ∷ xs) ys zs ws e = absurd (omega arith)
take-written (suc n) (x ∷ xs) ys zs ws e = ap (◌∷◌ x) (take-written n xs ys zs ws (omega arith))

write_lem :
    (block text : Bytes) (offset : ℕ)
    → offset + length text ≤ length block
    → write_at (some block) offset text
      ≡ some (take offset block ++ (text ++ drop (offset + length text) block))
unfolding write_at
write_lem block text offset fits = ground arith

pub write_none :
    (p : Option Bytes) (text : Bytes) (offset : ℕ)
    → block_length p < offset + length text
    → write_at p offset text ≡ none
unfolding write_at
write_none none text offset outside = refl
write_none (some block) text offset outside = ground arith

-- The request once `text` stands behind what the payload held.
pub record Written (piece : Bytes) (r r' : Request) : Type 0 where
  pub text : content r' ≡ content r ++ piece
  pub offset : r'.payload_offset ≡ r.payload_offset + length piece
  pub size : r'.payload_size ≡ r.payload_size
  pub same : Same r r'
  pub well_formed : WellFormed r'

put_step :
    (r : Request) (bytes block : Bytes) (n : ℕ)
    → write_at r.payload r.payload_offset bytes ≡ some block
    → put bytes n ok r
      ≡ (ok, some (record r { payload = some block; payload_offset = add_size r.payload_offset n }))
unfolding put
put_step r bytes block n e = ground (arith, e)

-- A text, and a terminator perhaps, for which there is room.
pub put-Written :
    (text ending : Bytes) (n : ℕ) (r : Request)
    → n ≡ length text
    → 0 < r.payload_size
    → WellFormed r
    → r.payload_offset + length (text ++ ending) ≤ r.payload_size
    → (r' : Request) × (put (text ++ ending) n ok r ≡ (ok, some r')) × Written text r r'
put-Written text ending n r same pos wf room = elim (Option-cases r.payload) [
  | inl absent ↦ absurd (omega (arith, wf.size, ap block_length absent, pos, room))
  | inr (block, e) ↦
      let line = text ++ ending in
      let inner : length block ≡ r.payload_size = omega (arith, wf.size, ap block_length e) in
      let offset = r.payload_offset in
      let rest = drop (offset + length line) block in
      let block' = take offset block ++ (line ++ rest) in
      let front : length (take offset block) ≡ offset =
        omega (arith, length-take offset block, wf.inside, inner) in
      let long : n ≤ length line = omega (arith, same, length-append text ending) in
      let put_there =
        ap (λ p. write_at p offset line) e
        ∙ write_lem block line offset (omega (arith, inner, room)) in
      let sum : add_size offset n ≡ offset + n = omega (arith, room, long, wf.most, wf.small) in
      (
        _,
        put_step r line block' n put_there,
        record {
          text =
              take-written (add_size offset n) (take offset block) text ending rest
                (omega (arith, sum, front, same))
              ∙ ap (λ p. content_of p offset ++ text) (sym e);
          offset = omega (arith, sum, same);
          size = refl;
          same = record { boundary = refl; most = refl; enabled = refl };
          well_formed = record {
            inside = omega (arith, sum, room, long);
            size = omega (
              arith,
              length-append (take offset block) (line ++ rest),
              length-append line rest,
              length-drop (offset + length line) block,
              front,
              inner,
              room,
            );
            most = wf.most;
            small = wf.small;
          };
        },
      )
]

pub put-none :
    (bytes : Bytes) (n : ℕ) (code : ErrorCode) (r : Request)
    → write_at r.payload r.payload_offset bytes ≡ none
    → put bytes n code r ≡ (code, none)
unfolding put
put-none bytes n code r e = rw e refl

pub put_line_step :
    (text printed : Bytes) (n : ℕ) (code : ErrorCode) (r : Request)
    → snprintf (n + 1) text ≡ (code, printed)
    → put_line text n r ≡ put (printed ++ (0 ∷ [])) n code r
unfolding put_line
put_line_step text printed n code r e = rw e refl

pub put_line-Written :
    (text : Bytes) (n : ℕ)
    → length text ≡ n
    → 0 < n
    → n < 2 ^ 31
    → (r : Request) → WellFormed r
    → r.payload_offset + (length text + 1) ≤ r.payload_size
    → (r' : Request) × (put_line text n r ≡ (ok, some r')) × Written text r r'
put_line-Written text n same pos small r wf room =
    let whole = snprintf_whole (n + 1) text (omega arith) (omega arith) (omega arith) in
    let line = length-append text (0 ∷ []) in
    let (r', e, written) =
      put-Written text (0 ∷ []) n r (sym same) (omega arith) wf (omega (arith, line)) in
    (r', put_line_step text text n ok r whole ∙ e, written)
