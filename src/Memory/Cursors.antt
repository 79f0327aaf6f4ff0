-- ===== src/Memory/Cursors.antt =====
-- A block that is filled field by field, as the serializers of common/ fill theirs.
use os_tp.Base.{
  ℕ, ◌+◌, ◌≡◌, refl, sym, ◌∙◌, [], ◌∷◌, ◌++◌, append_assoc, append-nil, arith, Bytes, length,
  length-append, Outcome, ok, ◌>>=◌, subst, bind-ok,
}
use os_tp.Memory.{malloc, memcpy, Cursor, put}
use os_tp.Memory.Laws.{split_at, length-malloc, memcpy-append}

nil_of_length : (b : Bytes) → length b ≡ 0 → b ≡ []
nil_of_length [] e = refl
nil_of_length (x ∷ b) e = absurd (omega arith)

-- The front of the cursor's block is `pre`, and n bytes are still to be filled.
pub record Filled (pre : Bytes) (n : ℕ) (c : Cursor) : Type 0 where
  pub rest : Bytes
  pub block_is : c.block ≡ pre ++ rest
  pub room : length rest ≡ n
  pub offset_is : c.offset ≡ length pre

pub Filled-resize : {pre : Bytes} {m n : ℕ} {c : Cursor} → m ≡ n → Filled pre m c → Filled pre n c
Filled-resize {pre} {c} e f = subst (λ x. Filled pre x c) e f

pub Filled-malloc :
    (junk : ℕ → ℕ) (n : ℕ) → Filled [] n (record { block = malloc junk n; offset = 0 })
Filled-malloc junk n = record {
  rest = malloc junk n;
  block_is = refl;
  room = length-malloc junk n;
  offset_is = refl;
}

pub put-Filled :
    (src : Bytes) (n : ℕ) {pre : Bytes} {c : Cursor}
    → Filled pre (length src + n) c
    → (d : Cursor) × (put src c ≡ ok d) × Filled (pre ++ src) n d
unfolding put
put-Filled src n {pre} {c} f =
    let (old, rest, s, l, k) = split_at (length src) n f.rest f.room in
    let copied : memcpy c.block c.offset src ≡ ok (pre ++ (src ++ rest)) =
      rw (f.block_is, f.offset_is, s) (memcpy-append pre old src rest l) in
    (
      record { block = pre ++ (src ++ rest); offset = c.offset + length src },
      rw copied,
      record {
        rest = rest;
        block_is = sym (append_assoc pre src rest);
        room = k;
        offset_is = omega (arith, f.offset_is, length-append pre src);
      },
    )

-- A filled block is what was put.
pub Filled-block : {pre : Bytes} {c : Cursor} → Filled pre 0 c → c.block ≡ pre
Filled-block {pre} {c} f = f.block_is ∙ rw (nil_of_length f.rest f.room) (append-nil pre)

-- One `put` of a block that fills `c`: n is the room that is left behind it.
pub put-then {ℓ} :
    {B : Type ℓ} (src : Bytes) (n : ℕ) (k : Cursor → Outcome B) (r : Outcome B) {m : ℕ}
    {pre : Bytes} {c : Cursor}
    → m ≡ length src + n
    → Filled pre m c
    → ((d : Cursor) → Filled (pre ++ src) n d → k d ≡ r)
    → (put src c >>= k) ≡ r
put-then src n k r {pre} {c} room f next =
    let (d, ran, g) = put-Filled src n (Filled-resize room f) in bind-ok k ran (next d g)
