-- ===== src/Memory/Laws.antt =====
-- What the memory operations do inside their blocks.
use os_tp.Base.{
  ℕ, zero, suc, ◌+◌, ◌≡◌, ◌≢◌, refl, ap, ◌∙◌, [], ◌∷◌, ◌++◌, append-nil, arith, Bytes, All, length,
  length-append, ok, bind-ok, bind-eq-ok, Bool, true, if◌then◌else◌, ◌==◌, false, replicate, fault,
}
use os_tp.Memory.{
  malloc_from, malloc, overwrite, memcpy, read_block, strlen, text_of, strncpy_bytes, strncpy,
}

length-malloc_from : (junk : ℕ → ℕ) (i n : ℕ) → length (malloc_from junk i n) ≡ n
unfolding malloc_from
length-malloc_from junk i zero = refl
length-malloc_from junk i (suc n) = ap suc (length-malloc_from junk (suc i) n)

pub length-malloc : (junk : ℕ → ℕ) (n : ℕ) → length (malloc junk n) ≡ n
unfolding malloc
length-malloc junk n = length-malloc_from junk 0 n

-- The part of a block that is left once the front is filled: its first bytes, and the others.
pub split_at :
    (n m : ℕ) (b : Bytes)
    → length b ≡ n + m
    → (x : Bytes) × (y : Bytes) × (b ≡ x ++ y) × (length x ≡ n) × (length y ≡ m)
split_at zero m b e = ([], b, refl, refl, omega arith)
split_at (suc n) m [] e = absurd (omega arith)
split_at (suc n) m (c ∷ b) e =
    let (x, y, s, l, k) = split_at n m b (omega arith) in (c ∷ x, y, ap (◌∷◌ c) s, ap suc l, k)

overwrite-append :
    (old new rest : Bytes)
    → length old ≡ length new
    → overwrite (old ++ rest) new ≡ ok (new ++ rest)
unfolding overwrite
overwrite-append [] [] rest e = refl
overwrite-append (x ∷ old) [] rest e = absurd (omega arith)
overwrite-append [] (y ∷ new) rest e = absurd (omega arith)
overwrite-append (x ∷ old) (y ∷ new) rest e = rw (overwrite-append old new rest (omega arith))

pub memcpy-append :
    (pre old new rest : Bytes)
    → length old ≡ length new
    → memcpy (pre ++ (old ++ rest)) (length pre) new ≡ ok (pre ++ (new ++ rest))
unfolding memcpy
memcpy-append [] old new rest e = overwrite-append old new rest e
memcpy-append (x ∷ pre) old new rest e = rw (memcpy-append pre old new rest e)

pub read_block-append : (x rest : Bytes) → read_block (length x) (x ++ rest) ≡ ok (x, rest)
unfolding read_block
read_block-append [] rest = refl
read_block-append (c ∷ x) rest = rw (read_block-append x rest)

-- What is read out of a block was there: the two parts are the block, and the first is n bytes.
pub read_block-eq-ok :
    (n : ℕ) (p : Bytes) {x rest : Bytes}
    → read_block n p ≡ ok (x, rest)
    → (p ≡ x ++ rest) × (length x ≡ n)
unfolding read_block
read_block-eq-ok zero p e = ground arith
read_block-eq-ok (suc n) [] e = cc
read_block-eq-ok (suc n) (c ∷ p) e =
    let (r, read, made) = bind-eq-ok (read_block n p) _ e in
    let (splits, size) = read_block-eq-ok n p read in ground arith

-- The text of a C string holds no terminator.
abbrev pub IsText : Bytes → Type 0
IsText s = All (λ c. c ≢ 0) s

-- Whether no byte is zero.
abbrev pub are_nonzero : Bytes → Bool
are_nonzero [] = true
are_nonzero (c ∷ s) = let rest = are_nonzero s in if c == 0 then false else rest

pub are_nonzero-IsText : (s : Bytes) → are_nonzero s ≡ true → IsText s
are_nonzero-IsText [] h = tt
are_nonzero-IsText (c ∷ s) h = (ground arith, are_nonzero-IsText s (ground arith))

pub strlen-append : (s rest : Bytes) → IsText s → strlen (s ++ 0 ∷ rest) ≡ ok (length s)
unfolding strlen
strlen-append [] rest h = refl
strlen-append (c ∷ s) rest h = ground (arith, strlen-append s rest h.1)

pub text_of-append : (s rest : Bytes) → IsText s → text_of (s ++ 0 ∷ rest) ≡ ok s
unfolding text_of
text_of-append [] rest h = refl
text_of-append (c ∷ s) rest h = ground (arith, text_of-append s rest h.1)

pub strncpy_bytes-append :
    (s rest : Bytes) → IsText s → strncpy_bytes (s ++ 0 ∷ rest) (suc (length s)) ≡ ok (s ++ 0 ∷ [])
unfolding strncpy_bytes
strncpy_bytes-append [] rest h = refl
strncpy_bytes-append (c ∷ s) rest h = ground (arith, strncpy_bytes-append s rest h.1)

-- Copying a whole string into a block of its size.
pub strncpy-whole :
    (dest s rest : Bytes)
    → length dest ≡ suc (length s)
    → IsText s
    → strncpy dest (s ++ 0 ∷ rest) (suc (length s)) ≡ ok (s ++ 0 ∷ [])
unfolding strncpy
strncpy-whole dest s rest room h = bind-ok (memcpy dest 0) (strncpy_bytes-append s rest h) (
    rw (← append-nil dest) (
      memcpy-append [] dest (s ++ 0 ∷ []) [] (omega (arith, length-append s (0 ∷ [])))
      ∙ rw append-nil))

zero_add : (n : ℕ) → 0 + n ≡ n
zero_add n = omega arith

suc_add : (m n : ℕ) → suc m + n ≡ suc (m + n)
suc_add m n = omega arith

-- A block that is larger than what is copied keeps what was in it behind.
pub malloc_from-append :
    (junk : ℕ → ℕ) (i m n : ℕ)
    → malloc_from junk i (m + n) ≡ malloc_from junk i m ++ malloc_from junk (i + m) n
unfolding malloc_from
malloc_from-append junk i zero n =
    ap (malloc_from junk i) (zero_add n) ∙ ap (λ k. malloc_from junk k n) (omega arith)
malloc_from-append junk i (suc m) n =
    ap (malloc_from junk i) (suc_add m n)
    ∙ ap (◌∷◌ (junk i)) (
        malloc_from-append junk (suc i) m n
        ∙ ap (λ k. malloc_from junk (suc i) m ++ malloc_from junk k n) (omega arith))

pub length-replicate : (n : ℕ) → length {A = ℕ} (replicate n 0) ≡ n
length-replicate zero = refl
length-replicate (suc n) = ap suc (length-replicate n)

pub memcpy-malloc :
    (junk : ℕ → ℕ) (new : Bytes) (m n : ℕ)
    → length new ≡ m
    → memcpy (malloc junk (m + n)) 0 new ≡ ok (new ++ malloc_from junk m n)
unfolding malloc
memcpy-malloc junk new m n e =
    ap (λ b. memcpy b 0 new) (malloc_from-append junk 0 m n)
    ∙ ap (λ k. memcpy (malloc_from junk 0 m ++ malloc_from junk k n) 0 new) (omega arith)
    ∙ memcpy-append [] (malloc_from junk 0 m) new (malloc_from junk m n)
        (omega (arith, e, length-malloc_from junk 0 m))

pub strncpy_bytes-padded :
    (s rest : Bytes) (k : ℕ)
    → IsText s
    → strncpy_bytes (s ++ 0 ∷ rest) (length s + suc k) ≡ ok (s ++ 0 ∷ replicate k 0)
unfolding strncpy_bytes
strncpy_bytes-padded [] rest k h = ap (strncpy_bytes (0 ∷ rest)) (zero_add (suc k))
strncpy_bytes-padded (c ∷ s) rest k h =
    ap (strncpy_bytes (c ∷ (s ++ 0 ∷ rest))) (suc_add (length s) (suc k))
    ∙ ground (arith, strncpy_bytes-padded s rest k h.1)

pub strncpy_bytes-cut : (s rest : Bytes) → IsText s → strncpy_bytes (s ++ rest) (length s) ≡ ok s
unfolding strncpy_bytes
strncpy_bytes-cut [] rest h = refl
strncpy_bytes-cut (c ∷ s) rest h = ground (arith, strncpy_bytes-cut s rest h.1)

-- A block without a zero holds no string.
pub text_of-unterminated : (s : Bytes) → IsText s → text_of s ≡ fault
unfolding text_of
text_of-unterminated [] h = refl
text_of-unterminated (c ∷ s) h = ground (arith, text_of-unterminated s h.1)

pub malloc_from_one : (junk : ℕ → ℕ) (i : ℕ) → junk i ≢ 0 → IsText (malloc_from junk i 1)
unfolding malloc_from
malloc_from_one junk i h = (h, tt)
