-- ===== src/Memory.antt =====
-- Blocks of memory: `malloc`, `memcpy`, `strlen` and `strncpy` of C's library, as far as
-- common/product.c, common/order.c and common/config.c use them, with a fault where they would
-- leave a block. Blocks never alias, and an allocation never fails.
pub mod Laws
pub mod Cursors
use os_tp.Base.{
  ℕ, zero, suc, ◌+◌, List, [], ◌∷◌, ◌++◌, Bytes, length, replicate, Outcome, ok, fault, ◌>>=◌, ◌==◌,
  if◌then◌else◌,
}

-- `malloc(n)`: a block of n bytes with whatever `junk` says in them.
pub malloc_from : (ℕ → ℕ) → ℕ → ℕ → Bytes
malloc_from junk i zero = []
malloc_from junk i (suc n) = junk i ∷ malloc_from junk (suc i) n

unfoldable pub malloc : (ℕ → ℕ) → ℕ → Bytes
unfolding malloc_from
malloc junk n = malloc_from junk 0 n

-- `calloc` of n bytes.
abbrev pub calloc : ℕ → Bytes
calloc n = replicate n 0

-- The first bytes of a block are overwritten.
unfoldable pub overwrite : Bytes → Bytes → Outcome Bytes
overwrite dest [] = ok dest
overwrite [] (y ∷ src) = fault
overwrite (x ∷ dest) (y ∷ src) = do d ← overwrite dest src; ok (y ∷ d)

-- `memcpy(dest + offset, src, n)`, with `src` the n bytes to copy.
unfoldable pub memcpy : Bytes → ℕ → Bytes → Outcome Bytes
unfolding overwrite
memcpy dest zero src = overwrite dest src
memcpy [] (suc offset) src = fault
memcpy (x ∷ dest) (suc offset) src = do d ← memcpy dest offset src; ok (x ∷ d)

-- The next n bytes behind a pointer, and the pointer past them; a pointer is what it points to, up
-- to the end of its block.
unfoldable pub read_block : ℕ → Bytes → Outcome (Bytes × Bytes)
read_block zero p = ok ([], p)
read_block (suc n) [] = fault
read_block (suc n) (x ∷ p) = do r ← read_block n p; ok (x ∷ r.0, r.1)

-- `strlen`: a string with no terminator in its block is read past the end.
unfoldable pub strlen : Bytes → Outcome ℕ
strlen [] = fault
strlen (c ∷ s) = let rest = strlen s in if c == 0 then ok 0 else (do n ← rest; ok (suc n))

-- The text of a string that lies in a block.
unfoldable pub text_of : Bytes → Outcome Bytes
text_of [] = fault
text_of (c ∷ s) = let rest = text_of s in if c == 0 then ok [] else (do t ← rest; ok (c ∷ t))

-- The n bytes that `strncpy(_, src, n)` writes: the string, and zeros behind its terminator.
unfoldable pub strncpy_bytes : Bytes → ℕ → Outcome Bytes
strncpy_bytes src zero = ok []
strncpy_bytes [] (suc n) = fault
strncpy_bytes (c ∷ src) (suc n) =
    let rest = strncpy_bytes src n in
    if c == 0 then ok (0 ∷ replicate n 0) else (do r ← rest; ok (c ∷ r))

unfoldable pub strncpy : Bytes → Bytes → ℕ → Outcome Bytes
unfolding strncpy_bytes memcpy
strncpy dest src n = do b ← strncpy_bytes src n; memcpy dest 0 b

-- `memcpy(dest + offset, src, n); offset += n;`, on a block that is filled from its start.
pub record Cursor : Type 0 where
  pub block : Bytes
  pub offset : ℕ

unfoldable pub put : Bytes → Cursor → Outcome Cursor
put src c = do
  b ← memcpy c.block c.offset src
  ok (record { block = b; offset = c.offset + length src })
