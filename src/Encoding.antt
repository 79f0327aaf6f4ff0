-- ===== src/Encoding.antt =====
-- How a number lies in memory: `memcpy` of an `int`, a `float` or a `size_t` copies its bytes, the
-- lowest first (the byte order of the x86 machines that the program is built for). A `float` is its
-- 32-bit pattern.
pub mod Laws
use os_tp.Base.{
  ℕ, zero, suc, ◌+◌, ◌*◌, ◌/◌, ◌%◌, List, [], ◌∷◌, Bytes, ℤ, to_word, of_word, Outcome, ok, ◌>>=◌,
}
use os_tp.Memory.{read_block}

unfoldable pub to_bytes : ℕ → ℕ → Bytes
to_bytes zero n = []
to_bytes (suc k) n = (n % 256) ∷ to_bytes k (n / 256)

unfoldable pub of_bytes : Bytes → ℕ
of_bytes [] = 0
of_bytes (b ∷ bs) = b + 256 * of_bytes bs

-- `sizeof(int)`, `sizeof(float)` and `sizeof(size_t)` are 4, 4 and 8.
unfoldable pub int_bytes : ℤ → Bytes
int_bytes z = to_bytes 4 (to_word z)

unfoldable pub float_bytes : ℕ → Bytes
float_bytes x = to_bytes 4 x

unfoldable pub size_bytes : ℕ → Bytes
size_bytes n = to_bytes 8 n

unfoldable pub int_of_bytes : Bytes → ℤ
int_of_bytes b = of_word (of_bytes b)

-- `memcpy(&x, p, sizeof(x)); p += sizeof(x);`
unfoldable pub read_int : Bytes → Outcome (ℤ × Bytes)
read_int p = do r ← read_block 4 p; ok (int_of_bytes r.0, r.1)

unfoldable pub read_float : Bytes → Outcome (ℕ × Bytes)
read_float p = do r ← read_block 4 p; ok (of_bytes r.0, r.1)

unfoldable pub read_size : Bytes → Outcome (ℕ × Bytes)
read_size p = do r ← read_block 8 p; ok (of_bytes r.0, r.1)
