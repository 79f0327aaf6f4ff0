-- ===== src/Encoding/Laws.antt =====
-- A number that fits its bytes is read back from them.
use native.Mathlib.Nat.{pow-suc}
use os_tp.Base.{
  ℕ, zero, suc, ◌+◌, ◌*◌, ◌/◌, ◌%◌, ◌^◌, ◌<◌, ◌≡◌, refl, ap, ◌∙◌, [], ◌∷◌, ◌++◌, arith, Bytes,
  length, ℤ, IsInt, to_word, of_word, of_word-to_word, to_word-lt, Outcome, ok, ◌>>=◌, bind-ok, sym,
  append-nil,
}
use os_tp.Memory.{read_block}
use os_tp.Memory.Laws.{read_block-append}
use os_tp.Encoding.{
  to_bytes, of_bytes, int_bytes, float_bytes, size_bytes, int_of_bytes, read_int, read_float,
  read_size,
}

pub length-to_bytes : (k n : ℕ) → length (to_bytes k n) ≡ k
unfolding to_bytes
length-to_bytes zero n = refl
length-to_bytes (suc k) n = ap suc (length-to_bytes k (n / 256))

pub of_bytes-to_bytes : (k n : ℕ) → n < 256 ^ k → of_bytes (to_bytes k n) ≡ n
unfolding to_bytes of_bytes
of_bytes-to_bytes zero n h = omega arith
of_bytes-to_bytes (suc k) n h =
    omega (arith, of_bytes-to_bytes k (n / 256) (omega (arith, pow-suc 256 k)))

pub length-int_bytes : (z : ℤ) → length (int_bytes z) ≡ 4
unfolding int_bytes
length-int_bytes z = length-to_bytes 4 (to_word z)

pub length-float_bytes : (x : ℕ) → length (float_bytes x) ≡ 4
unfolding float_bytes
length-float_bytes x = length-to_bytes 4 x

pub length-size_bytes : (n : ℕ) → length (size_bytes n) ≡ 8
unfolding size_bytes
length-size_bytes n = length-to_bytes 8 n

-- For `omega`, over the sizes of fields.
pub ruleset field_sizes = (arith, length-int_bytes, length-float_bytes, length-size_bytes)

pub int_of_bytes-int_bytes : (z : ℤ) → IsInt z → int_of_bytes (int_bytes z) ≡ z
unfolding int_of_bytes int_bytes
int_of_bytes-int_bytes z h =
    ap of_word (of_bytes-to_bytes 4 (to_word z) (to_word-lt z)) ∙ of_word-to_word z h

-- A read at a known width gives what was written there.
read_block-exact : (n : ℕ) (x rest : Bytes) → length x ≡ n → read_block n (x ++ rest) ≡ ok (x, rest)
read_block-exact n x rest e = rw (← e) (read_block-append x rest)

pub read_int-append :
    (z : ℤ) (rest : Bytes) → IsInt z → read_int (int_bytes z ++ rest) ≡ ok (z, rest)
unfolding read_int
read_int-append z rest h =
    bind-ok _ (read_block-exact 4 (int_bytes z) rest (length-int_bytes z))
      (rw (int_of_bytes-int_bytes z h))

pub read_float-append :
    (x : ℕ) (rest : Bytes) → x < 2 ^ 32 → read_float (float_bytes x ++ rest) ≡ ok (x, rest)
unfolding read_float
read_float-append x rest h =
    bind-ok _ (read_block-exact 4 (float_bytes x) rest (length-float_bytes x))
      (unfold float_bytes in rw (of_bytes-to_bytes 4 x (omega arith)))

pub read_size-append :
    (n : ℕ) (rest : Bytes) → n < 2 ^ 64 → read_size (size_bytes n ++ rest) ≡ ok (n, rest)
unfolding read_size
read_size-append n rest h =
    bind-ok _ (read_block-exact 8 (size_bytes n) rest (length-size_bytes n))
      (unfold size_bytes in rw (of_bytes-to_bytes 8 n (omega arith)))

pub read_int-whole : (z : ℤ) → IsInt z → read_int (int_bytes z) ≡ ok (z, [])
read_int-whole z h = ap read_int (sym (append-nil (int_bytes z))) ∙ read_int-append z [] h
