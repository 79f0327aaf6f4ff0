-- ===== src/Decimal/Texts.antt =====
-- How long the text of an `int` is, and which bytes it has.
use os_tp.Base.{
  ℕ, zero, suc, ◌+◌, ◌/◌, ◌%◌, ◌^◌, ◌≤◌, ◌<◌, inl, inr, [], ◌∷◌, arith, length, length-append, ℤ,
  pos, negsuc, IsInt, ltb, Bool-cases, All-append,
}
use os_tp.Decimal.{digits_from, print_nat, print_int}
use os_tp.Memory.Laws.{IsText}

digits_from-IsText : (rounds n : ℕ) → IsText (digits_from rounds n)
unfolding digits_from
digits_from-IsText zero n = tt
digits_from-IsText (suc rounds) n = elim (Bool-cases (ltb n 10)) [
  | inl small ↦ rw small (omega arith, tt)
  | inr large ↦ rw large (
      All-append _ (digits_from rounds (n / 10)) _ (digits_from-IsText rounds (n / 10))
        (omega arith, tt))
]

pub print_int-IsText : (z : ℤ) → IsText (print_int z)
unfolding print_int print_nat
print_int-IsText (pos n) = digits_from-IsText (suc n) n
print_int-IsText (negsuc n) = (omega arith, digits_from-IsText (suc (suc n)) (suc n))

-- A number below a power of ten has no more digits than the power.
pub length-digits_from :
    (digits rounds n : ℕ) → n < 10 ^ suc digits → length (digits_from rounds n) ≤ suc digits
unfolding digits_from
length-digits_from digits zero n h = omega arith
length-digits_from zero (suc rounds) n h = ground arith
length-digits_from (suc digits) (suc rounds) n h = elim (Bool-cases (ltb n 10)) [
  | inl small ↦ rw small (omega arith)
  | inr large ↦ rw large (
      omega (
        arith,
        length-append (digits_from rounds (n / 10)) ((b'0' + n % 10) ∷ []),
        length-digits_from digits rounds (n / 10) (omega arith),
      ))
]

pub length-print_int : (z : ℤ) → IsInt z → length (print_int z) ≤ 11
unfolding print_int print_nat
length-print_int (pos n) h = omega (arith, length-digits_from 9 (suc n) n (omega (arith, h.0)))
length-print_int (negsuc n) h =
    omega (arith, length-digits_from 9 (suc (suc n)) (suc n) (omega (arith, h.1)))
