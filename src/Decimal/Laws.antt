-- ===== src/Decimal/Laws.antt =====
-- `countDigits` is the length of the printed number, and a printed number is read back.
use os_tp.Base.{
  ℕ, zero, suc, ◌+◌, ◌-◌, ◌*◌, ◌/◌, ◌%◌, ◌<◌, ◌≡◌, refl, ap, ◌∙◌, true, false, inl, inr, [], ◌∷◌,
  ◌++◌, arith, Bytes, length, length-append, ℤ, pos, negsuc, sub_ℕ, ltb, ◌==◌, Bool-cases, All,
  All-append,
}
use os_tp.Decimal.{
  digits_loop, count_digits, digits_from, print_nat, print_int, is_digit, read_digits, strtol,
}

-- The loop counts what is printed, for a number that is not zero and rounds enough.
digits_loop-digits_from :
    (rounds more n i : ℕ)
    → 0 < n
    → n < rounds
    → n < more
    → digits_loop rounds (pos n) i ≡ i + length (digits_from more n)
unfolding digits_loop digits_from
digits_loop-digits_from zero more n i h r m = absurd (omega arith)
digits_loop-digits_from (suc rounds) zero n i h r m = absurd (omega arith)
digits_loop-digits_from (suc zero) (suc more) n i h r m = absurd (omega arith)
digits_loop-digits_from (suc (suc rounds)) (suc more) n i h r m = elim (Bool-cases (ltb n 10)) [
  | inl small ↦ ground arith
  | inr large ↦ ground (
    arith,
    digits_loop-digits_from (suc rounds) more (n / 10) (suc i),
    length-append (digits_from more (n / 10)) ((b'0' + n % 10) ∷ []),
  )
]

digits_loop-sub_ℕ :
    (rounds m i : ℕ)
    → ((k : ℕ) → digits_loop rounds (negsuc k) i ≡ digits_loop rounds (pos (suc k)) i)
    → digits_loop rounds (sub_ℕ 0 m) i ≡ digits_loop rounds (pos m) i
digits_loop-sub_ℕ rounds zero i h = refl
digits_loop-sub_ℕ rounds (suc m) i h = ground (arith, h m)

digits_loop-negsuc :
    (rounds n i : ℕ) → digits_loop rounds (negsuc n) i ≡ digits_loop rounds (pos (suc n)) i
unfolding digits_loop
digits_loop-negsuc zero n i = refl
digits_loop-negsuc (suc rounds) n i =
    rw not_zero
      (digits_loop-sub_ℕ rounds (suc n / 10) (suc i) (λ m. digits_loop-negsuc rounds m (suc i)))
  where
    not_zero : (suc n == 0) ≡ false
    not_zero = ground arith

-- `countDigits` of any number is how many characters `%i` prints for it, the sign included.
pub count_digits-eq-length : (z : ℤ) → count_digits z ≡ length (print_int z)
unfolding count_digits print_int print_nat
count_digits-eq-length (pos zero) = unfold digits_loop digits_from in refl
count_digits-eq-length (pos (suc n)) =
    ground (arith, digits_loop-digits_from (suc (suc n + 0)) (suc (suc n)) (suc n) 0)
count_digits-eq-length (negsuc n) = ground (
  arith,
  digits_loop-negsuc (suc (0 + suc n)) n 1,
  digits_loop-digits_from (suc (0 + suc n)) (suc (suc n)) (suc n) 1,
)

read_digits-append :
    (s : Bytes) (c value : ℕ)
    → All (λ d. is_digit d ≡ true) s
    → is_digit c ≡ true
    → read_digits value (s ++ c ∷ []) ≡ read_digits value s * 10 + (c - b'0')
unfolding read_digits
read_digits-append [] c value h hc = rw hc refl
read_digits-append (d ∷ s) c value h hc = rw h.0 (read_digits-append s c _ h.1 hc)

pub digits_from-are_digits :
    (rounds n : ℕ) → n < rounds → All (λ d. is_digit d ≡ true) (digits_from rounds n)
unfolding digits_from
digits_from-are_digits zero n h = tt
digits_from-are_digits (suc rounds) n h = elim (Bool-cases (ltb n 10)) [
  | inl small ↦ rw small (ground arith, tt)
  | inr large ↦ rw large (
      All-append _ (digits_from rounds (n / 10)) _
        (digits_from-are_digits rounds (n / 10) (ground arith)) (ground arith, tt))
]

pub read_digits-digits_from : (rounds n : ℕ) → n < rounds → read_digits 0 (digits_from rounds n) ≡ n
unfolding digits_from read_digits
read_digits-digits_from zero n h = elim h [ ]
read_digits-digits_from (suc rounds) n h = elim (Bool-cases (ltb n 10)) [
  | inl small ↦ ground arith
  | inr large ↦
      let below : n / 10 < rounds = ground arith in
      rw large (
        read_digits-append (digits_from rounds (n / 10)) (b'0' + n % 10) 0
          (digits_from-are_digits rounds (n / 10) below) (ground arith)
        ∙ omega (arith, read_digits-digits_from rounds (n / 10) below))
]

strtol_digits : (s : Bytes) → All (λ d. is_digit d ≡ true) s → strtol s ≡ pos (read_digits 0 s)
unfolding strtol
strtol_digits [] h = unfold read_digits in refl
strtol_digits (c ∷ s) h = ground (arith, h.0)

-- What is printed is read back.
pub strtol-print_int : (z : ℤ) → strtol (print_int z) ≡ z
unfolding strtol print_int print_nat
strtol-print_int (negsuc n) = ground (arith, read_digits-digits_from (suc (suc n)) (suc n))
strtol-print_int (pos n) =
    strtol_digits (digits_from (suc n) n) (digits_from-are_digits (suc n) n (omega arith))
    ∙ ap pos (read_digits-digits_from (suc n) n (omega arith))
