-- ===== src/Decimal/Digits.antt =====
-- Decimal texts without zeros in front are the printed numbers.
use os_tp.Base.{
  ℕ, zero, suc, ◌+◌, ◌-◌, ◌*◌, ◌/◌, ◌%◌, ◌^◌, ◌≤◌, ◌<◌, ◌≡◌, refl, sym, ap, ◌∙◌, true, false, inl,
  inr, [], ◌∷◌, ◌++◌, append_assoc, arith, Bytes, length, length-append, ltb, Bool-cases, All,
  append-nil, Bool, All-append, leb, ◌&&◌,
}
use native.Mathlib.Nat.{mul-le-mul_right, pow-succ', mul_assoc}
use os_tp.Decimal.Texts.{length-digits_from}
use os_tp.Decimal.{digits_from, print_nat, is_digit, read_digits}

abbrev pub AreDigits : Bytes → Type 0
AreDigits s = All (λ d. is_digit d ≡ true) s

-- More rounds than needed print the same.
digits_from-more : (r q n : ℕ) → n < r → n < q → digits_from r n ≡ digits_from q n
unfolding digits_from
digits_from-more zero q n h k = absurd (omega arith)
digits_from-more (suc r) zero n h k = absurd (omega arith)
digits_from-more (suc r) (suc q) n h k = elim (Bool-cases (ltb n 10)) [
  | inl small ↦ rw small refl
  | inr large ↦ rw (large, digits_from-more r q (n / 10) (ground arith) (ground arith)) refl
]

pub print_nat-small : (n : ℕ) → n < 10 → print_nat n ≡ (b'0' + n) ∷ []
unfolding print_nat digits_from
print_nat-small n h = ground arith

-- One more digit.
pub print_nat-step :
    (n d : ℕ) → 0 < n → d < 10 → print_nat (n * 10 + d) ≡ print_nat n ++ (b'0' + d) ∷ []
unfolding print_nat
print_nat-step n d h k =
    unfold digits_from in
    rw not_small (
      rw (quotient, remainder, digits_from-more (n * 10 + d) (suc n) n (omega arith) (omega arith))
        refl)
  where
    not_small : ltb (n * 10 + d) 10 ≡ false
    not_small = ground arith

    quotient : (n * 10 + d) / 10 ≡ n
    quotient = omega arith

    remainder : (n * 10 + d) % 10 ≡ d
    remainder = omega arith

-- What is read of digits, printed.
pub print_nat-read_digits :
    (v : ℕ) (s : Bytes) → 0 < v → AreDigits s → print_nat (read_digits v s) ≡ print_nat v ++ s
unfolding read_digits
print_nat-read_digits v [] h ds = sym (append-nil (print_nat v))
print_nat-read_digits v (c ∷ s) h ds = rw ds.0 (
    print_nat-read_digits (v * 10 + (c - b'0')) s (omega arith) ds.1
    ∙ (ap (λ x. x ++ s)
          (print_nat-step v (c - b'0') h (ground (arith, ds.0))
            ∙ ap (λ d. print_nat v ++ d ∷ []) (ground (arith, ds.0)))
        ∙ append_assoc (print_nat v) (c ∷ []) s))

ten_more : (a n : ℕ) → a * 10 ^ suc n ≡ a * 10 * 10 ^ n
ten_more a n = ap (◌*◌ a) (pow-succ' 10 n) ∙ sym (mul_assoc a 10 (10 ^ n))

pub read_digits-bound : (v : ℕ) (s : Bytes) → AreDigits s → read_digits v s < suc v * 10 ^ length s
unfolding read_digits
read_digits-bound v [] ds = omega arith
read_digits-bound v (c ∷ s) ds =
    let next = v * 10 + (c - b'0') in
    let digit : c - b'0' < 10 = ground (arith, ds.0) in
    let scaled : suc next * 10 ^ length s ≤ suc v * 10 * 10 ^ length s =
      mul-le-mul_right (10 ^ length s) (omega arith) in
    rw (ds.0, ten_more (suc v) (length s)) (omega (arith, read_digits-bound next s ds.1, scaled))

abbrev pub leading : ℕ → Bool
leading c = leb b'1' c && leb c b'9'

-- The text of a number that is not zero: a digit that is none, and digits.
pub record Figures (s : Bytes) : Type 0 where
  pub first : ℕ
  pub others : Bytes
  pub made : s ≡ first ∷ others
  pub is_leading : leading first ≡ true
  pub are_digits : AreDigits others

digits_from-Figures : (r n : ℕ) → n < r → 0 < n → Figures (digits_from r n)
unfolding digits_from
digits_from-Figures zero n h k = absurd (omega arith)
digits_from-Figures (suc r) n h k = elim (Bool-cases (ltb n 10)) [
  | inl small ↦ rw small (record {
    first = b'0' + n;
    others = [];
    made = refl;
    is_leading = ground arith;
    are_digits = tt;
  })
  | inr large ↦
      let front = digits_from-Figures r (n / 10) (ground arith) (ground arith) in
      let last = b'0' + n % 10 in
      rw large (record {
        first = front.first;
        others = front.others ++ last ∷ [];
        made = ap (λ l. l ++ last ∷ []) front.made;
        is_leading = front.is_leading;
        are_digits =
            All-append (λ d. is_digit d ≡ true) front.others (last ∷ []) front.are_digits
              (ground arith, tt);
      })
]

pub print_nat-Figures : (n : ℕ) → 0 < n → Figures (print_nat n)
unfolding print_nat
print_nat-Figures n h = digits_from-Figures (suc n) n (omega arith) h

-- Such a text is that of the number that it reads as.
pub Figures-print_nat :
    (c : ℕ) (s : Bytes)
    → leading c ≡ true
    → AreDigits s
    → print_nat (read_digits (c - b'0') s) ≡ c ∷ s
Figures-print_nat c s h ds =
    print_nat-read_digits (c - b'0') s (ground (arith, h)) ds
    ∙ ap (λ x. x ++ s)
        (print_nat-small (c - b'0') (ground (arith, h)) ∙ ap (λ d. d ∷ []) (ground (arith, h)))

pub read_digits-grows : (v : ℕ) (s : Bytes) → v ≤ read_digits v s
unfolding read_digits
read_digits-grows v [] = omega arith
read_digits-grows v (c ∷ s) = ground (arith, read_digits-grows (v * 10 + (c - b'0')) s)

pub length-print_nat : (digits n : ℕ) → n < 10 ^ suc digits → length (print_nat n) ≤ suc digits
unfolding print_nat
length-print_nat digits n h = length-digits_from digits (suc n) n h

-- From ten on there are two digits at least.
pub length-print_nat_two : (n : ℕ) → 10 ≤ n → 2 ≤ length (print_nat n)
length-print_nat_two n h =
    let q : 0 < n / 10 = omega arith in
    let f = print_nat-Figures (n / 10) q in
    omega (
      arith,
      length-append (print_nat (n / 10)) ((b'0' + n % 10) ∷ []),
      ap length f.made,
      ap length (ap print_nat whole ∙ print_nat-step (n / 10) (n % 10) q (omega arith)),
    )
  where
    whole : n ≡ n / 10 * 10 + n % 10
    whole = omega arith
