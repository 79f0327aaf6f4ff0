-- ===== src/Terminal/Scanning.antt =====
-- `scanInt` of common/lib.c on a number that is typed in decimal.
use os_tp.Base.{
  ℕ, zero, suc, ◌+◌, ◌*◌, ◌-◌, ◌≡◌, refl, ap, ◌∙◌, true, false, [], ◌∷◌, ◌++◌, arith, Bytes, length,
  ok, pos, ◌==◌, ◌≤◌,
}
use os_tp.Decimal.{print_nat, is_digit, read_digits}
use os_tp.Decimal.Laws.{digits_from-are_digits, read_digits-digits_from}
use os_tp.Decimal.Digits.{AreDigits, print_nat-Figures, print_nat-small}
use os_tp.Terminal.{
  is_space, skip_space, skip_digits, scan_digits, scan_signed, scanf_int, drain, scan_loop,
  scan_int,
}

read_digits-stop :
    (s r : Bytes) (v : ℕ) → AreDigits s → read_digits v (s ++ 10 ∷ r) ≡ read_digits v s
unfolding read_digits
read_digits-stop [] r v h = refl
read_digits-stop (c ∷ s) r v h = rw h.0 (read_digits-stop s r (v * 10 + (c - b'0')) h.1)

skip_digits-stop : (s r : Bytes) → AreDigits s → skip_digits (s ++ 10 ∷ r) ≡ 10 ∷ r
unfolding skip_digits
skip_digits-stop [] r h = refl
skip_digits-stop (c ∷ s) r h = rw h.0 (skip_digits-stop s r h.1)

print_nat-AreDigits : (n : ℕ) → AreDigits (print_nat n)
unfolding print_nat
print_nat-AreDigits n = digits_from-are_digits (suc n) n (omega arith)

read_digits-print_nat : (n : ℕ) → read_digits 0 (print_nat n) ≡ n
unfolding print_nat
read_digits-print_nat n = read_digits-digits_from (suc n) n (omega arith)

-- Digits, one at least, up to a line feed.
scan_loop-digits :
    (c : ℕ) (s r : Bytes) (rounds : ℕ)
    → is_digit c ≡ true
    → AreDigits s
    → scan_loop (suc rounds) (c ∷ (s ++ 10 ∷ r)) ≡ ok (pos (read_digits 0 (c ∷ s)), r)
unfolding scan_loop scanf_int scan_signed skip_space scan_digits drain
scan_loop-digits c s r rounds hc hs =
    let no_space : is_space c ≡ false = ground (arith, hc) in
    let no_minus : (c == b'-') ≡ false = ground (arith, hc) in
    let no_plus : (c == b'+') ≡ false = ground (arith, hc) in
    rw
      (
        no_space,
        no_minus,
        no_plus,
        hc,
        read_digits-stop (c ∷ s) r 0 (hc, hs),
        skip_digits-stop s r hs,
      )
      refl

scan_loop-text :
    (s r : Bytes) (rounds : ℕ)
    → AreDigits s
    → 1 ≤ length s
    → scan_loop (suc rounds) (s ++ 10 ∷ r) ≡ ok (pos (read_digits 0 s), r)
scan_loop-text [] r rounds h some_digits = absurd (omega arith)
scan_loop-text (c ∷ s) r rounds h some_digits = scan_loop-digits c s r rounds h.0 h.1

length-print_nat_one : (n : ℕ) → 1 ≤ length (print_nat n)
length-print_nat_one zero = omega (arith, ap length (print_nat-small 0 (omega arith)))
length-print_nat_one (suc n) =
    omega (arith, ap length (print_nat-Figures (suc n) (omega arith)).made)

-- `scanInt` returns the number that is typed in decimal, and leaves what follows its line.
pub scan_int-print_nat : (n : ℕ) (r : Bytes) → scan_int (print_nat n ++ 10 ∷ r) ≡ ok (pos n, r)
unfolding scan_int
scan_int-print_nat n r =
    scan_loop-text (print_nat n) r (length (print_nat n ++ 10 ∷ r)) (print_nat-AreDigits n)
      (length-print_nat_one n)
    ∙ ap (λ v. ok (pos v, r)) (read_digits-print_nat n)
