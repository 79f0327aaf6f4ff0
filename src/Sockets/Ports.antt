-- ===== src/Sockets/Ports.antt =====
-- Which ports `checkPort` of common/commWithSockets.c accepts.
use os_tp.Base.{
  ℕ, zero, suc, ◌+◌, ◌-◌, ◌*◌, ◌^◌, ◌≤◌, ◌≡◌, refl, sym, ap, ◌∙◌, subst, ◌↔◌, inl, inr, Bool, true,
  false, not, [], ◌∷◌, ◌++◌, arith, Bytes, length, ok, ℤ, pos, negsuc, le→ltb, ==_iff,
  if◌then◌else◌, ok-injective,
}
use os_tp.Memory.Laws.{IsText, text_of-append}
use os_tp.Decimal.{print_nat, is_digit, read_digits, strtol}
use os_tp.Decimal.Digits.{
  AreDigits, print_nat-Figures, Figures-print_nat, print_nat-small, read_digits-bound,
  read_digits-grows, length-print_nat, length-print_nat_two, leading,
}
use native.Mathlib.Nat.{mul-le-mul, pow-le-pow_right}
use os_tp.Regex.{up_to, matches}
use os_tp.Regex.Laws.{Lang, matches→Lang, Lang→matches}
use os_tp.Sockets.Address.{digit, port_regex, to_ushort, check_port}

pub up_to→digits : (m : ℕ) (s : Bytes) → Lang (up_to m digit) s → AreDigits s × (length s ≤ m)
up_to→digits zero s h = subst (λ x. AreDigits x × (length x ≤ 0)) (sym h) (tt, omega arith)
up_to→digits (suc m) s (inl h) =
    subst (λ x. AreDigits x × (length x ≤ suc m)) (sym h) (tt, omega arith)
up_to→digits (suc m) s (inr (x, y, e, (c, is, e2), hy)) =
    let (ds, le) = up_to→digits m y hy in
    subst (λ x. AreDigits x × (length x ≤ suc m)) (sym (e ∙ ap (λ l. l ++ y) e2))
      ((is, ds), omega arith)

pub digits→up_to : (m : ℕ) (s : Bytes) → AreDigits s → length s ≤ m → Lang (up_to m digit) s
digits→up_to zero [] ds h = refl
digits→up_to zero (c ∷ s) ds h = absurd (omega arith)
digits→up_to (suc m) [] ds h = inl refl
digits→up_to (suc m) (c ∷ s) ds h =
    inr (c ∷ [], s, refl, (c, ds.0, refl), digits→up_to m s ds.1 (omega arith))

-- A number that is printed as zero, or with two to five digits.
pub data IsPort (s : Bytes) : Type 0 where
  zero_port : s ≡ print_nat 0 → IsPort s
  long_port : (n : ℕ) → 10 ≤ n → n ≤ 99999 → s ≡ print_nat n → IsPort s

read_digits-cons :
    (v d : ℕ) (s : Bytes)
    → is_digit d ≡ true
    → read_digits v (d ∷ s) ≡ read_digits (v * 10 + (d - b'0')) s
unfolding read_digits
read_digits-cons v d s h = rw h refl

Lang→IsPort : (s : Bytes) → Lang port_regex s → IsPort s
unfolding port_regex
Lang→IsPort s (inl (c, is, e)) =
    zero_port
      (e ∙ (ap (λ d. d ∷ []) ((==_iff c b'0').0 is) ∙ sym (print_nat-small 0 (omega arith))))
Lang→IsPort s (inr (x, y, e, (c, is, e2), (x3, y3, e3, (d, is3, e4), hy))) =
    let (ds, le) = up_to→digits 3 y3 hy in
    let made : s ≡ c ∷ d ∷ y3 =
      e ∙ (ap (λ l. l ++ y) e2 ∙ ap (◌∷◌ c) (e3 ∙ ap (λ l. l ++ y3) e4)) in
    let n = read_digits (c - b'0') (d ∷ y3) in
    let first : 1 ≤ c - b'0' = ground (arith, is) in
    let low : 10 ≤ n =
      rw (read_digits-cons (c - b'0') d y3 is3)
        (omega (arith, first, read_digits-grows ((c - b'0') * 10 + (d - b'0')) y3)) in
    let powers : 10 ^ length (d ∷ y3) ≤ 10 ^ 4 =
      pow-le-pow_right (omega arith) {j = 4} (omega arith) in
    let limit : suc (c - b'0') * 10 ^ length (d ∷ y3) ≤ 10 * 10 ^ 4 =
      mul-le-mul {n₂ = 10} (ground (arith, is)) powers in
    long_port n low (omega (arith, limit, read_digits-bound (c - b'0') (d ∷ y3) (is3, ds)))
      (made ∙ sym (Figures-print_nat c (d ∷ y3) (ground (arith, is)) (is3, ds)))

long→Lang : (n : ℕ) → 10 ≤ n → n ≤ 99999 → Lang port_regex (print_nat n)
unfolding port_regex
long→Lang n low high =
    let f = print_nat-Figures n (omega arith) in
    let short = length-print_nat 4 n (omega arith) in
    let long = length-print_nat_two n low in
    rw f.made (
      figures f.first f.others f.is_leading f.are_digits (omega (arith, long, ap length f.made))
        (omega (arith, short, ap length f.made)))
  where
    figures :
        (c : ℕ) (s : Bytes)
        → leading c ≡ true
        → AreDigits s
        → 1 ≤ length s
        → length s ≤ 4
        → Lang port_regex (c ∷ s)
    figures c [] h ds low high = absurd (omega arith)
    figures c (d ∷ s) h ds low high = inr (
      c ∷ [],
      d ∷ s,
      refl,
      (c, h, refl),
      (d ∷ [], s, refl, (d, ds.0, refl), digits→up_to 3 s ds.1 (omega arith)),
    )

IsPort→Lang : (s : Bytes) → IsPort s → Lang port_regex s
unfolding port_regex
IsPort→Lang s (zero_port e) = inl (b'0', refl, e ∙ print_nat-small 0 (omega arith))
IsPort→Lang s (long_port n low high e) = subst (Lang port_regex) (sym e) (long→Lang n low high)

to_ushort-bound : (z : ℤ) → to_ushort z ≤ 65535
to_ushort-bound (pos n) = omega arith
to_ushort-bound (negsuc n) = omega arith

-- The test that should bound the port is on an `unsigned short`, which never exceeds it.
pub check_port-matches :
    (s rest : Bytes) → IsText s → check_port (s ++ 0 ∷ rest) ≡ ok (matches port_regex s)
unfolding check_port
check_port-matches s rest h =
    rw (text_of-append s rest h, le→ltb _ _ (to_ushort-bound (strtol s)))
      (plain (matches port_regex s))
  where
    plain : (b : Bool) → ok (if not b then false else if false then false else true) ≡ ok b
    plain true = refl
    plain false = refl

pub matches→IsPort : (s : Bytes) → matches port_regex s ≡ true → IsPort s
matches→IsPort s e = Lang→IsPort s (matches→Lang port_regex s e)

pub IsPort→matches : (s : Bytes) → IsPort s → matches port_regex s ≡ true
IsPort→matches s p = Lang→matches port_regex s (IsPort→Lang s p)

-- `checkPort` accepts a text just where it is the decimal text of 0 or of a number from 10 to 99999.
-- So it turns away the ports 1 to 9, and lets the numbers above 65535 through, which are no ports.
pub check_port-IsPort :
    (s rest : Bytes) → IsText s → (check_port (s ++ 0 ∷ rest) ≡ ok true) ↔ IsPort s
check_port-IsPort s rest h = (
  (λ e. matches→IsPort s (ok-injective (sym (check_port-matches s rest h) ∙ e))),
  (λ p. check_port-matches s rest h ∙ ap ok (IsPort→matches s p)),
)
