-- ===== src/Sockets/Octets.antt =====
-- The parts of the hosts of common/commWithSockets.c: the numbers up to 255.
use os_tp.Base.{
  ℕ, zero, suc, ◌-◌, ◌≤◌, ◌<◌, ◌≡◌, refl, sym, ap, ◌∙◌, subst, inl, inr, Bool, true, ◌&&◌, [], ◌∷◌,
  ◌++◌, arith, Bytes, Bool-cases, ==_iff, ◌==◌,
}
use os_tp.Decimal.{digits_from, print_nat, is_digit, read_digits}
use os_tp.Decimal.Digits.{AreDigits, leading, Figures-print_nat, print_nat-small}
use os_tp.Regex.{nullable, deriv, matches, seq, opt, class, range}
use os_tp.Regex.Laws.{Lang, matches→Lang}
use os_tp.Sockets.Address.{octet_regex}

-- The numbers below n pass a test.
abbrev below : ℕ → (ℕ → Bool) → Bool
below zero p = true
below (suc n) p = p n && below n p

below→lt : (n : ℕ) (p : ℕ → Bool) (k : ℕ) → below n p ≡ true → k < n → p k ≡ true
below→lt zero p k h lt = absurd (omega arith)
below→lt (suc n) p k h lt = elim (Bool-cases (k == n)) [
  | inl same ↦ rw ((==_iff k n).0 same) (ground (arith, h))
  | inr other ↦ below→lt n p k (ground (arith, h)) (ground (arith, lt, other))
]

octet_matches : below 256 (λ n. matches octet_regex (print_nat n)) ≡ true
unfolding octet_regex matches nullable deriv print_nat digits_from
octet_matches = refl

pub data IsOctet (s : Bytes) : Type 0 where
  octet : (n : ℕ) → n ≤ 255 → s ≡ print_nat n → IsOctet s

IsOctet-of :
    (s : Bytes) (c : ℕ) (ds : Bytes)
    → s ≡ c ∷ ds
    → leading c ≡ true
    → AreDigits ds
    → read_digits (c - b'0') ds ≤ 255
    → IsOctet s
IsOctet-of s c ds e h are le =
    octet (read_digits (c - b'0') ds) le (e ∙ sym (Figures-print_nat c ds h are))

-- Two classes in a row, each of which may be left out.
data Short (p q : ℕ → Bool) (s : Bytes) : Type 0 where
  neither : s ≡ [] → Short p q s
  one_first : (d : ℕ) → p d ≡ true → s ≡ d ∷ [] → Short p q s
  one_second : (d : ℕ) → q d ≡ true → s ≡ d ∷ [] → Short p q s
  both : (d e : ℕ) → p d ≡ true → q e ≡ true → s ≡ d ∷ e ∷ [] → Short p q s

Lang→Short :
    (p q : ℕ → Bool) (s : Bytes) → Lang (seq (opt (class p)) (opt (class q))) s → Short p q s
Lang→Short p q s (x, y, e, inl ex, inl ey) = neither (e ∙ (ap (λ l. l ++ y) ex ∙ ey))
Lang→Short p q s (x, y, e, inr (d, is, ex), inl ey) =
    one_first d is (e ∙ (ap (λ l. l ++ y) ex ∙ ap (◌∷◌ d) ey))
Lang→Short p q s (x, y, e, inl ex, inr (d, is, ey)) =
    one_second d is (e ∙ (ap (λ l. l ++ y) ex ∙ ey))
Lang→Short p q s (x, y, e, inr (d, is, ex), inr (f, is2, ey)) =
    both d f is is2 (e ∙ (ap (λ l. l ++ y) ex ∙ ap (◌∷◌ d) ey))

headed : {c : ℕ} {s x y ds : Bytes} → s ≡ x ++ y → x ≡ c ∷ [] → y ≡ ds → s ≡ c ∷ ds
headed {c} {y} e ex ey = e ∙ (ap (λ l. l ++ y) ex ∙ ap (◌∷◌ c) ey)

hundreds :
    (s y : Bytes) (c : ℕ)
    → leading c ≡ true
    → s ≡ c ∷ y
    → c ≤ b'2'
    → (p : ℕ → Bool) → ((d : ℕ) → p d ≡ true → (is_digit d ≡ true) × (c ≡ b'2' → d ≤ b'4'))
    → Short p is_digit y
    → IsOctet s
unfolding read_digits
hundreds s y c h made le p digits (neither e) =
    IsOctet-of s c [] (made ∙ ap (◌∷◌ c) e) h tt (omega arith)
hundreds s y c h made le p digits (one_first d is e) =
    IsOctet-of s c (d ∷ []) (made ∙ ap (◌∷◌ c) e) h ((digits d is).0, tt)
      (ground (arith, h, (digits d is).0))
hundreds s y c h made le p digits (one_second d is e) =
    IsOctet-of s c (d ∷ []) (made ∙ ap (◌∷◌ c) e) h (is, tt) (ground (arith, is, le))
hundreds s y c h made le p digits (both d f is is2 e) =
    IsOctet-of s c (d ∷ f ∷ []) (made ∙ ap (◌∷◌ c) e) h ((digits d is).0, (is2, tt))
      (ground (arith, h, is2, (digits d is).0, (digits d is).1))

pub Lang→IsOctet : (s : Bytes) → Lang octet_regex s → IsOctet s
unfolding octet_regex read_digits
Lang→IsOctet s (inl (c, is, e)) =
    octet 0 (omega arith)
      (e ∙ (ap (λ d. d ∷ []) ((==_iff c b'0').0 is) ∙ sym (print_nat-small 0 (omega arith))))
Lang→IsOctet s (inr (inl (x, y, e, (c, is, ex), inl ey))) =
    IsOctet-of s c [] (headed e ex ey) (ground (arith, is)) tt (ground (arith, is))
Lang→IsOctet s (inr (inl (x, y, e, (c, is, ex), inr (d, is2, ey)))) =
    IsOctet-of s c (d ∷ []) (headed e ex ey) (ground (arith, is)) (is2, tt)
      (ground (arith, is, is2))
Lang→IsOctet s (inr (inr (inl (x, y, e, (c, is, ex), hy)))) =
    hundreds s y c (ground (arith, is)) (headed e ex refl) (ground (arith, is)) is_digit
      (λ d h. (h, λ k. ground (arith, is))) (Lang→Short is_digit is_digit y hy)
Lang→IsOctet s
      (inr (inr (inr (inl (x, y, e, (c, is, ex), (x2, y2, e2, (d, is2, ex2), (f, is3, ey))))))) =
    IsOctet-of s c (d ∷ f ∷ []) (headed e ex (headed e2 ex2 ey)) (ground (arith, is))
      (ground (arith, is2), (ground (arith, is3), tt)) (ground (arith, is, is2, is3))
Lang→IsOctet s (inr (inr (inr (inr (inl (x, y, e, (c, is, ex), hy)))))) =
    hundreds s y c (ground (arith, is)) (headed e ex refl) (ground (arith, is)) (range b'0' b'4')
      (λ d h. (ground (arith, h), λ k. ground (arith, h)))
      (Lang→Short (range b'0' b'4') is_digit y hy)
Lang→IsOctet s (inr (inr (inr (inr (inr (x, y, e, (c, is, ex), (d, is2, ey))))))) =
    IsOctet-of s c (d ∷ []) (headed e ex ey) (ground (arith, is)) (is2, tt)
      (ground (arith, is, is2))

pub IsOctet→Lang : (s : Bytes) → IsOctet s → Lang octet_regex s
IsOctet→Lang s (octet n le e) = subst (Lang octet_regex) (sym e) (
    matches→Lang octet_regex (print_nat n)
      (below→lt 256 (λ k. matches octet_regex (print_nat k)) n octet_matches (omega arith)))
