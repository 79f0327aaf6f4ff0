-- ===== src/Sockets/Splitting.antt =====
-- How the checks of common/commWithSockets.c split an address at its first colon, and what they say
-- of the two parts.
use os_tp.Base.{
  ℕ, zero, suc, ◌+◌, ◌-◌, ◌≡◌, ◌≢◌, refl, sym, ap, ◌∙◌, subst, inl, inr, true, false, ◌&&◌, none,
  some, List, [], ◌∷◌, ◌++◌, append_assoc, arith, Bytes, All, All-append, length, length-append,
  drop, ok, Bool-cases, ==_iff, bind-ok, drop-append_length, ◌==◌, All-map,
}
use os_tp.Memory.{strlen}
use os_tp.Memory.Laws.{IsText, strlen-append, read_block-append}
use os_tp.Decimal.{print_nat, is_digit}
use os_tp.Decimal.Digits.{print_nat-Figures, print_nat-small}
use os_tp.Regex.{matches}
use os_tp.Sockets.Address.{
  search_for_colon, ip_regex, port_regex, ip_part, port_part, is_valid_address,
}
use os_tp.Sockets.Hosts.{IsHost, host, dotted, check_ip-matches}
use os_tp.Sockets.Ports.{check_port-matches}

abbrev pub NoColon : Bytes → Type 0
NoColon s = All (λ c. c ≢ b':') s

-- What stands before the first colon of a text, and behind it.
pub data Colon (s : Bytes) : Type 0 where
  colon_at : (h p : Bytes) → NoColon h → s ≡ h ++ b':' ∷ p → Colon s
  no_colon : NoColon s → Colon s

pub Colon-cases : (s : Bytes) → Colon s
Colon-cases [] = no_colon tt
Colon-cases (c ∷ s) = elim (Bool-cases (c == b':')) [
  | inl colon ↦ colon_at [] s tt (ap (λ d. d ∷ s) ((==_iff c b':').0 colon))
  | inr other ↦ elim (Colon-cases s) [
    | colon_at h p without e ↦ colon_at (c ∷ h) p (ground arith, without) (ap (◌∷◌ c) e)
    | no_colon without ↦ no_colon (ground arith, without)
  ]
]

pub search_for_colon-none :
    (s rest : Bytes) → IsText s → NoColon s → search_for_colon (s ++ 0 ∷ rest) ≡ ok none
unfolding search_for_colon
search_for_colon-none [] rest h k = refl
search_for_colon-none (c ∷ s) rest h k =
    ground (arith, h.0, k.0, search_for_colon-none s rest h.1 k.1)

pub search_for_colon-some :
    (h rest : Bytes)
    → IsText h
    → NoColon h
    → search_for_colon (h ++ b':' ∷ rest) ≡ ok (some (length h))
unfolding search_for_colon
search_for_colon-some [] rest t k = refl
search_for_colon-some (c ∷ h) rest t k =
    ground (arith, t.0, k.0, search_for_colon-some h rest t.1 k.1)

pub ip_part-append : (h rest : Bytes) → ip_part (length h) (h ++ rest) ≡ ok (h ++ 0 ∷ [])
unfolding ip_part
ip_part-append h rest = rw (read_block-append h rest) refl

pub drop-colon : (h rest : Bytes) → drop (length h + 1) (h ++ b':' ∷ rest) ≡ rest
drop-colon h rest =
    ap (λ n. drop n (h ++ b':' ∷ rest)) (omega (arith, length-append h (b':' ∷ [])))
    ∙ (ap (drop (length (h ++ b':' ∷ []))) (sym (append_assoc h (b':' ∷ []) rest))
        ∙ drop-append_length (h ++ b':' ∷ []) rest)

pub port_part-append :
    (h p : Bytes)
    → IsText h
    → IsText p
    → port_part (length h) (h ++ b':' ∷ (p ++ 0 ∷ [])) ≡ ok (p ++ 0 ∷ [])
unfolding port_part
port_part-append h p th tp =
    let whole : IsText (h ++ b':' ∷ p) =
      All-append (λ c. c ≢ 0) h (b':' ∷ p) th (omega arith, tp) in
    let measured : strlen (h ++ b':' ∷ (p ++ 0 ∷ [])) ≡ ok (length (h ++ b':' ∷ p)) =
      ap strlen (sym (append_assoc h (b':' ∷ p) (0 ∷ [])))
      ∙ strlen-append (h ++ b':' ∷ p) [] whole in
    let size : length (h ++ b':' ∷ p) - length h - 1 ≡ length p =
      omega (arith, length-append h (b':' ∷ p)) in
    bind-ok _ measured (rw (size, drop-colon h (p ++ 0 ∷ []), read_block-append p (0 ∷ [])) refl)

-- The address `h:p`, of which the host holds no colon.
pub is_valid_address-matches :
    (h p : Bytes)
    → IsText h
    → IsText p
    → NoColon h
    → is_valid_address (h ++ b':' ∷ (p ++ 0 ∷ [])) ≡ ok (matches ip_regex h && matches port_regex p)
unfolding is_valid_address
is_valid_address-matches h p th tp k =
    rw
      (
        search_for_colon-some h (p ++ 0 ∷ []) th k,
        ip_part-append h (b':' ∷ (p ++ 0 ∷ [])),
        port_part-append h p th tp,
        check_ip-matches h [] th,
        check_port-matches p [] tp,
      )
      refl

pub is_valid_address-none :
    (s : Bytes) → IsText s → NoColon s → is_valid_address (s ++ 0 ∷ []) ≡ ok false
unfolding is_valid_address
is_valid_address-none s h k = rw (search_for_colon-none s [] h k) refl

module _ (Q : ℕ → Type 0) (digits : (c : ℕ) → is_digit c ≡ true → Q c) where
  print_nat-All : (n : ℕ) → All Q (print_nat n)
  print_nat-All zero = rw (print_nat-small 0 (omega arith)) (digits b'0' refl, tt)
  print_nat-All (suc n) =
      let f = print_nat-Figures (suc n) (omega arith) in
      rw f.made (
        digits f.first (ground (arith, f.is_leading)),
        All-map (λ d. is_digit d ≡ true) Q digits f.others f.are_digits,
      )

  dotted-All : Q b'.' → (ns : List ℕ) → All Q (dotted ns)
  dotted-All dot [] = tt
  dotted-All dot (n ∷ ns) =
      All-append Q (print_nat n) (b'.' ∷ dotted ns) (print_nat-All n) (dot, dotted-All dot ns)

  IsHost-All : Q b'.' → (h : Bytes) → IsHost h → All Q h
  IsHost-All dot h (host ns last are le low high e) =
      subst (All Q) (sym e)
        (All-append Q (dotted ns) (print_nat last) (dotted-All dot ns) (print_nat-All last))

pub IsHost-NoColon : (h : Bytes) → IsHost h → NoColon h
IsHost-NoColon h is = IsHost-All (λ c. c ≢ b':') (λ c d. ground (arith, d)) (omega arith) h is

pub IsHost-IsText : (h : Bytes) → IsHost h → IsText h
IsHost-IsText h is = IsHost-All (λ c. c ≢ 0) (λ c d. ground (arith, d)) (omega arith) h is

pub print_nat-IsText : (n : ℕ) → IsText (print_nat n)
print_nat-IsText n = print_nat-All (λ c. c ≢ 0) (λ c d. ground (arith, d)) n
