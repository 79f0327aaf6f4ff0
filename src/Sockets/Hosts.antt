-- ===== src/Sockets/Hosts.antt =====
-- Which hosts `checkIP` of common/commWithSockets.c accepts.
use os_tp.Base.{
  ℕ, zero, suc, ◌≤◌, ◌≡◌, refl, sym, ap, ◌∙◌, subst, ◌↔◌, inl, inr, true, List, [], ◌∷◌, ◌++◌,
  append_assoc, arith, Bytes, All, length, ok, ==_iff, ok-injective,
}
use os_tp.Memory.Laws.{IsText, text_of-append}
use os_tp.Decimal.{print_nat}
use os_tp.Regex.{Regex, seq, byte, up_to, matches}
use os_tp.Regex.Laws.{Lang, matches→Lang, Lang→matches}
use os_tp.Sockets.Octets.{octet, Lang→IsOctet, IsOctet→Lang}
use os_tp.Sockets.Address.{octet_regex, ip_regex, check_ip}

-- Numbers, each with a dot behind it.
abbrev pub dotted : List ℕ → Bytes
dotted [] = []
dotted (n ∷ ns) = print_nat n ++ b'.' ∷ dotted ns

abbrev pub AreOctets : List ℕ → Type 0
AreOctets ns = All (λ n. n ≤ 255) ns

-- Two to four numbers up to 255, with dots between them.
pub data IsHost (s : Bytes) : Type 0 where
  host :
      (ns : List ℕ) (last : ℕ)
      → AreOctets ns
      → last ≤ 255
      → 1 ≤ length ns
      → length ns ≤ 3
      → s ≡ dotted ns ++ print_nat last
      → IsHost s

abbrev part : Regex
part = seq octet_regex (byte b'.')

Lang→part : (s : Bytes) → Lang part s → (n : ℕ) × (n ≤ 255) × (s ≡ print_nat n ++ b'.' ∷ [])
Lang→part s (x, y, e, hx, (c, is, ey)) = elim (Lang→IsOctet x hx) [
  | octet n le ex ↦ (
    n,
    le,
    e
        ∙ (ap (λ l. l ++ y) ex
            ∙ ap (λ l. print_nat n ++ l) (ey ∙ ap (λ d. d ∷ []) ((==_iff c b'.').0 is))),
  )
]

part→Lang : (n : ℕ) → n ≤ 255 → Lang part (print_nat n ++ b'.' ∷ [])
part→Lang n le =
    (print_nat n, b'.' ∷ [], refl, IsOctet→Lang (print_nat n) (octet n le refl), (b'.', refl, refl))

pub record Parts (k : ℕ) (s : Bytes) : Type 0 where
  pub numbers : List ℕ
  pub are_octets : AreOctets numbers
  pub few : length numbers ≤ k
  pub made : s ≡ dotted numbers

up_to→Parts : (k : ℕ) (s : Bytes) → Lang (up_to k part) s → Parts k s
up_to→Parts zero s h = record { numbers = []; are_octets = tt; few = omega arith; made = h }
up_to→Parts (suc k) s (inl h) = record {
  numbers = [];
  are_octets = tt;
  few = omega arith;
  made = h;
}
up_to→Parts (suc k) s (inr (x, y, e, hx, hy)) =
    let (n, le, ex) = Lang→part x hx in
    let rest = up_to→Parts k y hy in
    record {
      numbers = n ∷ rest.numbers;
      are_octets = (le, rest.are_octets);
      few = omega (arith, rest.few);
      made =
          e
          ∙ (ap (λ l. l ++ y) ex
              ∙ (append_assoc (print_nat n) (b'.' ∷ []) y
                  ∙ ap (λ l. print_nat n ++ b'.' ∷ l) rest.made));
    }

dotted→Lang : (k : ℕ) (ns : List ℕ) → AreOctets ns → length ns ≤ k → Lang (up_to k part) (dotted ns)
dotted→Lang zero [] h le = refl
dotted→Lang zero (n ∷ ns) h le = absurd (omega arith)
dotted→Lang (suc k) [] h le = inl refl
dotted→Lang (suc k) (n ∷ ns) h le = inr (
  print_nat n ++ b'.' ∷ [],
  dotted ns,
  sym (append_assoc (print_nat n) (b'.' ∷ []) (dotted ns)),
  part→Lang n h.0,
  dotted→Lang k ns h.1 (omega arith),
)

Lang→IsHost : (s : Bytes) → Lang ip_regex s → IsHost s
unfolding ip_regex
Lang→IsHost s (x, y, e, (x2, y2, e2, h2, hy2), hy) =
    let (n, le, ex) = Lang→part x2 h2 in
    let rest = up_to→Parts 2 y2 hy2 in
    elim (Lang→IsOctet y hy) [
      | octet last le_last ey ↦
          host (n ∷ rest.numbers) last (le, rest.are_octets) le_last (omega arith)
            (omega (arith, rest.few))
            (e
              ∙ (ap (λ l. l ++ y)
                    (e2
                      ∙ (ap (λ l. l ++ y2) ex
                          ∙ (append_assoc (print_nat n) (b'.' ∷ []) y2
                              ∙ ap (λ l. print_nat n ++ b'.' ∷ l) rest.made)))
                  ∙ ap (λ l. dotted (n ∷ rest.numbers) ++ l) ey))
    ]

host→Lang :
    (ns : List ℕ) (last : ℕ)
    → AreOctets ns
    → last ≤ 255
    → 1 ≤ length ns
    → length ns ≤ 3
    → Lang ip_regex (dotted ns ++ print_nat last)
unfolding ip_regex
host→Lang [] last h le low high = absurd (omega arith)
host→Lang (n ∷ ns) last h le low high = (
  dotted (n ∷ ns),
  print_nat last,
  refl,
  (
    print_nat n ++ b'.' ∷ [],
    dotted ns,
    sym (append_assoc (print_nat n) (b'.' ∷ []) (dotted ns)),
    part→Lang n h.0,
    dotted→Lang 2 ns h.1 (omega arith),
  ),
  IsOctet→Lang (print_nat last) (octet last le refl),
)

pub check_ip-matches :
    (s rest : Bytes) → IsText s → check_ip (s ++ 0 ∷ rest) ≡ ok (matches ip_regex s)
unfolding check_ip
check_ip-matches s rest h = rw (text_of-append s rest h) refl

pub matches→IsHost : (s : Bytes) → matches ip_regex s ≡ true → IsHost s
matches→IsHost s e = Lang→IsHost s (matches→Lang ip_regex s e)

pub IsHost→matches : (s : Bytes) → IsHost s → matches ip_regex s ≡ true
IsHost→matches s (host ns last are le low high e) =
    Lang→matches ip_regex s (subst (Lang ip_regex) (sym e) (host→Lang ns last are le low high))

-- `checkIP` accepts a text just where it is two to four decimal numbers up to 255, none of them with
-- zeros in front, with a dot between each two: four numbers make an address, but two or three are
-- accepted as well.
pub check_ip-IsHost : (s rest : Bytes) → IsText s → (check_ip (s ++ 0 ∷ rest) ≡ ok true) ↔ IsHost s
check_ip-IsHost s rest h = (
  (λ e. matches→IsHost s (ok-injective (sym (check_ip-matches s rest h) ∙ e))),
  (λ p. check_ip-matches s rest h ∙ ap ok (IsHost→matches s p)),
)
