-- ===== src/Terminal.antt =====
-- What the programs read from the terminal: `scanInt` of common/lib.c. The terminal is the bytes
-- that are still to be read; what is printed is left out.
pub mod Scanning
use os_tp.Base.{
  ℕ, zero, suc, ◌+◌, ◌-◌, ◌*◌, Bool, true, false, ◌&&◌, ◌||◌, Option, none, some, List, [], ◌∷◌,
  Bytes, length, Outcome, ok, fault, blocked, ◌>>=◌, ℤ, pos, negsuc, sub_ℕ, leb, ◌==◌,
  if◌then◌else◌,
}
use os_tp.Decimal.{is_digit, read_digits}

abbrev pub is_space : ℕ → Bool
is_space c = c == b' ' || (leb 9 c && leb c 13)

unfoldable pub skip_space : Bytes → Bytes
skip_space [] = []
skip_space (c ∷ s) = let rest = skip_space s in if is_space c then rest else c ∷ s

unfoldable pub skip_digits : Bytes → Bytes
skip_digits [] = []
skip_digits (c ∷ s) = let rest = skip_digits s in if is_digit c then rest else c ∷ s

-- Digits, one at least.
unfoldable pub scan_digits : Bytes → Option ℕ × Bytes
unfolding skip_digits
scan_digits [] = (none, [])
scan_digits (c ∷ s) =
    if is_digit c then (some (read_digits 0 (c ∷ s)), skip_digits (c ∷ s)) else (none, c ∷ s)

-- `scanf("%d", &result)`: the number, or none where its result is not 1, and what is left. The
-- numbers are those that an `int` holds.
unfoldable pub scan_signed : Bytes → Option ℤ × Bytes
unfolding scan_digits
scan_signed [] = (none, [])
scan_signed (c ∷ s) =
    let plain = scan_digits (c ∷ s) in
    let signed = scan_digits s in
    if c == b'-'
    then (elim signed.0 [ none ↦ none | some n ↦ some (sub_ℕ 0 n) ], signed.1)
    else if c == b'+'
    then (elim signed.0 [ none ↦ none | some n ↦ some (pos n) ], signed.1)
    else (elim plain.0 [ none ↦ none | some n ↦ some (pos n) ], plain.1)

unfoldable pub scanf_int : Bytes → Option ℤ × Bytes
unfolding skip_space scan_signed
scanf_int input = scan_signed (skip_space input)

-- `while(getchar() != '\n');`, which has no end at the end of the input.
unfoldable pub drain : Bytes → Outcome Bytes
drain [] = blocked
drain (c ∷ s) = let rest = drain s in if c == 10 then ok s else rest

-- The loop of `scanInt`, with the rounds that it may run.
unfoldable pub scan_loop : ℕ → Bytes → Outcome (ℤ × Bytes)
unfolding scanf_int drain
scan_loop zero input = blocked
scan_loop (suc rounds) input = do
  let r = scanf_int input
  rest ← drain r.1
  elim r.0 [ none ↦ scan_loop rounds rest | some result ↦ ok (result, rest) ]

-- Each round takes a byte at least.
unfoldable pub scan_int : Bytes → Outcome (ℤ × Bytes)
unfolding scan_loop
scan_int input = scan_loop (suc (length input)) input
