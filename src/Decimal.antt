-- ===== src/Decimal.antt =====
-- Numbers as text: `countDigits` of common/lib.c, and C's `%i`, `atoi` and `strtol`, on which the
-- queries of database/databaseServer.c rest.
pub mod Laws
pub mod Texts
pub mod Digits
use Prim.Native.Char.{code}
use Prim.Native.String.{String}
use os_tp.Base.{
  ℕ, zero, suc, ◌+◌, ◌-◌, ◌*◌, ◌/◌, ◌%◌, Bool, true, false, ◌&&◌, List, [], ◌∷◌, ◌++◌, Bytes, ℤ,
  pos, negsuc, sub_ℕ, pos_part, neg_part, leb, ltb, ◌==◌, if◌then◌else◌,
}

-- The bytes of a text in ASCII.
abbrev pub codes : String → Bytes
codes String.[] = []
codes (String.◌∷◌ c s) = code c ∷ codes s

-- `number / 10`, which C rounds towards zero.
abbrev pub div_ten : ℤ → ℤ
div_ten (pos n) = pos (n / 10)
div_ten (negsuc n) = sub_ℕ 0 (suc n / 10)

abbrev is_zero : ℤ → Bool
is_zero (pos n) = n == 0
is_zero (negsuc n) = false

-- `while(number != 0) { number /= 10; i++; }`, with the rounds that it may run.
unfoldable pub digits_loop : ℕ → ℤ → ℕ → ℕ
digits_loop zero number i = i
digits_loop (suc rounds) number i =
    let rest = digits_loop rounds (div_ten number) (suc i) in if is_zero number then i else rest

-- A number has fewer digits than its size, so the rounds are enough.
unfoldable pub count_digits : ℤ → ℕ
count_digits number =
    digits_loop (suc (pos_part number + neg_part number)) number
      (if leb (pos_part number) 0 then 1 else 0)

-- The decimal digits of a number; the rounds are enough in the same way.
unfoldable pub digits_from : ℕ → ℕ → Bytes
digits_from zero n = []
digits_from (suc rounds) n =
    let more = digits_from rounds (n / 10) ++ (b'0' + n % 10) ∷ [] in
    if ltb n 10 then (b'0' + n) ∷ [] else more

unfoldable pub print_nat : ℕ → Bytes
print_nat n = digits_from (suc n) n

-- `%i`.
unfoldable pub print_int : ℤ → Bytes
print_int (pos n) = print_nat n
print_int (negsuc n) = b'-' ∷ print_nat (suc n)

abbrev pub is_digit : ℕ → Bool
is_digit c = leb b'0' c && leb c b'9'

-- The digits at the front of a text, with the value of those before them.
unfoldable pub read_digits : ℕ → Bytes → ℕ
read_digits value [] = value
read_digits value (c ∷ s) =
    let rest = read_digits (value * 10 + (c - b'0')) s in if is_digit c then rest else value

-- `strtol(s, NULL, 10)` of a text that begins with its sign or its digits, and whose value a `long`
-- holds.
unfoldable pub strtol : Bytes → ℤ
strtol [] = pos 0
strtol (c ∷ s) = if c == b'-' then sub_ℕ 0 (read_digits 0 s) else pos (read_digits 0 (c ∷ s))
