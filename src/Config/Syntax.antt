-- ===== src/Config/Syntax.antt =====
-- The lines of the configuration file, as common/config.c tells them apart: isParam, isSectionTag,
-- getParam and getValue.
use os_tp.Base.{
  ℕ, suc, Bool, true, false, ◌||◌, not, [], ◌∷◌, Bytes, Outcome, ok, fault, ◌>>=◌, ◌==◌,
  if◌then◌else◌,
}
use os_tp.Memory.{read_block}
use os_tp.Decimal.{is_digit}
use os_tp.Regex.{Regex, class, seq, star, byte, letter, matches}

-- `!strcmp(a, b)`.
unfoldable pub same_text : Bytes → Bytes → Outcome Bool
same_text [] t = fault
same_text (a ∷ s) [] = fault
same_text (a ∷ s) (b ∷ t) =
    let rest = same_text s t in if not (a == b) then ok false else if a == 0 then ok true else rest

-- "^[a-zA-Z][a-zA-Z0-9 ]*=[^\n\t=]*$"
unfoldable pub param_regex : Regex
param_regex = seq (class letter) (
    seq (star (class (λ c. letter c || is_digit c || c == b' ')))
      (seq (byte b'=') (star (class (λ c. not (c == 10 || c == 9 || c == b'='))))))

-- "^\\[[a-zA-Z][a-zA-Z0-9]*\\]$"
unfoldable pub section_regex : Regex
section_regex =
    seq (byte b'[')
      (seq (class letter) (seq (star (class (λ c. letter c || is_digit c))) (byte b']')))

unfoldable pub is_param : Bytes → Bool
is_param text = matches param_regex text

unfoldable pub is_section_tag : Bytes → Bool
is_section_tag text = matches section_regex text

-- `while(line[i] != '=') i++;`
unfoldable pub find_equals : Bytes → Outcome ℕ
find_equals [] = fault
find_equals (c ∷ s) =
    let rest = find_equals s in if c == b'=' then ok 0 else (do i ← rest; ok (suc i))

-- The i bytes of the name, in a block of i bytes.
unfoldable pub get_param : Bytes → Outcome Bytes
get_param line = do i ← find_equals line; b ← read_block i line; ok b.0

-- The string behind the sign.
unfoldable pub get_value : Bytes → Outcome Bytes
get_value line = do i ← find_equals line; b ← read_block (suc i) line; ok b.1
