-- ===== src/Config/Lines.antt =====
-- `readLine` and `leadingTrim` of common/config.c.
use os_tp.Base.{
  ℕ, suc, ◌+◌, ◌-◌, ◌%◌, Bool, true, false, ◌||◌, [], ◌∷◌, Bytes, drop, Outcome, ok, fault, ◌>>=◌,
  ltb, ◌==◌, if◌then◌else◌,
}
use os_tp.Memory.{strlen, read_block}

-- What is left of an open file, and whether a read has met its end (`feof`).
pub record File : Type 0 where
  pub content : Bytes
  pub at_end : Bool

abbrev pub block : ℕ
block = 32

-- `resize(&string, BLOCK + i)` where i is a multiple of BLOCK: the size of the buffer then.
abbrev pub grow : ℕ → ℕ → ℕ
grow i size = if i % block == 0 then block + i else size

-- A byte that ends a line: a line feed, or the byte 255, which a `char` cannot tell from EOF.
abbrev pub ends_line : ℕ → Bool
ends_line c = c == 10 || c == 255

-- The loop of `readLine` from the i-th byte on, in a buffer of `size` bytes: the bytes that it
-- writes, and the file then.
unfoldable pub read_loop : Bytes → ℕ → ℕ → Outcome (Bytes × File)
read_loop [] i size =
    if ltb i (grow i size) then ok (0 ∷ [], record { content = []; at_end = true }) else fault
read_loop (c ∷ s) i size =
    let next = read_loop s (suc i) (grow i size) in
    if ltb i (grow i size)
    then (if ends_line c
        then ok (0 ∷ [], record { content = s; at_end = false })
        else (do r ← next; ok (c ∷ r.0, r.1)))
    else fault

abbrev pub is_blank : ℕ → Bool
is_blank c = c == b' ' || c == 9

-- `while (str[j] != 0 && (str[j] == ' ' || str[j] == '\t')) j++;`
unfoldable pub count_blanks : Bytes → Outcome ℕ
count_blanks [] = fault
count_blanks (c ∷ s) =
    let rest = count_blanks s in if is_blank c then (do j ← rest; ok (suc j)) else ok 0

unfoldable pub leading_trim : Bytes → Outcome Bytes
unfolding count_blanks
leading_trim str = do
  i ← strlen str
  j ← count_blanks str
  b ← read_block (i - j + 1) (drop j str)
  ok b.0

-- The first line of a file, without the blanks at its start.
unfoldable pub read_line : File → Outcome (Bytes × File)
unfolding read_loop
read_line fp = do r ← read_loop fp.content 0 0; line ← leading_trim r.0; ok (line, r.1)
