-- ===== src/Strings.antt =====
-- Terminated strings that fill their blocks, as the program allocates them.
use os_tp.Base.{
  suc, ◌^◌, ◌<◌, ◌≡◌, sym, ap, ◌∙◌, [], ◌∷◌, ◌++◌, append-nil, arith, Bytes, length, length-append,
  ok, pos, IsInt,
}
use os_tp.Memory.{strlen, read_block}
use os_tp.Memory.Laws.{IsText, strlen-append, read_block-append}

-- A block that holds one string and its terminator, and that an `int` can measure.
pub record IsString (b : Bytes) : Type 0 where
  pub text : Bytes
  pub is_text : IsText text
  pub whole : b ≡ text ++ 0 ∷ []
  pub fits : suc (length text) < 2 ^ 31

pub length-string : {b : Bytes} (s : IsString b) → length b ≡ suc (length s.text)
length-string s = omega (arith, ap length s.whole, length-append s.text (0 ∷ []))

pub strlen-string : {b : Bytes} (s : IsString b) → strlen b ≡ ok (length s.text)
strlen-string {b} s = rw s.whole (strlen-append s.text [] s.is_text)

pub read_block-string :
    {b : Bytes} (s : IsString b) → read_block (suc (length s.text)) b ≡ ok (b, [])
read_block-string {b} s =
    rw (← length-string s)
      (ap (read_block (length b)) (sym (append-nil b)) ∙ read_block-append b [])

pub IsInt-length : {b : Bytes} → IsString b → IsInt (pos (length b))
IsInt-length s = omega (arith, length-string s, s.fits)
