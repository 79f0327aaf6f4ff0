-- ===== src/Config/Reading.antt =====
-- The routines of common/config.c that read a line, on strings that are terminated.
use os_tp.Base.{
  ℕ, suc, ◌+◌, ◌-◌, ◌%◌, ◌≤◌, ◌≡◌, ◌≢◌, refl, sym, ap, ◌∙◌, inl, inr, true, [], ◌∷◌, ◌++◌,
  append_assoc, arith, Bytes, length, length-append, drop, ok, ◌>>=◌, ltb, ◌==◌, Bool-cases, lt→ltb,
}
use os_tp.Memory.{read_block}
use os_tp.Memory.Laws.{IsText, strlen-append, read_block-append}
use os_tp.Config.Lines.{
  File, grow, ends_line, is_blank, read_loop, count_blanks, leading_trim, read_line,
}
use os_tp.Config.Meaning.{equal, up_to_zero, trim, first_line, cleaned}
use os_tp.Config.Syntax.{same_text}

-- `readLine` reads the first line whatever its length: its buffer grows in time.
pub read_loop-first_line :
    (s : Bytes) (i size : ℕ)
    → (i % 32 ≢ 0 → size ≡ (i - i % 32) + 32)
    → read_loop s i size ≡ ok ((first_line s).0 ++ 0 ∷ [], (first_line s).1)
unfolding read_loop first_line
read_loop-first_line [] i size h = ground arith
read_loop-first_line (c ∷ s) i size h =
    let room : ltb i (grow i size) ≡ true = lt→ltb i (grow i size) (ground arith) in
    let grown : suc i % 32 ≢ 0 → grow i size ≡ (suc i - suc i % 32) + 32 = ground arith in
    elim (Bool-cases (ends_line c)) [
      | inl ends ↦ rw (room, ends) refl
      | inr goes ↦ rw (room, goes, read_loop-first_line s (suc i) (grow i size) grown) refl
    ]

pub up_to_zero-IsText : (s : Bytes) → IsText (up_to_zero s)
unfolding up_to_zero
up_to_zero-IsText [] = tt
up_to_zero-IsText (c ∷ s) = ground (arith, up_to_zero-IsText s)

pub trim-IsText : (s : Bytes) → IsText s → IsText (trim s)
unfolding trim
trim-IsText [] h = tt
trim-IsText (c ∷ s) h = ground (arith, trim-IsText s h.1)

up_to_zero-split : (s : Bytes) → (rest : Bytes) × (s ++ 0 ∷ [] ≡ up_to_zero s ++ 0 ∷ rest)
unfolding up_to_zero
up_to_zero-split [] = ([], refl)
up_to_zero-split (c ∷ s) = elim (Bool-cases (c == 0)) [
  | inl z ↦ rw z (s ++ 0 ∷ [], ap (λ x. x ∷ (s ++ 0 ∷ [])) (ground arith))
  | inr nz ↦ let (rest, e) = up_to_zero-split s in rw nz (rest, ap (◌∷◌ c) e)
]

count_blanks-trim :
    (s rest : Bytes)
    → IsText s
    → (j : ℕ) × (count_blanks (s ++ 0 ∷ rest) ≡ ok j)
      × (j ≤ length s)
      × (drop j (s ++ 0 ∷ rest) ≡ trim s ++ 0 ∷ rest)
      × (length s - j ≡ length (trim s))
unfolding count_blanks trim
count_blanks-trim [] rest h = (0, refl, omega arith, refl, refl)
count_blanks-trim (c ∷ s) rest h = elim (Bool-cases (is_blank c)) [
  | inl blank ↦
      let (j, e, le, d, k) = count_blanks-trim s rest h.1 in
      rw (blank, e) (suc j, refl, omega arith, d, omega arith)
  | inr other ↦ rw other (0, refl, omega arith, refl, omega arith)
]

pub leading_trim-append :
    (s rest : Bytes) → IsText s → leading_trim (s ++ 0 ∷ rest) ≡ ok (trim s ++ 0 ∷ [])
unfolding leading_trim
leading_trim-append s rest h =
    let (j, e, le, d, k) = count_blanks-trim s rest h in
    rw (strlen-append s rest h, e, d, k)
      (ap (λ r. r >>= (λ b. ok b.0))
        (ap (λ n. read_block n (trim s ++ 0 ∷ rest))
            (omega (arith, length-append (trim s) (0 ∷ [])))
          ∙ (ap (read_block (length (trim s ++ 0 ∷ []))) (sym (append_assoc (trim s) (0 ∷ []) rest))
              ∙ read_block-append (trim s ++ 0 ∷ []) rest)))

pub read_line_lem :
    (fp : File)
    → read_line fp ≡ ok (cleaned (first_line fp.content).0 ++ 0 ∷ [], (first_line fp.content).1)
unfolding read_line
read_line_lem fp =
    let (rest, e) = up_to_zero-split (first_line fp.content).0 in
    rw
      (
        read_loop-first_line fp.content 0 0 (λ h. absurd (h refl)),
        e,
        leading_trim-append (up_to_zero (first_line fp.content).0) rest
            (up_to_zero-IsText (first_line fp.content).0),
      )
      refl

pub same_text-equal :
    (s t p q : Bytes) → IsText s → IsText t → same_text (s ++ 0 ∷ p) (t ++ 0 ∷ q) ≡ ok (equal s t)
unfolding same_text
same_text-equal [] [] p q h k = refl
same_text-equal [] (d ∷ t) p q h k = ground arith
same_text-equal (c ∷ s) [] p q h k = ground arith
same_text-equal (c ∷ s) (d ∷ t) p q h k = ground (arith, same_text-equal s t p q h.1 k.1)
