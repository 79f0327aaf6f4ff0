-- ===== src/Descriptors/Write.antt =====
-- What `ensureWrite` of common/lib.c gives, over descriptors that keep to what POSIX documents.
use os_tp.Base.{
  ℕ, zero, suc, ◌+◌, ◌-◌, ◌≤◌, ◌<◌, ◌≡◌, ◌≢◌, refl, sym, ap, ◌∙◌, true, some, [], ◌∷◌, ◌++◌,
  append-nil, append_assoc, arith, Bytes, length, take, drop, length-drop, take-append-drop, ok,
  ltb, lt→ltb, ltb→lt, Bool-cases, inl, inr, subst, ◌^◌, int_count_lem,
}
use os_tp.Descriptors.{Posix, write_loop, ensure_write}
use os_tp.Descriptors.Streams.{Sink}

drop-nil : (n : ℕ) → drop {A = ℕ} n [] ≡ []
drop-nil zero = refl
drop-nil (suc n) = refl

drop-add : (a b : ℕ) (s : Bytes) → drop (a + b) s ≡ drop b (drop a s)
drop-add zero b s = rw zero_add
  where
    zero_add : 0 + b ≡ b
    zero_add = omega arith
drop-add (suc a) b [] = drop-nil (suc a + b) ∙ sym (drop-nil b)
drop-add (suc a) b (x ∷ s) = rw suc_add (drop-add a b s)
  where
    suc_add : suc a + b ≡ suc (a + b)
    suc_add = omega arith

drop_all : (n : ℕ) (s : Bytes) → length s ≤ n → drop n s ≡ []
drop_all n [] h = drop-nil n
drop_all zero (x ∷ s) h = absurd (omega arith)
drop_all (suc n) (x ∷ s) h = drop_all n s (omega arith)

-- What one write takes, and what is left to write, are what was to be written.
take-drop-add :
    (count written : ℕ) (s src : Bytes)
    → (s ++ take count (drop written src)) ++ drop (written + count) src ≡ s ++ drop written src
take-drop-add count written s src =
    append_assoc s _ _
    ∙ ap (◌++◌ s) (
        ap (◌++◌ (take count (drop written src))) (drop-add written count src)
        ∙ take-append-drop count (drop written src))

drop-ne-nil : (n : ℕ) (s : Bytes) → n < length s → drop n s ≢ []
drop-ne-nil n s h e = omega (arith, length-drop n s, ap length e)

write_loop-step :
    (P : Posix) (rounds fd : ℕ) (src : Bytes) (written count : ℕ) (w w' : P.World)
    → written < length src
    → length src < 2 ^ 31
    → P.write fd (drop written src) w ≡ (some count, w')
    → write_loop P (suc rounds) fd src written w ≡ write_loop P rounds fd src (written + count) w'
unfolding write_loop
write_loop-step P rounds fd src written count w w' h small ran =
    rw (int_count_lem written (omega arith), lt→ltb written (length src) h, ran)

module _ (P : Posix) (sink : Sink P) where
  open P use {World, write}
  open sink use {Wrote, accepts}

  write_loop-accepts :
      (rounds fd : ℕ) (src : Bytes) (written : ℕ) (s : Bytes) (w : World)
      → written ≤ length src
      → length src < 2 ^ 31
      → length src - written < rounds
      → Wrote w fd s
      → (w' : World) × (write_loop P rounds fd src written w ≡ ok (true, w'))
        × Wrote w' fd (s ++ drop written src)
  unfolding write_loop
  write_loop-accepts zero fd src written s w within small room h = absurd (omega arith)
  write_loop-accepts (suc rounds) fd src written s w within small room h =
      elim (Bool-cases (ltb written (length src))) [
        | inr over ↦ (
          w,
          rw (int_count_lem written (omega arith), over),
          subst (λ t. Wrote w fd t)
              (sym (ap (◌++◌ s) (drop_all written src (ground arith)) ∙ append-nil s)) h,
        )
        | inl more ↦
            let (count, w1, ran, some_written, bounded, h1) =
              accepts w fd s (drop written src) h (drop-ne-nil written src (ltb→lt _ _ more)) in
            let (w', loop, h') =
              write_loop-accepts rounds fd src (written + count)
                (s ++ take count (drop written src)) w1
                (omega (arith, length-drop written src, ltb→lt _ _ more)) small
                (omega (arith, length-drop written src, ltb→lt _ _ more)) h1 in
            (
              w',
              write_loop-step P rounds fd src written count w w1 (ltb→lt _ _ more) small ran ∙ loop,
              subst (λ t. Wrote w' fd t) (take-drop-add count written s src) h',
            )
      ]

  -- Over a pipe that takes bytes, `ensureWrite` returns 1 with the whole of `src`, each byte once and
  -- in order, behind what was written before, however few bytes the system takes at a time, for fewer
  -- than 2 ^ 31 bytes; one
  -- round for each byte and one more are enough.
  pub ensure_write-accepts :
      (rounds fd : ℕ) (src s : Bytes) (w : World)
      → length src < rounds
      → length src < 2 ^ 31
      → Wrote w fd s
      → (w' : World) × (ensure_write P rounds src fd w ≡ ok (true, w')) × Wrote w' fd (s ++ src)
  unfolding ensure_write
  ensure_write-accepts rounds fd [] s w room small h = (w, refl, rw append-nil h)
  ensure_write-accepts rounds fd (x ∷ src) s w room small h =
      let (w', ran, h') =
        write_loop-accepts rounds fd (x ∷ src) 0 s w (omega arith) small (omega arith) h in
      (w', ground (arith, ran), h')
