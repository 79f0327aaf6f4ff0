-- ===== src/Descriptors/Read.antt =====
-- What `ensureRead` of common/lib.c gives, over descriptors that keep to what POSIX documents.
use os_tp.Base.{
  ℕ, zero, suc, ◌+◌, ◌-◌, ◌≤◌, ◌<◌, ◌≡◌, refl, sym, ap, ◌∙◌, true, false, none, some, [], ◌∷◌, ◌++◌,
  append-nil, append_assoc, arith, Bytes, length, length-append, ok, blocked, lt→ltb, le→ltb, ◌^◌,
  int_count_lem,
}
use os_tp.Descriptors.{Posix, read_loop, ensure_read}
use os_tp.Descriptors.Streams.{Stream}

-- A prefix that is no longer than another prefix of the same bytes is a prefix of it.
append_split :
    (s rest chunk others : Bytes)
    → s ++ rest ≡ chunk ++ others
    → length chunk ≤ length s
    → (t : Bytes) × (s ≡ chunk ++ t) × (others ≡ t ++ rest)
append_split s rest [] others e h = (s, refl, sym e)
append_split [] rest (c ∷ chunk) others e h = absurd (omega arith)
append_split (x ∷ s) rest (c ∷ chunk) others e h =
    let (t, p, q) = append_split s rest chunk others (cc) (omega arith) in (t, cc, q)

read_loop-step :
    (P : Posix) (rounds fd bytes : ℕ) (got chunk : Bytes) (w w' : P.World)
    → length got < bytes
    → length got < 2 ^ 31
    → P.read fd (bytes - length got) w ≡ (some chunk, w')
    → read_loop P (suc rounds) fd bytes got w ≡ read_loop P rounds fd bytes (got ++ chunk) w'
unfolding read_loop
read_loop-step P rounds fd bytes got chunk w w' h small ran =
    rw (int_count_lem (length got) small, lt→ltb (length got) bytes h, ran)

module _ (P : Posix) (stream : Stream P) where
  open P use {World, read}
  open stream use {Holds, delivers}

  read_loop-delivers :
      (rounds fd bytes : ℕ) (got s rest : Bytes) (w : World)
      → length got + length s ≡ bytes
      → bytes < 2 ^ 31
      → length s < rounds
      → Holds w fd (s ++ rest)
      → (w' : World) × (read_loop P rounds fd bytes got w ≡ ok ((true, got ++ s), w'))
        × Holds w' fd rest
  unfolding read_loop
  read_loop-delivers zero fd bytes got s rest w total small room h = absurd (omega arith)
  read_loop-delivers (suc rounds) fd bytes got [] rest w total small room h = (
    w,
    rw (
      int_count_lem (length got) (omega arith),
      le→ltb (length got) bytes (omega arith),
      append-nil got,
    ),
    h,
  )
  read_loop-delivers (suc rounds) fd bytes got (x ∷ s) rest w total small room h =
      let (chunk, others, w1, ran, splits, some_read, bounded, h1) =
        delivers w fd (bytes - length got) (x ∷ s ++ rest) h (omega arith) (λ e. cc) in
      let (t, mine, theirs) = append_split (x ∷ s) rest chunk others splits (omega arith) in
      let (w', loop, h') =
        read_loop-delivers rounds fd bytes (got ++ chunk) t rest w1
          (omega (arith, length-append got chunk, ap length mine, length-append chunk t)) small
          (omega (arith, ap length mine, length-append chunk t)) (rw theirs at h1) in
      (
        w',
        read_loop-step P rounds fd bytes got chunk w w1 (omega arith) (omega arith) ran
            ∙ loop
            ∙ ap (λ b. ok ((true, b), w')) (append_assoc got chunk t ∙ ap (◌++◌ got) (sym mine)),
        h',
      )

  -- Over a pipe that holds `s` in front of `rest`, asked for as many bytes as `s` has, `ensureRead`
  -- returns 1 with exactly `s` in its destination and `rest` still in the pipe, however the system
  -- cuts `s` into pieces, for fewer than 2 ^ 31 bytes; one round for each byte and one more are enough.
  pub ensure_read-delivers :
      (rounds fd : ℕ) (s rest : Bytes) (w : World)
      → length s < rounds
      → length s < 2 ^ 31
      → Holds w fd (s ++ rest)
      → (w' : World) × (ensure_read P rounds (length s) fd w ≡ ok ((true, s), w'))
        × Holds w' fd rest
  unfolding ensure_read
  ensure_read-delivers rounds fd [] rest w room small h = (w, refl, h)
  ensure_read-delivers rounds fd (x ∷ s) rest w room small h =
      let (w', ran, h') =
        read_loop-delivers rounds fd (suc (length s)) [] (x ∷ s) rest w (omega arith) small room
          h in
      (w', ground (arith, ran), h')

read_loop_spins :
    (P : Posix) (rounds bytes fd : ℕ) (w : P.World)
    → 0 < bytes
    → ((n : ℕ) → P.read fd n w ≡ (some [], w))
    → read_loop P rounds fd bytes [] w ≡ blocked
unfolding read_loop
read_loop_spins P zero bytes fd w some_bytes ended = refl
read_loop_spins P (suc rounds) bytes fd w some_bytes ended =
    rw (int_count_lem 0 (omega arith), lt→ltb 0 bytes some_bytes, ended (bytes - 0))
      (read_loop_spins P rounds bytes fd w some_bytes ended)

-- A read that gives no bytes, as at the end of a file, is made again: as long as the descriptor
-- stays at its end, `ensureRead` of one byte or more is still running after any number of rounds.
pub ensure_read_end_of_file :
    (P : Posix) (rounds bytes fd : ℕ) (w : P.World)
    → 0 < bytes
    → ((n : ℕ) → P.read fd n w ≡ (some [], w))
    → ensure_read P rounds bytes fd w ≡ blocked
unfolding ensure_read
ensure_read_end_of_file P rounds (suc bytes) fd w some_bytes ended =
    ground (arith, read_loop_spins P rounds (suc bytes) fd w some_bytes ended)
ensure_read_end_of_file P rounds zero fd w some_bytes ended = elim some_bytes [ ]

-- A read that fails before all bytes have come makes `ensureRead` return 0.
pub read_loop_fails :
    (P : Posix) (rounds fd bytes : ℕ) (got : Bytes) (w w' : P.World)
    → length got < bytes
    → length got < 2 ^ 31
    → P.read fd (bytes - length got) w ≡ (none, w')
    → read_loop P (suc rounds) fd bytes got w ≡ ok ((false, got), w')
unfolding read_loop
read_loop_fails P rounds fd bytes got w w' h small ran =
    rw (int_count_lem (length got) small, lt→ltb (length got) bytes h, ran)
