-- ===== src/Tests/Descriptors.antt =====
-- `ensureRead` and `ensureWrite` of common/lib.c over a pipe that moves one byte at a time.
use os_tp.Base.{
  ℕ, zero, suc, ◌≤◌, ◌<◌, ◌≡◌, ◌≢◌, refl, true, Option, some, [], ◌∷◌, ◌++◌, arith, Bytes, length,
  take, ok, int_count, of_word,
}
use os_tp.Descriptors.{Posix, read_loop, ensure_read, write_loop, ensure_write}
use os_tp.Descriptors.Streams.{Stream, Sink}
use os_tp.Descriptors.Read.{ensure_read-delivers}
use os_tp.Descriptors.Write.{ensure_write-accepts}

-- The world is what the pipe holds: the reads of a process that only reads, or the writes of one
-- that only writes.
abbrev pub trickle_read : ℕ → ℕ → Bytes → Option Bytes × Bytes
trickle_read fd n [] = (some [], [])
trickle_read fd zero (b ∷ s) = (some [], b ∷ s)
trickle_read fd (suc n) (b ∷ s) = (some (b ∷ []), s)

abbrev pub trickle_write : ℕ → Bytes → Bytes → Option ℕ × Bytes
trickle_write fd [] s = (some 0, s)
trickle_write fd (b ∷ d) s = (some 1, s ++ b ∷ [])

abbrev pub trickle : Posix
trickle = record { World = Bytes; read = trickle_read; write = trickle_write }

pub trickle_delivers :
    (w : Bytes) (fd n : ℕ) (s : Bytes)
    → w ≡ s
    → 0 < n
    → s ≢ []
    → (chunk : Bytes) × (rest : Bytes) × (w' : Bytes) × (trickle_read fd n w ≡ (some chunk, w'))
      × (s ≡ chunk ++ rest)
      × (0 < length chunk)
      × (length chunk ≤ n)
      × (w' ≡ rest)
trickle_delivers [] fd n s e h ne = absurd (ne cc)
trickle_delivers (b ∷ w) fd zero s e h ne = elim h [ ]
trickle_delivers (b ∷ w) fd (suc n) s e h ne =
    (b ∷ [], w, w, refl, cc, omega arith, omega arith, refl)

pub trickle_accepts :
    (w : Bytes) (fd : ℕ) (s src : Bytes)
    → w ≡ s
    → src ≢ []
    → (count : ℕ) × (w' : Bytes) × (trickle_write fd src w ≡ (some count, w'))
      × (0 < count)
      × (count ≤ length src)
      × (w' ≡ s ++ take count src)
trickle_accepts w fd s [] e ne = absurd (ne refl)
trickle_accepts w fd s (b ∷ src) e ne = (1, w ++ b ∷ [], refl, omega arith, omega arith, rw e refl)

abbrev pub trickle_stream : Stream trickle
trickle_stream = record { Holds = λ w fd s. w ≡ s; delivers = trickle_delivers }

abbrev pub trickle_sink : Sink trickle
trickle_sink = record { Wrote = λ w fd s. w ≡ s; accepts = trickle_accepts }

reads_three : ensure_read trickle 4 3 0 (7 ∷ 8 ∷ 9 ∷ 10 ∷ []) ≡ ok ((true, 7 ∷ 8 ∷ 9 ∷ []), 10 ∷ [])
unfolding ensure_read read_loop int_count of_word
reads_three = refl

writes_two : ensure_write trickle 3 (7 ∷ 8 ∷ []) 0 (1 ∷ []) ≡ ok (true, 1 ∷ 7 ∷ 8 ∷ [])
unfolding ensure_write write_loop int_count of_word
writes_two = refl

ensure_read-delivers_example :
    (w' : Bytes) × (ensure_read trickle 4 3 0 (7 ∷ 8 ∷ 9 ∷ 10 ∷ [])
      ≡ ok ((true, 7 ∷ 8 ∷ 9 ∷ []), w'))
    × (w' ≡ 10 ∷ [])
ensure_read-delivers_example =
    ensure_read-delivers trickle trickle_stream 4 0 (7 ∷ 8 ∷ 9 ∷ []) (10 ∷ []) (7 ∷ 8 ∷ 9 ∷ 10 ∷ [])
      (omega arith) (omega arith) refl

ensure_write-accepts_example :
    (w' : Bytes) × (ensure_write trickle 3 (7 ∷ 8 ∷ []) 0 (1 ∷ []) ≡ ok (true, w'))
    × (w' ≡ 1 ∷ 7 ∷ 8 ∷ [])
ensure_write-accepts_example =
    ensure_write-accepts trickle trickle_sink 3 0 (7 ∷ 8 ∷ []) (1 ∷ []) (1 ∷ []) (omega arith)
      (omega arith) refl
