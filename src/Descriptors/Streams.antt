-- ===== src/Descriptors/Streams.antt =====
-- What POSIX documents of the descriptors of pipes and stream sockets, as named hypotheses on the
-- system calls.
use os_tp.Base.{ℕ, ◌≤◌, ◌<◌, ◌≡◌, ◌≢◌, some, [], ◌++◌, Bytes, length, take}
use os_tp.Descriptors.{Posix}

-- Reads from a descriptor of a pipe or of a stream socket: while bytes are on their way, a read
-- gives between one and as many as asked for, in order, and does not fail.
pub record Stream (P : Posix) : Type 1 where
  pub Holds : P.World → ℕ → Bytes → Type 0
  pub delivers :
      (w : P.World) (fd n : ℕ) (s : Bytes)
      → Holds w fd s
      → 0 < n
      → s ≢ []
      → (chunk : Bytes) × (rest : Bytes) × (w' : P.World) × (P.read fd n w ≡ (some chunk, w'))
        × (s ≡ chunk ++ rest)
        × (0 < length chunk)
        × (length chunk ≤ n)
        × Holds w' fd rest

-- Writes: one takes between one byte and all, and what it takes is behind what was written.
pub record Sink (P : Posix) : Type 1 where
  pub Wrote : P.World → ℕ → Bytes → Type 0
  pub accepts :
      (w : P.World) (fd : ℕ) (s data' : Bytes)
      → Wrote w fd s
      → data' ≢ []
      → (count : ℕ) × (w' : P.World) × (P.write fd data' w ≡ (some count, w'))
        × (0 < count)
        × (count ≤ length data')
        × Wrote w' fd (s ++ take count data')
