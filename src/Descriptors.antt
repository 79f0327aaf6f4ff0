-- ===== src/Descriptors.antt =====
-- common/lib.c: `ensureRead` and `ensureWrite`, over a descriptor's `read` and `write`.
-- A loop takes the rounds that it may run; `blocked` says that it is still running after them.
pub mod Streams
pub mod Read
pub mod Write
pub mod Channel
pub mod Select
use os_tp.Base.{
  ℕ, zero, suc, ◌+◌, ◌-◌, Bool, true, false, Option, none, some, List, [], ◌∷◌, ◌++◌, Bytes, length,
  drop, Outcome, ok, blocked, ltb, ◌==◌, int_count, if◌then◌else◌,
}

-- The system calls. `read fd n` gives the bytes that it stored (none of them at the end of the
-- file), `write fd data` how many bytes it took; `none` is the result -1.
pub record Posix : Type 1 where
  pub World : Type 0
  pub read : ℕ → ℕ → World → Option Bytes × World
  pub write : ℕ → Bytes → World → Option ℕ × World

module _ (P : Posix) where
  open P use {World, read, write}

  -- What follows one call of `read`: -1 ends the loop, and else the bytes are int_count.
  abbrev after_read :
      Option Bytes × World
      → Bytes
      → (Bytes → World → Outcome ((Bool × Bytes) × World))
      → Outcome ((Bool × Bytes) × World)
  after_read (none, w) got loop = ok ((false, got), w)
  after_read (some chunk, w) got loop = loop (got ++ chunk) w

  -- `got` is what `dest` holds so far; `readBytes` is an `int` that counts it. No call of `read` or
  -- `write` moves as many as 2 ^ 31 bytes, so a counter that has wrapped around is negative then, and
  -- ends its loop.
  unfoldable pub read_loop : ℕ → ℕ → ℕ → Bytes → World → Outcome ((Bool × Bytes) × World)
  read_loop zero fd bytes got w = blocked
  read_loop (suc rounds) fd bytes got w =
      let next =
        after_read (read fd (bytes - int_count (length got)) w) got (read_loop rounds fd bytes) in
      if ltb (int_count (length got)) bytes then next else ok ((true, got), w)

  -- The flag is what the function returns, and the bytes are what it left in `dest`.
  unfoldable pub ensure_read : ℕ → ℕ → ℕ → World → Outcome ((Bool × Bytes) × World)
  ensure_read rounds bytes fd w =
      if bytes == 0 then ok ((true, []), w) else read_loop rounds fd bytes [] w

  abbrev after_write :
      Option ℕ × World → ℕ → (ℕ → World → Outcome (Bool × World)) → Outcome (Bool × World)
  after_write (none, w) written loop = ok (false, w)
  after_write (some count, w) written loop = loop (written + count) w

  -- `writtenBytes` is what an `int` counts of `written`.
  unfoldable pub write_loop : ℕ → ℕ → Bytes → ℕ → World → Outcome (Bool × World)
  write_loop zero fd src written w = blocked
  write_loop (suc rounds) fd src written w =
      let next =
        after_write (write fd (drop (int_count written) src) w) written
          (write_loop rounds fd src) in
      if ltb (int_count written) (length src) then next else ok (true, w)

  unfoldable pub ensure_write : ℕ → Bytes → ℕ → World → Outcome (Bool × World)
  ensure_write rounds src fd w =
      if length src == 0 then ok (true, w) else write_loop rounds fd src 0 w
