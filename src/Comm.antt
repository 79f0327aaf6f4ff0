-- ===== src/Comm.antt =====
-- common/commWithSockets.c and common/commWithFIFOs.c: messages over a connection. A message goes as
-- its length, in a `size_t`, and its bytes.
pub mod Frames
use os_tp.Base.{
  ℕ, Bool, true, false, not, Option, none, some, Bytes, length, Outcome, ◌==◌, if◌then◌else◌, ℤ,
  pos, fault, ok,
}
use os_tp.Io.{Io, ◌>>=◌, pure}
use os_tp.Encoding.{size_bytes, of_bytes}
use os_tp.Descriptors.{Posix, ensure_read, ensure_write}

-- What `conn_receive` returns, and what `*data` then points to: none if it was not set, or was
-- freed.
pub record Received : Type 0 where
  pub success : Bool
  pub content : Option Bytes

-- Which of the two files the build takes.
pub data Transport : Type 0 where
  sockets fifos : Transport

abbrev pub failed : Received
failed = record { success = false; content = none }

-- The message that `conn_receive` stores, used without a look at its result: a fault if it did not
-- come whole.
unfoldable pub used : Received → Outcome Bytes
used r = if r.success then elim r.content [ none ↦ fault | some message ↦ ok message ] else fault

abbrev pub message_close : ℤ
message_close = pos 2

module _ (P : Posix) (rounds : ℕ) where
  open P use {World}

  unfoldable pub conn_send : ℕ → Bytes → Io World Bool
  conn_send out_fd message = if length message == 0 then pure true else do
    sent ← ensure_write P rounds (size_bytes (length message)) out_fd
    if sent then ensure_write P rounds message out_fd else pure false

  -- Over sockets.
  unfoldable pub socket_receive : ℕ → Io World Received
  socket_receive in_fd = do
    size ← ensure_read P rounds 8 in_fd
    if not size.0 then pure failed else do
      message ← ensure_read P rounds (of_bytes size.1) in_fd
      pure (record { success = message.0; content = some message.1 })

  -- Over FIFOs: a message that could not be read whole is freed.
  unfoldable pub fifo_receive : ℕ → Io World Received
  fifo_receive in_fd = do
    size ← ensure_read P rounds 8 in_fd
    if not size.0 then pure failed else do
      message ← ensure_read P rounds (of_bytes size.1) in_fd
      if not message.0
          then pure failed
          else pure (record { success = true; content = some message.1 })

  unfoldable pub conn_receive : Transport → ℕ → Io World Received
  unfolding socket_receive fifo_receive
  conn_receive sockets in_fd = socket_receive in_fd
  conn_receive fifos in_fd = fifo_receive in_fd
