-- ===== src/Client/Dummy.antt =====
-- client/dummyClient.c: a client that connects, waits and leaves. What it prints is left out.
use os_tp.Base.{ℕ, ◌+◌, ◌*◌, ◌/◌, ◌^◌, Bool, Option, none, some, ℤ, pos, negsuc}
use os_tp.Io.{Io, ◌>>=◌, pure}
use os_tp.Encoding.{int_bytes}
use os_tp.Descriptors.{Posix}
use os_tp.Comm.{conn_send, message_close}
use os_tp.Client.{Link}

-- `(int)(rand() / ((double)RAND_MAX + 1) * (max - min + 1) + min)` of a number below 2^31: a `double`
-- holds each of these values exactly, so that only the conversion rounds.
unfoldable pub wait_sec : ℕ → ℕ
wait_sec random = random * 10 / 2 ^ 31 + 1

-- What is left of main once the connection is open, and its exit code.
module _ (P : Posix) (rounds : ℕ) (sleep : ℕ → P.World → P.World) where
  open P use {World}

  unfoldable pub sleep_and_leave : ℕ → Link World → Io World ℤ
  unfolding wait_sec
  sleep_and_leave random c = do
    slept ← pause
    sent ← conn_send P rounds c.out_fd (int_bytes message_close)
    closed ← c.conn_close
    pure (pos 0)
    where
      pause : Io World (Unit {0})
      pause w = os_tp.Base.ok (tt, sleep (wait_sec random) w)

  unfoldable pub dummy_client : Io World (Option (Link World)) → ℕ → Io World ℤ
  unfolding sleep_and_leave
  dummy_client conn_open random = do
    opened ← conn_open
    elim opened [ none ↦ pure (negsuc 0) | some c ↦ sleep_and_leave random c ]
