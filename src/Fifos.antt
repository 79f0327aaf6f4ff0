-- ===== src/Fifos.antt =====
-- common/commWithFIFOs.c: opening, accepting and closing connections over FIFOs. A descriptor is an
-- `int`; -1 is the number that an unsigned int has for it.
pub mod Handshake
use os_tp.Base.{
  ℕ, suc, ◌+◌, Bool, true, false, not, ◌||◌, Option, none, some, [], ◌∷◌, ◌++◌, Bytes, length,
  Outcome, ok, fault, ℤ, pos, negsuc, eq_ℤ, ◌==◌, if◌then◌else◌,
}
use os_tp.Io.{Io, ◌>>=◌, ◌>>◌, pure, lift}
use os_tp.Memory.{malloc, memcpy, strlen, text_of}
use os_tp.Decimal.{codes, print_int, count_digits}
use os_tp.Encoding.{int_bytes, read_int, size_bytes, of_bytes}
use os_tp.Order.{deref}
use os_tp.Descriptors.{Posix, ensure_read, ensure_write}
use os_tp.Descriptors.Select.{Waiting, select_wrapper}
use os_tp.Comm.{conn_send, fifo_receive}
use os_tp.Database.Place.{message_ok}

abbrev pub minus_one : ℕ
minus_one = 4294967295

-- The system calls. `open_read` opens for reading, `open_write` for writing, each without waiting
-- for the other side where `_now` says so; `set_blocking` is the `fcntl` that takes O_NONBLOCK away.
-- A flag says that the call succeeded.
pub record Files (World : Type 0) : Type 0 where
  pub getpid : World → ℤ
  pub mkfifo : Bytes → World → Bool × World
  pub open_read_now : Bytes → World → ℕ × World
  pub open_write_now : Bytes → World → ℕ × World
  pub open_write : Bytes → World → ℕ × World
  pub set_blocking : ℕ → World → Bool × World
  pub lock : ℕ → World → Bool × World
  pub unlock : ℕ → World → Bool × World
  pub close : ℕ → World → World
  pub remove : Bytes → World → World
  pub select : Waiting → World → ℤ × World

pub record Connection : Type 0 where
  pub out_fifo_path : Bytes
  pub in_fifo_path : Bytes
  pub out_fd : ℕ
  pub in_fd : ℕ

pub record ConnectionParams : Type 0 where
  pub conn_requests_fd : ℕ

-- `sprintf(dest, ...)` of a text, at the start of a block of `size` bytes.
unfoldable pub print_in : (ℕ → ℕ) → ℕ → Bytes → Outcome Bytes
print_in junk size text = memcpy (malloc junk size) 0 (text ++ 0 ∷ [])

-- The path of one FIFO: the base, with an ending of n characters, in a block that fits them.
unfoldable pub fifo_path : (ℕ → ℕ) → Bytes → Bytes → Outcome Bytes
unfolding print_in
fifo_path junk base_path ending =
    os_tp.Base.◌>>=◌ (text_of base_path)
      (λ base. print_in junk (length base + length ending + 1) (base ++ ending))

-- The buffer on the stack and what `sprintf` prints into it.
unfoldable pub base_path : (ℕ → ℕ) → ℤ → Outcome Bytes
unfolding print_in
base_path junk pid = print_in junk (5 + count_digits pid + 1) (codes "/tmp/" ++ print_int pid)

module _ (P : Posix) (rounds : ℕ) where
  open P use {World}

  -- `ensureWrite` of the length of a path with its terminator, and of the path.
  unfoldable pub send_path : Bytes → ℕ → Io World Bool
  send_path path fd = do
    length ← lift (strlen path)
    sent ← ensure_write P rounds (size_bytes (length + 1)) fd
    if sent then ensure_write P rounds path fd else pure false

  -- One path of a request: its length, and its bytes.
  unfoldable pub receive_path : ℕ → Io World (Option Bytes)
  receive_path fd = do
    size ← ensure_read P rounds 8 fd
    if not size.0 then pure none else do
      path ← ensure_read P rounds (of_bytes size.1) fd
      pure (if path.0 then some path.1 else none)

module _ (P : Posix) (F : Files (P.World)) (rounds : ℕ) (junk : ℕ → ℕ) where
  open P use {World}

  abbrev pub call {ℓ} : {A : Type ℓ} → (World → A × World) → Io World A
  call f w = ok (f w)

  abbrev pub close_fd : ℕ → Io World Bool
  close_fd fd w = ok (true, F.close fd w)

  -- The paths out and in, or none for 0.
  unfoldable pub create_process_fifos : Bytes → Io World (Option (Bytes × Bytes))
  unfolding fifo_path
  create_process_fifos base_path = do
    out_path ← lift (fifo_path junk base_path (codes "-out"))
    made_out ← call (F.mkfifo out_path)
    if not made_out then pure none else do
      in_path ← lift (fifo_path junk base_path (codes "-in"))
      made_in ← call (F.mkfifo in_path)
      pure (if made_in then some (out_path, in_path) else none)

  unfoldable pub send_fifo_paths : Bytes → Bytes → Bytes → Io World Bool
  unfolding send_path
  send_fifo_paths out_path in_path main_server_fifo = do
    fd ← call (F.open_write_now main_server_fifo)
    if fd == minus_one then pure false else do
      blocking ← call (F.set_blocking fd)
      locked ← call (F.lock fd)
      if not locked then pure false else do
        sent_out ← send_path P rounds out_path fd
        if not sent_out then (do closed ← close_fd fd; pure false) else do
          sent_in ← send_path P rounds in_path fd
          if not sent_in
              then (do closed ← close_fd fd; pure false)
              else do unlocked ← call (F.unlock fd); closed ← close_fd fd; pure true

  -- Steps 3 to 6 of `conn_open`, once its FIFO for reading is open.
  unfoldable pub wait_for_ack : Bytes → Bytes → ℕ → Io World (Option Connection)
  wait_for_ack out_path in_path in_fd = do
    selected ← select_wrapper F.select (in_fd + 1) (some (in_fd ∷ [])) none none (pos 10) (pos 0)
    if eq_ℤ selected (negsuc 0) || eq_ℤ selected (pos 0) then pure none else do
      ack ← fifo_receive P rounds in_fd
      if not ack.success then pure none else do
        bytes ← lift (deref ack.content)
        code ← lift (read_int bytes)
        if eq_ℤ code.0 message_ok
            then (do
              out_fd ← call (F.open_write out_path)
              pure (
                  some (record {
                    out_fifo_path = out_path;
                    in_fifo_path = in_path;
                    out_fd = out_fd;
                    in_fd = in_fd;
                  })))
            else pure none

  unfoldable pub conn_open : Bytes → Io World (Option Connection)
  unfolding base_path create_process_fifos send_fifo_paths wait_for_ack
  conn_open address = do
    pid ← (λ w. ok (F.getpid w, w))
    buff ← lift (base_path junk pid)
    paths ← create_process_fifos buff
    elim paths [
      | none ↦ pure none
      | some (out_path, in_path) ↦ (do
        in_fd ← call (F.open_read_now in_path)
        blocking ← call (F.set_blocking in_fd)
        sent ← send_fifo_paths out_path in_path address
        if not sent then pure none else wait_for_ack out_path in_path in_fd)
    ]

  unfoldable pub conn_close : Connection → Io World Bool
  conn_close conn w = ok (
    true,
    F.remove conn.in_fifo_path
        (F.remove conn.out_fifo_path (F.close conn.in_fd (F.close conn.out_fd w))),
  )

  unfoldable pub conn_listen : Bytes → Io World (Option ConnectionParams)
  conn_listen listening_address = do
    made ← call (F.mkfifo listening_address)
    if not made then pure none else do
      fd ← call (F.open_read_now listening_address)
      blocking ← call (F.set_blocking fd)
      pure (if blocking then some (record { conn_requests_fd = fd }) else none)

  -- What follows the reading of the paths: the client's FIFO out is opened to read from.
  unfoldable pub open_accepted : Bytes → Bytes → Io World (Option Connection)
  open_accepted in_path out_path = do
    in_fd ← call (F.open_read_now in_path)
    blocking ← call (F.set_blocking in_fd)
    out_fd ← call (F.open_write out_path)
    sent ← conn_send P rounds out_fd (int_bytes message_ok)
    pure (
        some (record {
          out_fifo_path = out_path;
          in_fifo_path = in_path;
          out_fd = out_fd;
          in_fd = in_fd;
        }))

  unfoldable pub conn_accept : ConnectionParams → Io World (Option Connection)
  unfolding receive_path open_accepted
  conn_accept params = do
    selected ←
        select_wrapper F.select (params.conn_requests_fd + 1) (some (params.conn_requests_fd ∷ []))
          none none (negsuc 0) (negsuc 0)
    if eq_ℤ selected (negsuc 0) then pure none else do
      first ← receive_path P rounds params.conn_requests_fd
      elim first [
        | none ↦ pure none
        | some in_path ↦ (do
          second ← receive_path P rounds params.conn_requests_fd
          elim second [ none ↦ pure none | some out_path ↦ open_accepted in_path out_path ])
      ]
