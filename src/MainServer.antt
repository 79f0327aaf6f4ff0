-- ===== src/MainServer.antt =====
-- server/mainServer.c: starting and stopping the database server, and forking a server for each
-- client. What it logs is left out.
pub mod Stopping
pub mod Accepting
use os_tp.Base.{
  ℕ, zero, suc, ◌+◌, Bool, true, false, Option, none, some, List, [], ◌∷◌, ◌++◌, Bytes, Outcome, ok,
  fault, blocked, ℤ, pos, negsuc, ltb_ℤ, eq_ℤ, if◌then◌else◌,
}
use os_tp.Base
use os_tp.Io.{Fate, returned, replaced, exited, Io, ◌>>=◌, pure, lift}
use os_tp.Decimal.{codes, print_int, count_digits}
use os_tp.Encoding.{int_bytes}
use os_tp.Descriptors.{Posix, ensure_write}
use os_tp.Comm.{message_close}
use os_tp.Fifos.{print_in}
use os_tp.Shared.{
  SharedConn, SharedMemory, sh_conn_create, sh_conn_destroy, sh_conn_lock, sh_conn_get_out_fd,
}

-- `pipe` gives the end to read from and the end to write to, or none for -1; `fork` is what it returns
-- in the process that goes on here; `execve` does not return where it succeeds, and here gives true.
pub record Processes (World : Type 0) : Type 0 where
  pub pipe : World → Option (ℕ × ℕ) × World
  pub fork : World → ℤ × World
  pub execve : List Bytes → World → Bool × World
  pub kill_main : World → World

-- The variables of `startDBServer` and the global ones that it sets.
pub record Started : Type 0 where
  pub db_conn : Option SharedConn
  pub db_pid : ℤ

-- The arguments of the database server, each printed in a buffer of its digits and one byte.
unfoldable pub db_args : (ℕ → ℕ) → ℕ → ℕ → Outcome (List Bytes)
db_args junk read_fd write_fd =
    Base.◌>>=◌ (print_in junk (count_digits (pos read_fd) + 1) (print_int (pos read_fd))) (λ r.
      Base.◌>>=◌ (print_in junk (count_digits (pos write_fd) + 1) (print_int (pos write_fd)))
        (λ t. ok ((codes "databaseServer.bin" ++ 0 ∷ []) ∷ r ∷ t ∷ [])))

module _ (P : Posix) (M : SharedMemory (P.World)) (Q : Processes (P.World)) (rounds : ℕ)
    (junk : ℕ → ℕ) where
  open P use {World}

  abbrev call {ℓ} : {A : Type ℓ} → (World → A × World) → Io World A
  call f w = ok (f w)

  -- The child, once the shared connection is set up.
  unfoldable pub run_db_server : ℕ → ℕ → Io World (Fate (Option Started))
  unfolding db_args
  run_db_server read_fd write_fd = do
    args ← lift (db_args junk read_fd write_fd)
    started ← call (Q.execve args)
    if started then pure replaced else (λ w. ok (exited, Q.kill_main w))

  -- What follows the creation of the pipes.
  unfoldable pub share_and_fork : ℕ × ℕ → ℕ × ℕ → Io World (Fate (Option Started))
  unfolding run_db_server
  share_and_fork (out_read, out_write) (in_read, in_write) = do
    db_conn ← sh_conn_create M out_write in_read
    elim db_conn [
      | none ↦ pure (returned none)
      | some conn ↦ (do
        db_pid ← call Q.fork
        if eq_ℤ db_pid (pos 0)
            then run_db_server out_read in_write
            else pure (returned (some (record { db_conn = some conn; db_pid = db_pid }))))
    ]

  -- None for -1.
  unfoldable pub start_db_server : Io World (Fate (Option Started))
  unfolding share_and_fork
  start_db_server = do
    outpipe ← call Q.pipe
    elim outpipe [
      | none ↦ pure (returned none)
      | some out_ends ↦ (do
        inpipe ← call Q.pipe
        elim inpipe [
          | none ↦ pure (returned none)
          | some in_ends ↦ share_and_fork out_ends in_ends
        ])
    ]

  -- The global variable then is gone with the process; true for 1 and false for -1.
  unfoldable pub stop_db_server : Option SharedConn → Io World Bool
  stop_db_server db_conn = do
    locked ← sh_conn_lock M db_conn
    out_fd ← lift (sh_conn_get_out_fd M db_conn)
    write_result ← ensure_write P rounds (int_bytes message_close) out_fd
    destroyed ← sh_conn_destroy M (if write_result then none else db_conn)
    pure write_result

  -- `return 0;` behind `forkedServer(c);`.
  abbrev after_child : Fate (Unit {0}) → Fate Bool
  after_child (returned served) = returned true
  after_child replaced = replaced
  after_child exited = exited

  -- `createForkedServer`, with `forkedServer` of the connection; true for 0 and false for -1.
  unfoldable pub create_forked_server :
      {C : Type 0} → (C → Io World (Fate (Unit {0}))) → C → Io World (Fate Bool)
  create_forked_server forked_server c = do
    pid ← call Q.fork
    if ltb_ℤ pid (pos 0)
        then pure (returned false)
        else if ltb_ℤ (pos 0) pid
        then pure (returned true)
        else (do served ← forked_server c; pure (after_child served))

  -- The loop of main over the connections that are accepted, with the rounds that it may run.
  unfoldable pub accept_loop :
      {C : Type 0}
      → ℕ
      → Io World (Option C)
      → (C → Io World (Fate (Unit {0})))
      → Option SharedConn
      → Io World (Fate Bool)
  unfolding stop_db_server create_forked_server
  accept_loop zero conn_accept forked_server db_conn w = blocked
  accept_loop (suc more) conn_accept forked_server db_conn w = Base.◌>>=◌ (conn_accept w) (λ r.
      elim r.0 [
        | none ↦ (do stopped ← stop_db_server db_conn; pure exited) r.1
        | some c ↦ Base.◌>>=◌ (create_forked_server forked_server c r.1) (λ t. elim t.0 [
          | returned forked ↦ accept_loop more conn_accept forked_server db_conn t.1
          | replaced ↦ ok (replaced, t.1)
          | exited ↦ ok (exited, t.1)
        ])
      ])

  -- What main does once the database server is started: it removes what is left at the address,
  -- listens there, and accepts connections.
  unfoldable pub listen_and_accept :
      {L C : Type 0}
      → ℕ
      → (World → World)
      → Io World (Option L)
      → (L → Io World (Option C))
      → (C → Io World (Fate (Unit {0})))
      → Option SharedConn
      → Io World (Fate Bool)
  unfolding stop_db_server accept_loop
  listen_and_accept turns remove conn_listen conn_accept forked_server db_conn w =
      Base.◌>>=◌ (conn_listen (remove w)) (λ r. elim r.0 [
        | none ↦ (do stopped ← stop_db_server db_conn; pure (returned false)) r.1
        | some params ↦ accept_loop turns (conn_accept params) forked_server db_conn r.1
      ])

  -- `main`, with the address of its configuration known to `remove` and `conn_listen`; false for -1.
  unfoldable pub main_server :
      {L C : Type 0}
      → ℕ
      → (World → World)
      → Io World (Option L)
      → (L → Io World (Option C))
      → (C → Io World (Fate (Unit {0})))
      → Io World (Fate Bool)
  unfolding start_db_server listen_and_accept
  main_server turns remove conn_listen conn_accept forked_server w =
      Base.◌>>=◌ (start_db_server w) (λ r. elim r.0 [
        | returned none ↦ ok (returned false, r.1)
        | returned (some s) ↦
            listen_and_accept turns remove conn_listen conn_accept forked_server s.db_conn r.1
        | replaced ↦ ok (replaced, r.1)
        | exited ↦ ok (exited, r.1)
      ])
