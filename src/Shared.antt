-- ===== src/Shared.antt =====
-- server/dbConn.c: creating and destroying the connection to the database server that the main server
-- shares with the processes that it forks. A pointer to it is none for NULL.
use os_tp.Base.{
  ℕ, Bool, true, false, not, Option, none, some, Bytes, Outcome, ok, fault, if◌then◌else◌,
}
use os_tp.Io.{Io, ◌>>=◌, pure, lift}
use os_tp.Order.{deref}

-- The descriptors in the shared memory.
pub record SharedConn : Type 0 where
  pub out_fd : ℕ
  pub in_fd : ℕ

-- What `mmap` returns: memory, or MAP_FAILED, which is not NULL.
pub data Mapped : Type 0 where
  mapped map_failed : Mapped

-- The system calls on the shared memory and its mutex. A flag says that the call succeeded;
-- `mutex_lock` may not return.
pub record SharedMemory (World : Type 0) : Type 0 where
  pub shm_open : World → Option ℕ × World
  pub ftruncate : ℕ → World → Bool × World
  pub mmap : ℕ → World → Mapped × World
  pub mutex_init : World → World
  pub mutex_lock : World → Outcome (Bool × World)
  pub close : ℕ → World → Bool × World
  pub shm_unlink : World → Bool × World

module _ {World : Type 0} (M : SharedMemory World) where
  abbrev call {ℓ} : {A : Type ℓ} → (World → A × World) → Io World A
  call f w = ok (f w)

  -- The fields are written through the pointer that `mmap` returned, which is only compared with NULL.
  unfoldable pub write_fields : Mapped → ℕ → ℕ → Io World (Option SharedConn)
  write_fields mapped out_fd in_fd w =
      ok (some (record { out_fd = out_fd; in_fd = in_fd }), M.mutex_init w)
  write_fields map_failed out_fd in_fd w = fault

  unfoldable pub sh_conn_create : ℕ → ℕ → Io World (Option SharedConn)
  unfolding write_fields
  sh_conn_create out_fd in_fd = do
    opened ← call M.shm_open
    elim opened [
      | none ↦ pure none
      | some fd ↦ (do
        sized ← call (M.ftruncate fd)
        if not sized
            then pure none
            else do result ← call (M.mmap fd); write_fields result out_fd in_fd)
    ]

  unfoldable pub sh_conn_destroy : Option SharedConn → Io World Bool
  sh_conn_destroy c = do
    conn ← lift (deref c)
    closed_out ← call (M.close conn.out_fd)
    if not closed_out then pure false else do
      closed_in ← call (M.close conn.in_fd)
      if not closed_in then pure false else call M.shm_unlink

  unfoldable pub sh_conn_lock : Option SharedConn → Io World Bool
  sh_conn_lock c = do conn ← lift (deref c); M.mutex_lock

  unfoldable pub sh_conn_get_out_fd : Option SharedConn → Outcome ℕ
  sh_conn_get_out_fd c = os_tp.Base.◌>>=◌ (deref c) (λ conn. ok conn.out_fd)

  unfoldable pub sh_conn_get_in_fd : Option SharedConn → Outcome ℕ
  sh_conn_get_in_fd c = os_tp.Base.◌>>=◌ (deref c) (λ conn. ok conn.in_fd)
