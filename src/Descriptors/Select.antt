-- ===== src/Descriptors/Select.antt =====
-- `select_wrapper` of common/lib.c, over `select`.
use os_tp.Base.{
  ℕ, suc, Bool, true, false, ◌&&◌, ◌||◌, Option, none, some, List, [], ◌∷◌, Outcome, ok, fault, ℤ,
  pos, negsuc, pos_part, ltb_ℤ, ltb, ◌==◌, if◌then◌else◌,
}
use os_tp.Base
use os_tp.Io.{Io, ◌>>=◌, lift}

-- An `fd_set`, and how many descriptors it has room for.
abbrev pub FdSet : Type 0
FdSet = ℕ → Bool

abbrev pub fd_setsize : ℕ
fd_setsize = 1024

-- `FD_ZERO` and the loop of `FD_SET`, which runs out of the set for a descriptor that is too large.
unfoldable pub fd_set : FdSet → List ℕ → Outcome FdSet
fd_set set [] = ok set
fd_set set (fd ∷ fds) =
    let rest = fd_set (λ n. n == fd || set n) fds in if ltb fd fd_setsize then rest else fault

abbrev pub fd_zero : FdSet
fd_zero n = false

-- What `select` is given: none for NULL. The time is in seconds and microseconds.
pub record Waiting : Type 0 where
  pub max_fd : ℕ
  pub read_set : Option FdSet
  pub write_set : Option FdSet
  pub err_set : Option FdSet
  pub timeout : Option (ℕ × ℕ)

abbrev pub is_negative : ℤ → Bool
is_negative (pos n) = false
is_negative (negsuc n) = true

abbrev set_of : Option (List ℕ) → Outcome (Option FdSet)
set_of none = ok none
set_of (some fds) = Base.◌>>=◌ (fd_set fd_zero fds) (λ set. ok (some set))

-- A time below zero counts as none; two such times wait without an end.
unfoldable pub timeout_of : ℤ → ℤ → Option (ℕ × ℕ)
timeout_of timeout_sec timeout_usec =
    if is_negative timeout_sec && is_negative timeout_usec
    then none
    else some (pos_part timeout_sec, pos_part timeout_usec)

module _ {World : Type 0} (select : Waiting → World → ℤ × World) where
  unfoldable pub select_wrapper :
      ℕ → Option (List ℕ) → Option (List ℕ) → Option (List ℕ) → ℤ → ℤ → Io World ℤ
  unfolding fd_set timeout_of
  select_wrapper max_fd read_fds write_fds err_fds timeout_sec timeout_usec = do
    read_set ← lift (set_of read_fds)
    write_set ← lift (set_of write_fds)
    err_set ← lift (set_of err_fds)
    (λ w. ok (
        select
          (record {
            max_fd = max_fd;
            read_set = read_set;
            write_set = write_set;
            err_set = err_set;
            timeout = timeout_of timeout_sec timeout_usec;
          })
          w))
