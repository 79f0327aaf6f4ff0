-- ===== src/Sharing/Safety.antt =====
-- One process at a time talks to the database server, and none at all once the mutex is not released.
use os_tp.Base.{
  ℕ, ◌≡◌, ◌≢◌, refl, sym, ap, ◌∙◌, inl, inr, Bool, true, false, ◌==◌, ==_iff, Bool-cases,
}
use os_tp.Sharing.{
  idle, System, Step, open_conn, ask, write_fails, write_ignored, serve, hear, read_fails,
  read_ignored, close_conn, leave_locked, Steps, none_yet, then_one, fresh,
}
use os_tp.Sharing.Invariant.{owner, Steps-Safe, fresh-Safe, Step-idle, not_busy}

module _ {Q R D : Type 0} (answer : Q → D → R × D) (keeps_lock : Q → R → Bool)
    (returns_locked : Q → Bool) where
  owner_of :
      (db : D) (s : System Q R D) (i : ℕ)
      → Steps answer keeps_lock returns_locked (fresh db) s
      → s.phases i ≢ idle
      → ((j : ℕ) → (j == i) ≡ false → s.phases j ≡ idle) × (s.locked ≡ true)
  owner_of db s i run busy =
      owner s i
        (Steps-Safe answer keeps_lock returns_locked run
          (fresh-Safe answer keeps_lock returns_locked db))
        refl busy

  -- From a fresh start, however the processes interleave, and whichever of their writes and reads
  -- fail, no two of them are at once between locking the mutex and releasing it.
  pub Steps-exclusive :
      (db : D) (s : System Q R D) (i j : ℕ)
      → Steps answer keeps_lock returns_locked (fresh db) s
      → s.phases i ≢ idle
      → s.phases j ≢ idle
      → i ≡ j
  Steps-exclusive db s i j run hi hj =
      let (others, locked) = owner_of db s i run hi in
      elim (Bool-cases (j == i)) [
        | inl same ↦ sym ((==_iff j i).0 same)
        | inr differs ↦ absurd (hj (others j differs))
      ]

  -- Every process is idle, and the mutex is locked.
  abbrev Starved : System Q R D → Type 0
  Starved s = ((j : ℕ) → s.phases j ≡ idle) × (s.locked ≡ true)

  Step-Starved :
      {s t : System Q R D} → Step answer keeps_lock returns_locked s t → Starved s → Starved t
  Step-Starved step (all, locked) =
      (λ j. Step-idle answer keeps_lock returns_locked j step locked (all j), stays step all locked)
    where
      stays :
          {s t : System Q R D}
          → Step answer keeps_lock returns_locked s t
          → ((j : ℕ) → s.phases j ≡ idle)
          → s.locked ≡ true
          → t.locked ≡ true
      stays (open_conn s i e free) all locked = refl
      stays (ask s i q e) all locked = locked
      stays (write_fails s i q e h) all locked = locked
      stays (write_ignored s i q e h) all locked = locked
      stays (serve s q rest e) all locked = locked
      stays (hear s i q r rest e here) all locked = locked
      stays (read_fails s i q e h) all locked = locked
      stays (read_ignored s i q e h) all locked = absurd (not_busy s i e (λ x. cc) (all i))
      stays (close_conn s i q r e h) all locked = absurd (not_busy s i e (λ x. cc) (all i))
      stays (leave_locked s i q r e h) all locked = locked

  Steps-Starved :
      {s t : System Q R D} → Steps answer keeps_lock returns_locked s t → Starved s → Starved t
  Steps-Starved none_yet starved = starved
  Steps-Starved (then_one before step) starved = Step-Starved step (Steps-Starved before starved)

  -- From a fresh start, once a process has returned and the mutex is still locked, as after
  -- MESSAGE_ERROR and after a write or a read that fails in getProducts, every process is idle for
  -- ever: none of them asks the database server for anything again.
  pub Steps-starved :
      (db : D) (s u t : System Q R D) (i j : ℕ)
      → Steps answer keeps_lock returns_locked (fresh db) s
      → s.phases i ≢ idle
      → Step answer keeps_lock returns_locked s u
      → u.phases i ≡ idle
      → u.locked ≡ true
      → Steps answer keeps_lock returns_locked u t
      → t.phases j ≡ idle
  Steps-starved db s u t i j run busy step returned locked more =
      let (others, held) = owner_of db s i run busy in
      let all : (k : ℕ) → u.phases k ≡ idle = λ k. elim (Bool-cases (k == i)) [
        | inl same ↦ ap u.phases ((==_iff k i).0 same) ∙ returned
        | inr differs ↦ Step-idle answer keeps_lock returns_locked k step held (others k differs)
      ] in
      (Steps-Starved more (all, locked)).0 j
