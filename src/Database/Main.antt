-- ===== src/Database/Main.antt =====
-- `main` and `shut_down` of database/databaseServer.c. What they log is left out.
pub mod Arguments
use os_tp.Base.{
  ℕ, Bool, true, false, Option, none, some, List, [], ◌∷◌, Bytes, ℤ, pos, negsuc, to_word, Outcome,
  ok, if◌then◌else◌,
}
use os_tp.Base
use os_tp.Io.{Io, ◌>>=◌, pure, lift}
use os_tp.Memory.{text_of}
use os_tp.Decimal.{strtol}
use os_tp.Descriptors.{Posix}
use os_tp.Database.Engine.{Engine}
use os_tp.Database.Place.{ServerWorld, on_database}
use os_tp.Database.Serve.{Surroundings, init, serve_loop}

-- `atoi` of an argument, as the word of a descriptor.
unfoldable pub read_descriptor : Bytes → Outcome ℕ
read_descriptor argument = Base.◌>>=◌ (text_of argument) (λ s. ok (to_word (strtol s)))

-- The descriptors to read from and to write to; none where there are not three arguments.
unfoldable pub read_args : List Bytes → Outcome (Option (ℕ × ℕ))
unfolding read_descriptor
read_args [] = ok none
read_args (name ∷ []) = ok none
read_args (name ∷ read_fd ∷ []) = ok none
read_args (name ∷ read_fd ∷ write_fd ∷ []) =
    Base.◌>>=◌ (read_descriptor read_fd)
      (λ r. Base.◌>>=◌ (read_descriptor write_fd) (λ w. ok (some (r, w))))
read_args (name ∷ read_fd ∷ write_fd ∷ more ∷ others) = ok none

-- The calls on the database's file and on descriptors. `sqlite3_open` and `sqlite3_close` give true
-- where they fail.
pub record Opening (P : Posix) (S : Engine) : Type 0 where
  pub remove : P.World × S.Db → P.World × S.Db
  pub sqlite3_open : P.World × S.Db → Bool × (P.World × S.Db)
  pub close : ℕ → P.World × S.Db → P.World × S.Db
  pub sqlite3_close : P.World × S.Db → Bool × (P.World × S.Db)

module _ (P : Posix) (rounds : ℕ) (S : Engine) (E : Surroundings P S) (X : Opening P S) where
  unfoldable pub shut_down : ℕ → ℕ → Io (ServerWorld P rounds S) (Unit {0})
  shut_down out_fd in_fd w = ok (tt, (X.sqlite3_close (X.close in_fd (X.close out_fd w))).1)

  -- What follows the opening of the database; `turns` are the rounds that the loop may run.
  unfoldable pub run_server : ℕ → ℕ → ℕ → Io (ServerWorld P rounds S) ℤ
  unfolding shut_down
  run_server turns in_fd out_fd = do
    ready ← on_database (init S)
    served ← serve_loop P rounds S E in_fd out_fd turns
    ended ← shut_down out_fd in_fd
    pure (pos 0)

  unfoldable pub open_database : Io (ServerWorld P rounds S) Bool
  open_database w = ok (X.sqlite3_open (X.remove w))

  -- A database that cannot be opened ends the program with 0 as well.
  unfoldable pub database_main : ℕ → List Bytes → Io (ServerWorld P rounds S) ℤ
  unfolding run_server open_database read_args
  database_main turns args = do
    descriptors ← lift (read_args args)
    elim descriptors [
      | none ↦ pure (negsuc 0)
      | some fds ↦ (do
        failed ← open_database
        if failed then pure (pos 0) else run_server turns fds.0 fds.1)
    ]
