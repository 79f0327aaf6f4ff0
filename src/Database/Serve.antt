-- ===== src/Database/Serve.antt =====
-- `init` and the loop of `main` of database/databaseServer.c.
pub mod Listings
pub mod Requests
use os_tp.Comm.{message_close}
use os_tp.Base.{
  ℕ, zero, suc, Bool, true, false, not, List, [], ◌∷◌, Bytes, ℤ, pos, eq_ℤ, Outcome, ok, fault,
  blocked, if◌then◌else◌,
}
use os_tp.Base
use os_tp.Io.{Io, ◌>>=◌, ◌>>◌, pure, lift}
use os_tp.Encoding.{int_of_bytes}
use os_tp.Decimal.{codes}
use os_tp.Descriptors.{Posix}
use os_tp.Forked.{cmd_get_products, cmd_place_order}
use os_tp.Database.Engine.{Engine}
use os_tp.Database.Stock.{run_query}
use os_tp.Database.Store.{Printing}
use os_tp.Database.Place.{ServerWorld, read_used, place_order}
use os_tp.Database.Catalogue.{send_products}

-- The queries that create and fill the tables.
unfoldable pub init_queries : List Bytes
init_queries =
    codes
      "CREATE TABLE IF NOT EXISTS products(id INTEGER PRIMARY KEY NOT NULL, name TEXT NOT NULL, quantity INTEGER NOT NULL DEFAULT 0 check(quantity >= 0), price FLOAT NOT NULL, description TEXT);"
    ∷ codes
        "CREATE TABLE IF NOT EXISTS orders(id INTEGER PRIMARY KEY NOT NULL, total FLOAT NOT NULL, address TEXT, `time` INTEGER NOT NULL);"
    ∷ codes
        "CREATE TABLE IF NOT EXISTS orderEntry(id INTEGER PRIMARY KEY NOT NULL, order_id INTEGER NOT NULL, product_id INTEGER NOT NULL, quantity INTEGER NOT NULL DEFAULT 1, FOREIGN KEY (order_id) REFERENCES orders(id), FOREIGN KEY (product_id) REFERENCES products(id));"
    ∷ codes "DELETE FROM products;"
    ∷ codes
        "INSERT INTO products VALUES(1, \"Vodka\", 60, 30.5, \"A Russian favourite imported from the heart of the coldest place on Earth, Serbia\");"
    ∷ codes "INSERT INTO products VALUES(2, \"Gin\", 30, 40, \"A Dutch favourite\");"
    ∷ codes
        "INSERT INTO products VALUES(3, \"Chianti\", 40, 90, \"Aged wine imported from the cuore of Tuscany, Italy\");"
    ∷ codes
        "INSERT INTO products VALUES(4, \"Fernet\", 100, 25, \"Want to get drunk at a pregame with your amigos? Nothing beats the terrible hangover that Fernet gives you\");"
    ∷ codes
        "INSERT INTO products VALUES(5, \"Quilmes\", 200, 20, \"You aren't Argentine until you've drunk Quilmes, the most famous beer in la Tierra de la Plata\");"
    ∷ []

module _ (S : Engine) where
  -- A query that fails clears the result, and the next one runs all the same.
  unfoldable pub init_loop : List Bytes → Bool → Io S.Db Bool
  init_loop [] result = pure result
  init_loop (query ∷ queries) result = do
    r ← run_query S query
    init_loop queries (if not r.0 then false else result)

  unfoldable pub init : Io S.Db Bool
  init = init_loop init_queries true

-- What the loop uses: the results of the last row's number, of `time` and of `atof`, fresh memory,
-- what an uninitialised `int` holds, and `select_wrapper`, which is true unless it returns -1.
pub record Surroundings (P : Posix) (S : Engine) : Type 0 where
  pub last_insert_rowid : S.Db → ℤ
  pub printing : Printing
  pub atof : Bytes → ℕ
  pub junk : ℕ → ℕ
  pub garbage : ℤ
  pub time : ℕ → ℤ
  pub select : P.World → Bool × P.World

module _ (P : Posix) (rounds : ℕ) (S : Engine) (E : Surroundings P S) (in_fd out_fd : ℕ) where
  -- The switch; the flag is `done`, and `turn` counts the rounds for the clock.
  unfoldable pub handle : ℕ → ℤ → Io (ServerWorld P rounds S) Bool
  handle turn msg_code =
      if eq_ℤ msg_code cmd_get_products
      then send_products P rounds S E.atof E.junk E.garbage out_fd >> pure false
      else if eq_ℤ msg_code cmd_place_order
      then place_order P rounds S E.last_insert_rowid E.printing E.junk E.garbage (E.time turn)
          in_fd out_fd
        >> pure false
      else if eq_ℤ msg_code message_close
      then pure true
      else pure false

  unfoldable pub select : Io (ServerWorld P rounds S) Bool
  select (w, db) = ok ((E.select w).0, ((E.select w).1, db))

  -- One round of the loop. A command that could not be read whole is an uninitialised variable.
  unfoldable pub serve_once : ℕ → Io (ServerWorld P rounds S) Bool
  unfolding select handle
  serve_once turn = do
    ready ← select
    if not ready
        then pure false
        else do msg_code ← read_used P rounds S 4 in_fd; handle turn (int_of_bytes msg_code)

  -- `do { ... } while (!done);`, with the rounds that it may run.
  unfoldable pub serve_loop : ℕ → Io (ServerWorld P rounds S) (Unit {0})
  serve_loop zero w = blocked
  serve_loop (suc turns) w =
      let again = serve_loop turns in
      (serve_once turns >>= λ done. if done then pure tt else again) w
