-- ===== src/Forked.antt =====
-- server/forkedServer.c: the server of one client, between the client's connection and the
-- descriptors of the database server. The world is the descriptors, and whether the mutex of the
-- shared connection is held; the calls of server/dbConn.c wait while it is.
pub mod Wires
pub mod Products
pub mod Orders
pub mod Serve
pub mod Sessions
pub mod Frames
pub mod Requests
use os_tp.Base.{
  ℕ, zero, suc, Bool, true, false, not, ◌||◌, Option, none, some, List, [], ◌∷◌, ◌++◌, Bytes,
  length, drop, ℤ, pos, negsuc, pos_part, eq_ℤ, Outcome, ok, fault, blocked, if◌then◌else◌,
}
use os_tp.Base
use os_tp.Io.{Io, ◌>>=◌, ◌>>◌, pure, lift}
use os_tp.Memory.{malloc}
use os_tp.Encoding.{int_bytes, size_bytes, of_bytes, int_of_bytes}
use os_tp.Product.{Product, product_serialize, product_unserialize}
use os_tp.Descriptors.{Posix, ensure_read, ensure_write}
use os_tp.Comm.{Transport, used, conn_send, conn_receive}
use os_tp.Database.Place.{message_error, message_unsatisfiable_order}

abbrev pub cmd_get_products : ℤ
cmd_get_products = pos 3

abbrev pub cmd_place_order : ℤ
cmd_place_order = pos 4

-- The descriptors: of the client's connection, and of the shared connection.
pub record Ends : Type 0 where
  pub client_in : ℕ
  pub client_out : ℕ
  pub db_in : ℕ
  pub db_out : ℕ

-- What a variable holds once `ensureRead` has written over it, whole or in part.
abbrev pub read_over : Bytes → Bool × Bytes → Bytes
read_over old r = r.1 ++ drop (length r.1) old

-- The mutex.
module _ {W : Type 0} where
  unfoldable pub sh_conn_open : Io (W × Bool) Bool
  sh_conn_open (w, true) = blocked
  sh_conn_open (w, false) = ok (true, (w, true))

  unfoldable pub sh_conn_close : Io (W × Bool) Bool
  sh_conn_close (w, held) = ok (true, (w, false))

  -- What leaves the mutex alone.
  unfoldable pub on_descriptors {ℓ} : {A : Type ℓ} → Io W A → Io (W × Bool) A
  on_descriptors m (w, held) = Base.◌>>=◌ (m w) (λ r. ok (r.0, (r.1, held)))

module _ (P : Posix) (rounds : ℕ) (transport : Transport) (ends : Ends) where
  open P use {World}

  -- The loop over the products, with the rounds left: none once a read has failed.
  unfoldable pub read_products : ℕ → Io (World × Bool) (Option (List Product))
  read_products zero = pure (some [])
  read_products (suc more) = do
    size ← on_descriptors (ensure_read P rounds 8 ends.db_in)
    if not size.0 then pure none else do
      serialized ← on_descriptors (ensure_read P rounds (of_bytes size.1) ends.db_in)
      if not serialized.0 then pure none else do
        product ← lift (product_unserialize serialized.1)
        rest ← read_products more
        pure (elim rest [ none ↦ none | some ps ↦ some (product ∷ ps) ])

  -- What follows the loop: only after the last product is the mutex released.
  unfoldable pub finish_products :
      ℤ → Option (List Product) → Io (World × Bool) (Option (ℤ × List Product))
  finish_products code none = pure none
  finish_products code (some ps) = do closed ← sh_conn_close; pure (some (code, ps))

  -- The number that is returned and the products, or none for -1.
  unfoldable pub get_products : Io (World × Bool) (Option (ℤ × List Product))
  unfolding sh_conn_open finish_products
  get_products = do
    opened ← sh_conn_open
    asked ← on_descriptors (ensure_write P rounds (int_bytes cmd_get_products) ends.db_out)
    if not asked then pure none else do
      r ← on_descriptors (ensure_read P rounds 4 ends.db_in)
      let code = int_of_bytes r.1
      if not r.0 || eq_ℤ code message_error
          then pure none
          else do ps ← read_products (pos_part code); finish_products code ps

  -- `conn_send` to the client, its result ignored.
  unfoldable pub send_client : Bytes → Io (World × Bool) (Unit {0})
  send_client message = do
    sent ← on_descriptors (conn_send P rounds ends.client_out message)
    pure tt

  unfoldable pub send_each : (ℕ → ℕ) → List Product → Io (World × Bool) (Unit {0})
  send_each junk [] = pure tt
  send_each junk (p ∷ ps) = do
    serialized ← lift (product_serialize junk p)
    sent ← send_client serialized
    send_each junk ps

  -- What follows `getProducts`.
  unfoldable pub send_found : (ℕ → ℕ) → Option (ℤ × List Product) → Io (World × Bool) (Unit {0})
  send_found junk none = send_client (int_bytes message_error)
  send_found junk (some (num_products, ps)) = do
    sent ← send_client (int_bytes num_products)
    send_each junk ps

  unfoldable pub send_products : (ℕ → ℕ) → Io (World × Bool) (Unit {0})
  unfolding send_found
  send_products junk = do found ← get_products; send_found junk found

  -- The order that the database server offers instead.
  unfoldable pub pass_suborder : (ℕ → ℕ) → ℕ → Io (World × Bool) (Unit {0})
  pass_suborder junk serialized_len = do
    size ← on_descriptors (ensure_read P rounds 8 ends.db_in)
    let n = of_bytes (read_over (size_bytes serialized_len) size)
    r ← on_descriptors (ensure_read P rounds n ends.db_in)
    send_client (read_over (malloc junk n) r)

  unfoldable pub process_order : (ℕ → ℕ) → Io (World × Bool) Bool
  unfolding pass_suborder sh_conn_open
  process_order junk = do
    received ← on_descriptors (conn_receive P rounds transport ends.client_in)
    serialized ← lift (used received)
    opened ← sh_conn_open
    asked ← on_descriptors (ensure_write P rounds (int_bytes cmd_place_order) ends.db_out)
    size_sent ← on_descriptors (ensure_write P rounds (size_bytes (length serialized)) ends.db_out)
    sent ← on_descriptors (ensure_write P rounds serialized ends.db_out)
    r ← on_descriptors (ensure_read P rounds 4 ends.db_in)
    let code = int_of_bytes (read_over (int_bytes cmd_place_order) r)
    replied ← send_client (int_bytes code)
    passed ←
        (if eq_ℤ code message_unsatisfiable_order
          then pass_suborder junk (length serialized)
          else pure tt)
    sh_conn_close
