-- ===== src/Database/Place.antt =====
-- `place_order` of database/databaseServer.c: the server's world is its descriptors and the database.
-- What a failed `ensureRead` leaves in `serializedSize` or in the block is undefined, so that using
-- it is a fault; the results of `ensureWrite` are ignored, as the code does.
pub mod Replies
pub mod Accepted
use os_tp.Base.{
  ℕ, Bool, true, false, Option, none, some, Bytes, length, ℤ, pos, negsuc, eq_ℤ, Outcome, ok, fault,
  if◌then◌else◌,
}
use os_tp.Base
use os_tp.Io.{Io, ◌>>=◌, ◌>>◌, pure, lift}
use os_tp.Encoding.{int_bytes, size_bytes, of_bytes}
use os_tp.Descriptors.{Posix, ensure_read, ensure_write}
use os_tp.Order.{Order}
use os_tp.Order.Serial.{order_serialize, order_unserialize}
use os_tp.Database.Engine.{Engine}
use os_tp.Database.Stock.{verify_order_stock, update_stock}
use os_tp.Database.Store.{Printing, store_verified_order}

abbrev pub message_ok : ℤ
message_ok = pos 1

abbrev pub message_error : ℤ
message_error = negsuc 0

abbrev pub message_unsatisfiable_order : ℤ
message_unsatisfiable_order = negsuc 1

module _ {W D : Type 0} where
  -- What acts on the descriptors alone, and on the database alone.
  unfoldable pub on_descriptors {ℓ} : {A : Type ℓ} → Io W A → Io (W × D) A
  on_descriptors m (w, db) = Base.◌>>=◌ (m w) (λ r. ok (r.0, (r.1, db)))

  unfoldable pub on_database {ℓ} : {A : Type ℓ} → Io D A → Io (W × D) A
  on_database m (w, db) = Base.◌>>=◌ (m db) (λ r. ok (r.0, (w, r.1)))

module _ (S : Engine) where
  -- `store_verified_order(order) == -1 || update_stock(order) == -1` decides what is replied.
  unfoldable pub store_order : (S.Db → ℤ) → Printing → (ℕ → ℕ) → ℤ → Order → Io S.Db ℤ
  store_order last_insert_rowid N junk timestamp o = do
    id ← store_verified_order S last_insert_rowid N junk timestamp o
    if eq_ℤ id (negsuc 0)
        then pure message_error
        else do updated ← update_stock S o; pure (if updated then message_ok else message_error)

module _ (P : Posix) (rounds : ℕ) (S : Engine) where
  abbrev pub ServerWorld : Type 0
  ServerWorld = P.World × S.Db

  -- `ensureRead` into memory that is then used.
  unfoldable pub read_used : ℕ → ℕ → Io ServerWorld Bytes
  read_used bytes fd = do
    r ← on_descriptors (ensure_read P rounds bytes fd)
    if r.0 then pure r.1 else lift fault

  unfoldable pub write_ignoring : Bytes → ℕ → Io ServerWorld (Unit {0})
  write_ignoring src fd = do written ← on_descriptors (ensure_write P rounds src fd); pure tt

  unfoldable pub place_order :
      (S.Db → ℤ) → Printing → (ℕ → ℕ) → ℤ → ℤ → ℕ → ℕ → Io ServerWorld (Unit {0})
  unfolding read_used write_ignoring
  place_order last_insert_rowid N junk garbage timestamp in_fd out_fd = do
    serialized_size ← read_used 8 in_fd
    serialized ← read_used (of_bytes serialized_size) in_fd
    order ← lift (order_unserialize junk serialized)
    verified ← on_database (verify_order_stock S garbage order)
    if verified.0
        then (do
          code ← on_database (store_order S last_insert_rowid N junk timestamp verified.1)
          write_ignoring (int_bytes code) out_fd)
        else (do
          sent ← write_ignoring (int_bytes message_unsatisfiable_order) out_fd
          reply ← lift (order_serialize junk verified.1)
          sent_size ← write_ignoring (size_bytes (length reply)) out_fd
          write_ignoring reply out_fd)
