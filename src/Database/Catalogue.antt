-- ===== src/Database/Catalogue.antt =====
-- `append_products`, `get_products` and `send_products` of database/databaseServer.c.
pub mod Listing
pub mod Sending
use os_tp.Base.{
  ℕ, zero, suc, ◌≤◌, Bool, true, false, not, Option, none, some, List, [], ◌∷◌, ◌++◌, Bytes, length,
  replicate, ℤ, pos, negsuc, pos_part, ltb_ℤ, to_word, of_word, Outcome, ok, fault, if◌then◌else◌,
}
use os_tp.Base
use os_tp.Io.{Io, ◌>>=◌, ◌>>◌, pure, lift}
use os_tp.Encoding.{int_bytes, size_bytes}
use os_tp.Decimal.{codes, strtol}
use os_tp.Order.{deref}
use os_tp.Product.{Product, product_new, product_serialize}
use os_tp.Descriptors.{Posix}
use os_tp.Database.Engine.{Row, Engine}
use os_tp.Database.Stock.{store_numbers, run_query}
use os_tp.Database.Place.{on_database, write_ignoring, ServerWorld, message_error}

unfoldable pub count_query : Bytes
count_query = codes "SELECT count(id) FROM products"

unfoldable pub list_query : Bytes
list_query = codes "SELECT id, name, description, price, quantity FROM products"

-- `atoi(s)` is `strtol(s, NULL, 10)` as an `int`.
abbrev pub atoi : Bytes → ℤ
atoi s = of_word (to_word (strtol s))

-- `while (array[i] != NULL) i++; array[i] = p;`: past the end of the array a fault.
unfoldable pub append_product : List (Option Product) → Product → Outcome (List (Option Product))
append_product [] p = fault
append_product (none ∷ array) p = ok (some p ∷ array)
append_product (some q ∷ array) p = Base.◌>>=◌ (append_product array p) (λ rest. ok (some q ∷ rest))

-- The columns as terminated strings; a column that is NULL or missing is a pointer that the code
-- follows. `atof` gives the pattern of the float.
unfoldable pub append_products :
    (Bytes → ℕ) → (ℕ → ℕ) → List (Option Product) → Row → Outcome (List (Option Product))
unfolding append_product
append_products atof junk array
      (some id ∷ some name ∷ some description ∷ some price ∷ some stock ∷ row) =
    Base.◌>>=◌
      (product_new junk (atoi id) (name ++ 0 ∷ []) (description ++ 0 ∷ []) (atof price)
        (atoi stock))
      (append_product array)
append_products atof junk array row = fault

-- The callback on each row.
unfoldable pub append_rows :
    (Bytes → ℕ) → (ℕ → ℕ) → List (Option Product) → List Row → Outcome (List (Option Product))
append_rows atof junk array [] = ok array
append_rows atof junk array (row ∷ rows) =
    Base.◌>>=◌ (append_products atof junk array row) (λ array'. append_rows atof junk array' rows)

module _ (S : Engine) where
  open S use {Db}

  -- The array, whose length is the number that is returned, or none for -1.
  unfoldable pub get_products : (Bytes → ℕ) → (ℕ → ℕ) → ℤ → Io Db (Option (List (Option Product)))
  get_products atof junk garbage = do
    count ← run_query S count_query
    if not count.0 then pure none else do
      num_products ← lift (store_numbers garbage count.1)
      if not (ltb_ℤ (pos 0) num_products) then pure none else do
        rows ← run_query S list_query
        if not rows.0 then pure none else do
          array ← lift (append_rows atof junk (replicate (pos_part num_products) none) rows.1)
          pure (some array)

module _ (P : Posix) (rounds : ℕ) (S : Engine) where
  -- The products of the array, each behind its size.
  unfoldable pub send_each :
      (ℕ → ℕ) → List (Option Product) → ℕ → Io (ServerWorld P rounds S) (Unit {0})
  send_each junk [] out_fd = pure tt
  send_each junk (p ∷ array) out_fd = do
    product ← lift (deref p)
    serialized ← lift (product_serialize junk product)
    size_sent ← write_ignoring P rounds S (size_bytes (length serialized)) out_fd
    sent ← write_ignoring P rounds S serialized out_fd
    send_each junk array out_fd

  -- What follows `get_products`.
  unfoldable pub send_listing :
      (ℕ → ℕ) → Option (List (Option Product)) → ℕ → Io (ServerWorld P rounds S) (Unit {0})
  send_listing junk none out_fd = write_ignoring P rounds S (int_bytes message_error) out_fd
  send_listing junk (some array) out_fd = do
    sent ← write_ignoring P rounds S (int_bytes (pos (length array))) out_fd
    send_each junk array out_fd

  unfoldable pub send_products :
      (Bytes → ℕ) → (ℕ → ℕ) → ℤ → ℕ → Io (ServerWorld P rounds S) (Unit {0})
  unfolding send_listing
  send_products atof junk garbage out_fd = do
    prods ← on_database (get_products S atof junk garbage)
    send_listing junk prods out_fd
