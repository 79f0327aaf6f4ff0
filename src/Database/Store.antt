-- ===== src/Database/Store.antt =====
-- `store_verified_order` of database/databaseServer.c: the queries that it prints into its buffer of
-- 1024 bytes, and what it runs.
pub mod Queries
pub mod Texts
pub mod Inserts
pub mod Overflow
use os_tp.Base.{
  ℕ, zero, suc, ◌+◌, Bool, true, false, Option, none, some, List, [], ◌∷◌, ◌++◌, Bytes, length, ℤ,
  pos, negsuc, pos_part, to_word, of_word, Outcome, ok, fault, ◌>>=◌, ◌==◌, not, if◌then◌else◌,
}
use os_tp.Io
use os_tp.Io.{Io, pure, lift}
use os_tp.Memory.{malloc, memcpy, strlen, text_of}
use os_tp.Decimal.{codes, print_int, count_digits}
use os_tp.Order.{
  OrderEntry, Order, Floats, deref, order_get_total, order_get_address, order_get_num_entries,
  order_entry_get_id, order_entry_get_quantity,
}
use os_tp.Database.Engine.{Engine}
use os_tp.Database.Stock.{run_query, get_entry}

-- What the model does not interpret: `%.2f` and the conversion of a float to an `int`, and
-- `sqlite3_last_insert_rowid`.
pub record Printing : Type 0 where
  pub floats : Floats
  pub print_fixed : ℕ → Bytes
  pub int_of_float : ℕ → ℤ

-- An `int` argument that is given a wider number.
abbrev pub narrow : ℤ → ℤ
narrow z = of_word (to_word z)

-- `sprintf(query + index, ...)`, with the text that the format gives.
unfoldable pub print_at : Bytes → ℕ → Bytes → Outcome Bytes
print_at query index text = memcpy query index (text ++ 0 ∷ [])

unfoldable pub insert_order : Bytes
insert_order = codes "INSERT INTO orders (total, address, `time`) VALUES ("

unfoldable pub insert_entry : Bytes
insert_entry = codes "INSERT INTO orderEntry (order_id, product_id, quantity) VALUES ("

-- The buffer once the first query is printed.
unfoldable pub print_order : Printing → Bytes → Order → ℤ → Outcome Bytes
print_order N query o timestamp = do
  total ← order_get_total N.floats o
  q1 ← print_at query 0 insert_order
  let index1 = length insert_order
  q2 ← print_at q1 index1 (N.print_fixed total ++ codes ",")
  let index2 = index1 + (count_digits (N.int_of_float total) + 1 + 2 + 1)
  address ← deref (order_get_address o)
  text ← text_of address
  q3 ← print_at q2 index2 (codes "\"" ++ (text ++ codes "\","))
  address_len ← strlen address
  let index3 = index2 + (1 + address_len + 1 + 1)
  q4 ← print_at q3 index3 (print_int timestamp ++ codes ")")
  let index4 = index3 + (count_digits (narrow timestamp) + 1)
  memcpy q4 index4 (0 ∷ [])

-- The buffer once the query of an entry is printed.
unfoldable pub print_entry : Bytes → ℤ → OrderEntry → Outcome Bytes
print_entry query order_id e = do
  q1 ← print_at query 0 insert_entry
  let index1 = length insert_entry
  q2 ← print_at q1 index1 (print_int order_id ++ codes ",")
  let index2 = index1 + (count_digits (narrow order_id) + 1)
  q3 ← print_at q2 index2 (print_int (order_entry_get_id e) ++ codes ",")
  let index3 = index2 + (count_digits (order_entry_get_id e) + 1)
  q4 ← print_at q3 index3 (print_int (order_entry_get_quantity e) ++ codes ")")
  let index4 = index3 + (count_digits (order_entry_get_quantity e) + 1)
  memcpy q4 index4 (0 ∷ [])

module _ (S : Engine) (last_insert_rowid : S.Db → ℤ) (N : Printing) where
  open S use {Db}

  -- The loop over the entries from i on; the flag is false once a query has failed.
  unfoldable pub store_entries : ℕ → ℕ → ℤ → Order → Bytes → Io Db Bool
  store_entries zero i order_id o query = pure true
  store_entries (suc rounds) i order_id o query =
      let next = store_entries rounds (suc i) order_id o in
      Io.◌>>=◌ (lift (get_entry o i)) λ e. Io.◌>>=◌ (lift (print_entry query order_id e)) λ printed.
        Io.◌>>=◌ (lift (text_of printed))
          λ text. Io.◌>>=◌ (run_query S text) λ r. if not r.0 then pure false else next printed

  unfoldable pub store_verified_order : (ℕ → ℕ) → ℤ → Order → Io Db ℤ
  store_verified_order junk timestamp o =
      Io.◌>>=◌ (lift (print_order N (malloc junk 1024) o timestamp)) λ printed.
        Io.◌>>=◌ (lift (text_of printed)) λ text. Io.◌>>=◌ (run_query S text) λ r.
          if not r.0 then pure (negsuc 0) else λ db.
          Io.◌>>=◌
            (store_entries (pos_part (order_get_num_entries o)) 0 (last_insert_rowid db) o printed)
            (λ stored. if stored then pure (last_insert_rowid db) else pure (negsuc 0)) db
