-- ===== src/Database/Stock.antt =====
-- `get_stock`, `verifyOrderStock` and `update_stock` of database/databaseServer.c.
pub mod Verify
pub mod Update
use os_tp.Base.{
  ℕ, zero, suc, ◌+◌, Bool, true, false, Option, none, some, List, [], ◌∷◌, ◌++◌, Bytes, length,
  take, ℤ, pos, negsuc, pos_part, ltb_ℤ, to_word, of_word, Outcome, ok, fault, not, if◌then◌else◌,
}
use os_tp.Base
use os_tp.Io.{Io, ◌>>=◌, pure, lift}
use os_tp.Decimal.{codes, print_int, count_digits, strtol}
use os_tp.Order.{
  OrderEntry, Order, deref, set_item, order_get_entry_num, order_get_num_entries,
  order_entry_get_id, order_entry_get_quantity, order_entry_set_quantity,
}
use os_tp.Database.Engine.{Row, Engine, update_quantity}

-- The callback: the first column as an `int`.
unfoldable pub store_single_number : ℤ → Row → Outcome ℤ
store_single_number result [] = fault
store_single_number result (none ∷ row) = fault
store_single_number result (some text ∷ row) = ok (of_word (to_word (strtol text)))

-- The callback on each row.
unfoldable pub store_numbers : ℤ → List Row → Outcome ℤ
unfolding store_single_number
store_numbers result [] = ok result
store_numbers result (row ∷ rows) =
    Base.◌>>=◌ (store_single_number result row) (λ r. store_numbers r rows)

-- The text that `get_stock` prints: `snprintf` cuts it to the size of the buffer, less one.
unfoldable pub stock_query : ℤ → Bytes
stock_query product_id =
    let base_query : Bytes = codes "SELECT quantity FROM products WHERE id=" in
    take (length base_query + count_digits product_id) (base_query ++ print_int product_id)

-- An entry through its pointer.
unfoldable pub get_entry : Order → ℕ → Outcome OrderEntry
get_entry o i = Base.◌>>=◌ (order_get_entry_num o (pos i)) deref

module _ (S : Engine) where
  open S use {Db, exec}

  -- `run_query`; the text is a C string.
  unfoldable pub run_query : Bytes → Io Db (Bool × List Row)
  run_query query db = let (success, rows, db') = exec query db in ok ((success, rows), db')

  -- `garbage` is what the variable `result` holds before a row is stored in it.
  unfoldable pub get_stock : ℤ → ℤ → Io Db ℤ
  unfolding run_query
  get_stock garbage product_id = do
    r ← run_query (stock_query product_id)
    if not r.0 then pure (negsuc 0) else lift (store_numbers garbage r.1)

  -- One round: the quantity becomes the stock if that is less.
  unfoldable pub verify_entry : ℤ → ℕ → Bool × Order → Io Db (Bool × Order)
  verify_entry garbage i (satisfied, o) = do
    e ← lift (get_entry o i)
    stock ← get_stock garbage (order_entry_get_id e)
    if ltb_ℤ stock (order_entry_get_quantity e)
        then (do
          items ← lift (set_item o.items i (order_entry_set_quantity e stock))
          pure (false, record o { items = items }))
        else pure (satisfied, o)

  unfoldable pub verify_loop : ℤ → ℕ → ℕ → Bool × Order → Io Db (Bool × Order)
  verify_loop garbage zero i state = pure state
  verify_loop garbage (suc rounds) i state = do
    next ← verify_entry garbage i state
    verify_loop garbage rounds (suc i) next

  -- The flag that is returned, and the order as it is then.
  unfoldable pub verify_order_stock : ℤ → Order → Io Db (Bool × Order)
  verify_order_stock garbage o =
      verify_loop garbage (pos_part (order_get_num_entries o)) 0 (true, o)

  unfoldable pub update_loop : ℕ → ℕ → Order → Io Db Bool
  unfolding run_query
  update_loop zero i o = pure true
  update_loop (suc rounds) i o = do
    e ← lift (get_entry o i)
    r ← run_query (update_quantity (order_entry_get_quantity e) (order_entry_get_id e))
    let rest = update_loop rounds (suc i) o
    if not r.0 then pure false else rest

  -- The flag is true for the result 1 and false for -1. The query fits its buffer of 1024 bytes,
  -- since an `int` has at most 11 characters.
  unfoldable pub update_stock : Order → Io Db Bool
  update_stock o = update_loop (pos_part (order_get_num_entries o)) 0 o
