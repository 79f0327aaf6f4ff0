-- ===== src/Order.antt =====
-- common/order.c: an order, its entries, and its serialized form.
-- `address` is the block that the pointer leads to, terminator included, or none for NULL; `items`
-- is the array of entry pointers, none for NULL. No two of the pointers are equal, so an entry that
-- is changed through a pointer is changed at its place in `items` alone. `price` is the 32-bit
-- pattern of the float. `junk` is what fresh memory holds.
pub mod View
pub mod Search
pub mod Add
pub mod Entries
pub mod Serial
pub mod Printing
use os_tp.Base.{
  ℕ, zero, suc, ◌+◌, ◌*◌, Bool, true, false, ◌||◌, not, Option, none, some, List, [], ◌∷◌, Bytes,
  length, get_elem?, set, replicate, ℤ, pos, negsuc, pos_part, to_size, ltb_ℤ, eq_ℤ, add_int,
  Outcome, ok, fault, ◌>>=◌, ltb, ◌==◌, if◌then◌else◌,
}
use os_tp.Memory.{malloc, strlen, strncpy, read_block, Cursor, put}
use os_tp.Encoding.{int_bytes, float_bytes, size_bytes, read_int, read_float, read_size}

abbrev pub order_max_size : ℕ
order_max_size = 16

pub record OrderEntry : Type 0 where
  pub product_id : ℤ
  pub quantity : ℤ
  pub price : ℕ

pub record Order : Type 0 where
  pub address : Option Bytes
  pub num_entries : ℤ
  pub items : List (Option OrderEntry)

-- A pointer that the program follows.
abbrev pub deref {ℓ} : {A : Type ℓ} → Option A → Outcome A
deref none = fault
deref (some a) = ok a

-- `items[i]`, outside the array a fault.
unfoldable pub item : List (Option OrderEntry) → ℕ → Outcome (Option OrderEntry)
item items i = deref (get_elem? items i)

-- `*(items[i])`.
unfoldable pub entry_at : List (Option OrderEntry) → ℕ → Outcome OrderEntry
unfolding item
entry_at items i = do p ← item items i; deref p

-- `items[i] = p`.
unfoldable pub set_item :
    List (Option OrderEntry) → ℕ → OrderEntry → Outcome (List (Option OrderEntry))
set_item items i e = if ltb i (length items) then ok (set items i (some e)) else fault

-- The array index is not negative where it is used.
unfoldable pub order_get_entry_num : Order → ℤ → Outcome (Option OrderEntry)
unfolding item
order_get_entry_num o entry_num =
    if ltb_ℤ entry_num (pos 0) || not (ltb_ℤ entry_num o.num_entries)
    then ok none
    else item o.items (pos_part entry_num)

abbrev pub order_entry_get_id : OrderEntry → ℤ
order_entry_get_id e = e.product_id

abbrev pub order_entry_set_quantity : OrderEntry → ℤ → OrderEntry
order_entry_set_quantity e new_quantity = record e { quantity = new_quantity }

abbrev pub order_entry_get_quantity : OrderEntry → ℤ
order_entry_get_quantity e = e.quantity

abbrev pub order_entry_get_price : OrderEntry → ℕ
order_entry_get_price e = e.price

abbrev pub order_new : Order
order_new = record { address = none; num_entries = pos 0; items = replicate order_max_size none }

abbrev pub order_get_address : Order → Option Bytes
order_get_address o = o.address

abbrev pub order_get_num_entries : Order → ℤ
order_get_num_entries o = o.num_entries

unfoldable pub order_set_address : (ℕ → ℕ) → Order → Option Bytes → Outcome Order
order_set_address junk o none = ok (record o { address = none })
order_set_address junk o (some address) = do
  n ← strlen address
  let len = suc n
  a ← strncpy (malloc junk len) address len
  ok (record o { address = some a })

-- `for (; i < numEntries; i++) if (product_id == items[i]->product_id) break;`, with the rounds left.
unfoldable pub find_entry : ℕ → ℕ → List (Option OrderEntry) → ℤ → Outcome ℕ
unfolding entry_at
find_entry zero i items product_id = ok i
find_entry (suc rounds) i items product_id =
    let rest = find_entry rounds (suc i) items product_id in
    do e ← entry_at items i; if eq_ℤ product_id e.product_id then ok i else rest

-- `items[i]->quantity += quantity;`
unfoldable pub add_to_entry : Order → ℕ → ℤ → Outcome Order
unfolding entry_at set_item
add_to_entry o i quantity = do
  e ← entry_at o.items i
  items ← set_item o.items i (record e { quantity = add_int e.quantity quantity })
  ok (record o { items = items })

-- `numEntries++`, and a fresh entry at `items[i]`.
unfoldable pub append_entry : Order → ℕ → OrderEntry → Outcome Order
unfolding set_item
append_entry o i e = do
  items ← set_item o.items i e
  ok (record o { num_entries = add_int o.num_entries (pos 1); items = items })

-- What follows the search, which has stopped at i. The flag is true for the result 0 and false
-- for -1.
unfoldable pub add_at : Order → ℕ → OrderEntry → Outcome (Bool × Order)
add_at o i entry =
    if ltb_ℤ (pos i) o.num_entries
    then (do o' ← add_to_entry o i entry.quantity; ok (true, o'))
    else if ltb i order_max_size
    then (do o' ← append_entry o i entry; ok (true, o'))
    else ok (false, o)

unfoldable pub order_add : Order → ℤ → ℤ → ℕ → Outcome (Bool × Order)
unfolding find_entry add_to_entry append_entry add_at
order_add o product_id quantity price = do
  i ← find_entry (pos_part o.num_entries) 0 o.items product_id
  add_at o i (record { product_id = product_id; quantity = quantity; price = price })

-- The float operations of `orderGetTotal`, which the model does not interpret: the value of an int,
-- the product and the sum.
pub record Floats : Type 0 where
  pub of_int : ℤ → ℕ
  pub mul : ℕ → ℕ → ℕ
  pub add : ℕ → ℕ → ℕ

unfoldable pub total_loop : Floats → ℕ → ℕ → List (Option OrderEntry) → ℕ → Outcome ℕ
unfolding entry_at
total_loop f zero i items result = ok result
total_loop f (suc rounds) i items result = do
  e ← entry_at items i
  total_loop f rounds (suc i) items (f.add result (f.mul e.price (f.of_int e.quantity)))

unfoldable pub order_get_total : Floats → Order → Outcome ℕ
unfolding total_loop
order_get_total f o = total_loop f (pos_part o.num_entries) 0 o.items 0
