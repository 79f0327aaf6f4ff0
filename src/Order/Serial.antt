-- ===== src/Order/Serial.antt =====
-- common/order.c: `orderSerialize` and `orderUnserialize`.
pub mod Write
pub mod Read
pub mod Overflow
use os_tp.Base.{
  ℕ, zero, suc, ◌+◌, ◌*◌, ◌%◌, ◌^◌, Option, none, some, List, [], ◌∷◌, ◌++◌, Bytes, length, ℤ,
  pos_part, to_size, Outcome, ok, ◌>>=◌,
}
use os_tp.Memory.{malloc, strlen, strncpy, read_block, Cursor, put}
use os_tp.Encoding.{int_bytes, float_bytes, size_bytes, read_int, read_float, read_size}
use os_tp.Order.{OrderEntry, Order, entry_at, set_item, order_new}

-- `addressLen`: 0 without an address, else the string and its terminator.
unfoldable pub address_size : Option Bytes → Outcome ℕ
address_size none = ok 0
address_size (some a) = do n ← strlen a; ok (suc n)

-- `if(addressLen > 0) memcpy(*dest + offset, o->address, addressLen); offset += addressLen;`
unfoldable pub put_address : Option Bytes → ℕ → Cursor → Outcome Cursor
put_address none address_len c = ok c
put_address (some a) address_len c = do b ← read_block address_len a; put b.0 c

-- The loop over the entries from i on, with the rounds left.
unfoldable pub put_entries : ℕ → ℕ → List (Option OrderEntry) → Cursor → Outcome Cursor
put_entries zero i items c = ok c
put_entries (suc rounds) i items c = do
  e ← entry_at items i
  c1 ← put (int_bytes e.product_id) c
  c2 ← put (int_bytes e.quantity) c1
  c3 ← put (float_bytes e.price) c2
  put_entries rounds (suc i) items c3

-- The block that `*dest` points to; `sizeof(struct order_entry_t)` is 12.
unfoldable pub order_serialize : (ℕ → ℕ) → Order → Outcome Bytes
unfolding address_size put_address put_entries
order_serialize junk o = do
  address_len ← address_size o.address
  let total_len = (8 + address_len + 4 + to_size o.num_entries * 12) % 2 ^ 64
  c1 ← put (size_bytes address_len) (record { block = malloc junk total_len; offset = 0 })
  c2 ← put_address o.address address_len c1
  c3 ← put (int_bytes o.num_entries) c2
  c4 ← put_entries (pos_part o.num_entries) 0 o.items c3
  ok c4.block

-- The address and the pointer behind it. An address is copied into a block of `addressLen` bytes.
unfoldable pub read_address : (ℕ → ℕ) → ℕ → Bytes → Outcome (Option Bytes × Bytes)
read_address junk zero p = ok (none, p)
read_address junk (suc n) p = do
  a ← strncpy (malloc junk (suc n)) p (suc n)
  b ← read_block (suc n) p
  ok (some a, b.1)

-- The loop over the entries from i on: the array once the fresh entries are in it.
unfoldable pub read_entries :
    ℕ → ℕ → List (Option OrderEntry) → Bytes → Outcome (List (Option OrderEntry))
read_entries zero i items p = ok items
read_entries (suc rounds) i items p = do
  product_id ← read_int p
  quantity ← read_int product_id.1
  price ← read_float quantity.1
  items' ←
      set_item items i
        (record { product_id = product_id.0; quantity = quantity.0; price = price.0 })
  read_entries rounds (suc i) items' price.1

unfoldable pub order_unserialize : (ℕ → ℕ) → Bytes → Outcome Order
unfolding read_address read_entries
order_unserialize junk p = do
  address_len ← read_size p
  address ← read_address junk address_len.0 address_len.1
  num_entries ← read_int address.1
  items ← read_entries (pos_part num_entries.0) 0 order_new.items num_entries.1
  ok (record { address = address.0; num_entries = num_entries.0; items = items })
