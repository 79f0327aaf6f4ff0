-- ===== src/Product.antt =====
-- common/product.c: a product, its serialized form, and its fields.
-- `name` and `description` are the blocks that the pointers lead to, terminator included; `price`
-- is the 32-bit pattern of the float. `junk` is what fresh memory holds.
pub mod Codec
pub mod Printing
use os_tp.Base.{
  ℕ, zero, suc, ◌+◌, Bool, true, false, Bytes, ◌++◌, length, ℤ, pos, negsuc, to_size, ltb_ℤ,
  Outcome, ok, ◌>>=◌, if◌then◌else◌, ltb, ◌^◌, fault,
}
use os_tp.Memory.{malloc, strlen, strncpy, read_block, Cursor, put}
use os_tp.Encoding.{int_bytes, float_bytes, read_int, read_float}

pub record Product : Type 0 where
  pub id : ℤ
  pub name : Bytes
  pub description : Bytes
  pub price : ℕ
  pub stock : ℤ

unfoldable pub product_new : (ℕ → ℕ) → ℤ → Bytes → Bytes → ℕ → ℤ → Outcome Product
product_new junk id name description price stock = do
  name_len ← strlen name
  descr_len ← strlen description
  let name_size = suc name_len
  let descr_size = suc descr_len
  n ← strncpy (malloc junk name_size) name name_size
  d ← strncpy (malloc junk descr_size) description descr_size
  ok (record { id = id; name = n; description = d; price = price; stock = stock })

-- `offset` is an `int`, and an addition past its range is undefined: it only grows, so its last value
-- decides.
unfoldable pub int_offset : ℕ → Outcome (Unit {0})
int_offset last = if ltb last (2 ^ 31) then ok tt else fault

-- The block that `*dest` points to; its length is the size that the function returns.
unfoldable pub product_serialize : (ℕ → ℕ) → Product → Outcome Bytes
unfolding int_offset
product_serialize junk p = do
  n ← strlen p.name
  d ← strlen p.description
  let name_len = suc n
  let descr_len = suc d
  let total_len = 4 + 4 + name_len + 4 + descr_len + 4 + 4
  let dest = malloc junk total_len
  name ← read_block name_len p.name
  description ← read_block descr_len p.description
  in_range ← int_offset (name_len + descr_len + 16)
  c1 ← put (int_bytes p.id) (record { block = dest; offset = 0 })
  c2 ← put (int_bytes (pos name_len)) c1
  c3 ← put name.0 c2
  c4 ← put (int_bytes (pos descr_len)) c3
  c5 ← put description.0 c4
  c6 ← put (float_bytes p.price) c5
  c7 ← put (int_bytes p.stock) c6
  ok c7.block

unfoldable pub product_unserialize : Bytes → Outcome Product
unfolding int_offset
product_unserialize p0 = do
  id ← read_int p0
  name_len ← read_int id.1
  name ← read_block (to_size name_len.0) name_len.1
  descr_len ← read_int name.1
  description ← read_block (to_size descr_len.0) descr_len.1
  in_range ← int_offset (to_size name_len.0 + to_size descr_len.0 + 16)
  price ← read_float description.1
  stock ← read_int price.1
  ok (record {
    id = id.0;
    name = name.0;
    description = description.0;
    price = price.0;
    stock = stock.0;
  })

abbrev pub product_get_id : Product → ℤ
product_get_id p = p.id

abbrev pub product_get_name : Product → Bytes
product_get_name p = p.name

abbrev pub product_get_description : Product → Bytes
product_get_description p = p.description

abbrev pub product_get_price : Product → ℕ
product_get_price p = p.price

abbrev pub product_get_stock : Product → ℤ
product_get_stock p = p.stock

-- The flag is the 1 or 0 that the function returns.
unfoldable pub product_set_stock : Product → ℤ → Bool × Product
product_set_stock p new_stock =
    if ltb_ℤ new_stock (pos 0) then (false, p) else (true, record p { stock = new_stock })
