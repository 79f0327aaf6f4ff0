-- ===== src/Tests/Overflow.antt =====
-- A long address in `store_verified_order` of database/databaseServer.c.
use os_tp.Base.{
  ℕ, zero, suc, ◌≤◌, ◌≡◌, refl, some, none, [], ◌∷◌, ◌++◌, arith, Bytes, length, length-replicate,
  replicate, pos, ok, fault,
}
use os_tp.Memory.Laws.{IsText}
use os_tp.Order.{Order, order_get_total}
use os_tp.Database.Store.{store_verified_order}
use os_tp.Database.Store.Overflow.{store_verified_order-overflow}
use os_tp.Tests.Shop.{shop, row_number, whole_floats, whole_prints}
use os_tp.Tests.Database.{gins, eighty_size, total_text, old_memory}

abbrev long_street : Bytes
long_street = replicate 1000 77

letters-IsText : (n : ℕ) → IsText (replicate n 77)
letters-IsText zero = tt
letters-IsText (suc n) = (omega arith, letters-IsText n)

abbrev far_party : Order
far_party = record {
  address = some (long_street ++ 0 ∷ []);
  num_entries = pos 1;
  items = some gins ∷ replicate 15 none;
}

far_total : order_get_total whole_floats far_party ≡ ok 80
unfolding order_get_total
far_total = refl

long_size : 970 ≤ length long_street
long_size = let letter : ℕ = 77 in omega (arith, length-replicate 1000 letter)

store_verified_order-overflow_example :
    store_verified_order shop row_number whole_prints old_memory (pos 1479) far_party (pos 30)
    ≡ fault
store_verified_order-overflow_example =
    store_verified_order-overflow shop row_number whole_prints old_memory (pos 1479) far_party 80
      long_street (pos 30) far_total eighty_size (omega (arith, total_text)) refl
      (letters-IsText 1000) long_size
