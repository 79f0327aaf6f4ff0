-- ===== src/Tests/Database.antt =====
-- The database server of database/databaseServer.c on a shop with one product.
use os_tp.Database.Store.Texts.{order_text}
use os_tp.Database.Shelf.{left_over}
use os_tp.Base.{
  ℕ, ◌+◌, ◌≡◌, ◌≢◌, refl, false, some, none, [], ◌∷◌, ◌++◌, arith, Bytes, length, replicate, ℤ, pos,
  ok, All, List,
}
use os_tp.Decimal.{print_int, print_nat, digits_from, codes, count_digits, digits_loop}
use os_tp.Encoding.{int_bytes, size_bytes, float_bytes, to_bytes}
use os_tp.Order.{OrderEntry, Order, order_get_total}
use os_tp.Order.View.{Represents}
use os_tp.Order.Search.{has}
use os_tp.Order.Serial.Write.{IsOrder, layout}
use os_tp.Comm.Frames.{frame}
use os_tp.Database.Stock.{verify_order_stock}
use os_tp.Database.Stock.Verify.{verify_order_stock-clamps}
use os_tp.Database.Store.{store_verified_order}
use os_tp.Database.Store.Inserts.{insert_entries, store_verified_order-stock}
use os_tp.Database.Place.{place_order, message_ok, message_unsatisfiable_order}
use os_tp.Database.Place.Replies.{place_order-unsatisfiable}
use os_tp.Database.Place.Accepted.{IsSound, place_order-satisfiable}
use os_tp.Tests.Shop.{
  shop, shop_stock, gin_products, row_number, shop_inserts, whole_floats, whole_prints,
  whole_prints-IsPlain, pipes, pipe_channel,
}

abbrev pub old_memory : ℕ → ℕ
old_memory i = 170

abbrev pub gins : OrderEntry
gins = record { product_id = pos 2; quantity = pos 2; price = 40 }

abbrev corner : Bytes
corner = 77 ∷ 52 ∷ []

abbrev pub party : Order
party = record {
  address = some (corner ++ 0 ∷ []);
  num_entries = pos 1;
  items = some gins ∷ replicate 15 none;
}

party-Represents : Represents party (gins ∷ [])
party-Represents = record { count_is = refl; items_are = refl; within = omega arith }

party-IsOrder : IsOrder party (gins ∷ [])
party-IsOrder = record {
  represents = party-Represents;
  address_is = record { text = corner; is_text = omega arith; whole = refl; fits = omega arith };
  entries_fit = omega arith;
}

party_total : order_get_total whole_floats party ≡ ok 80
unfolding order_get_total
party_total = refl

pub total_text : length (print_int (pos 80) ++ codes ".00") ≡ 5
unfolding print_int print_nat digits_from
total_text = refl

pub party_size : length (layout party.address (gins ∷ [])) ≡ 27
unfolding size_bytes int_bytes float_bytes to_bytes
party_size = refl

-- One gin is left of the two that are asked for.
abbrev last_gin : List OrderEntry
last_gin = record gins { quantity = pos 1 } ∷ []

last_size : length (layout party.address last_gin) ≡ 27
unfolding size_bytes int_bytes float_bytes to_bytes
last_size = refl

alone : has (pos 2) [] ≡ false
unfolding has
alone = refl

pub party-IsSound : IsSound whole_prints party (gins ∷ [])
party-IsSound = record {
  is_order = party-IsOrder;
  asked = ((2, refl), tt);
  unique = (alone, tt);
  total = 80;
  total_is = party_total;
  plain = whole_prints-IsPlain 80;
  text = corner;
  address_is = refl;
  is_text = omega arith;
  unquoted = omega arith;
  short = omega (arith, total_text);
}

abbrev arriving : Bytes
arriving = frame (layout party.address (gins ∷ [])) ++ 9 ∷ []

place_order-satisfiable_example :
    (w' : Bytes × Bytes) × (db' : ℤ) × (place_order pipes 100 shop row_number whole_prints
        old_memory
        (pos 0)
        (pos 1479)
        0
        1
        ((arriving, []), pos 30)
      ≡ ok (tt, (w', db')))
    × (w' ≡ (9 ∷ [], [] ++ int_bytes message_ok))
    × ((j : ℤ) → shop_stock db' j ≡ left_over (gins ∷ []) j (shop_stock (pos 30) j))
place_order-satisfiable_example =
    place_order-satisfiable pipes 100 shop 0 1 pipe_channel gin_products row_number shop_inserts
      whole_prints old_memory (pos 0) (pos 1479) party (gins ∷ []) (9 ∷ []) [] (arriving, [])
      (pos 30) tt (omega arith) party-IsSound ((pos 30, refl, omega arith), tt) refl (omega arith)
      (omega (arith, party_size)) (omega (arith, party_size)) refl

place_order-unsatisfiable_example :
    (w' : Bytes × Bytes) × (place_order pipes 100 shop row_number whole_prints old_memory
        (pos 0)
        (pos 1479)
        0
        1
        ((arriving, []), pos 1)
      ≡ ok (tt, (w', pos 1)))
    × (w' ≡ (
      9 ∷ [],
      [] ++ (int_bytes message_unsatisfiable_order ++ frame (layout party.address last_gin)),
    ))
place_order-unsatisfiable_example =
    place_order-unsatisfiable pipes 100 shop 0 1 pipe_channel gin_products row_number whole_prints
      old_memory (pos 0) (pos 1479) party (gins ∷ []) (9 ∷ []) [] (arriving, []) (pos 1)
      party-IsOrder ((pos 1, refl, omega arith), tt) refl (omega arith) (omega (arith, party_size))
      (omega (arith, party_size)) (omega (arith, last_size)) refl

verify_order_stock-clamps_example :
    (o' : Order) × (verify_order_stock shop (pos 0) party (pos 1) ≡ ok ((false, o'), pos 1))
    × Represents o' last_gin
    × (o'.address ≡ party.address)
verify_order_stock-clamps_example =
    verify_order_stock-clamps shop gin_products (pos 0) (pos 1) party (gins ∷ [])
      ((pos 1, refl, omega arith), tt) party-Represents

store_verified_order-stock_example :
    (n : ℕ) × (db' : ℤ) × (store_verified_order shop row_number whole_prints old_memory
        (pos 1479)
        party
        (pos 30)
      ≡ ok (pos n, db'))
    × (row_number
          (shop.exec (order_text (whole_prints.print_fixed 80) corner (pos 1479)) (pos 30)).2
        ≡ pos n)
    × (db'
        ≡ insert_entries shop gin_products row_number shop_inserts whole_prints
            (pos n)
            (gins ∷ [])
            (shop.exec (order_text (whole_prints.print_fixed 80) corner (pos 1479)) (pos 30)).2)
    × ((j : ℤ) → shop_stock db' j ≡ shop_stock (pos 30) j)
store_verified_order-stock_example =
    store_verified_order-stock shop gin_products row_number shop_inserts whole_prints old_memory
      (pos 1479) party (gins ∷ []) 80 corner (pos 30) tt party-Represents (omega arith) party_total
      (whole_prints-IsPlain 80) refl (omega arith) (omega arith) (omega arith)
      (omega (arith, total_text))

eighty-IsText : All (λ c. c ≢ 0) (print_int (pos 80) ++ codes ".00")
unfolding print_int print_nat digits_from
eighty-IsText = omega arith

pub eighty_size : length (print_int (pos 80) ++ codes ".00") ≡ count_digits (pos 80) + 3
unfolding print_int print_nat digits_from count_digits digits_loop
eighty_size = refl
