-- ===== src/Tests/Order.antt =====
-- Orders of common/order.c at concrete values.
use os_tp.Base.{
  ℕ, ◌≡◌, refl, ◌⊎◌, true, false, none, some, [], ◌∷◌, ◌++◌, arith, Bytes, length, replicate, pos,
  ok, fault, add_int, to_word, of_word,
}
use os_tp.Encoding.{int_bytes, size_bytes}
use os_tp.Order.{OrderEntry, Order, order_add}
use os_tp.Order.View.{Represents}
use os_tp.Order.Search.{add_to, takes}
use os_tp.Order.Add.{order_add-Represents}
use os_tp.Order.Serial.{order_unserialize}
use os_tp.Order.Serial.Write.{IsOrder, address_bytes}
use os_tp.Order.Serial.Overflow.{order_unserialize-overflow}

abbrev pub rubbish : ℕ → ℕ
rubbish i = 205

abbrev pub two_gins : OrderEntry
two_gins = record { product_id = pos 2; quantity = pos 2; price = 0x42200000 }

abbrev pub street : Bytes
street = 77 ∷ 52 ∷ 0 ∷ []

abbrev pub small : Order
small = record {
  address = some street;
  num_entries = pos 1;
  items = some two_gins ∷ replicate 15 none;
}

pub small-Represents : Represents small (two_gins ∷ [])
small-Represents = record { count_is = refl; items_are = refl; within = omega arith }

pub small-IsOrder : IsOrder small (two_gins ∷ [])
small-IsOrder = record {
  represents = small-Represents;
  address_is = record {
    text = 77 ∷ 52 ∷ [];
    is_text = omega arith;
    whole = refl;
    fits = omega arith;
  };
  entries_fit = omega arith;
}

one_more_gin :
    order_add small (pos 2) (pos 1) 7
    ≡ ok (
      true,
      record small { items = some (record two_gins { quantity = pos 3 }) ∷ replicate 15 none },
    )
unfolding order_add add_int to_word of_word
one_more_gin = refl

order_add-Represents_example :
    ((takes (pos 3) (two_gins ∷ []) ≡ true)
      × ((o' : Order) × (order_add small (pos 3) (pos 1) 7 ≡ ok (true, o'))
          × Represents o' (add_to (two_gins ∷ []) (pos 3) (pos 1) 7)
          × (o'.address ≡ some street)))
    ⊎ ((takes (pos 3) (two_gins ∷ []) ≡ false)
        × (order_add small (pos 3) (pos 1) 7 ≡ ok (false, small)))
order_add-Represents_example =
    order_add-Represents small (two_gins ∷ []) (pos 3) (pos 1) 7 small-Represents

order_unserialize-overflow_example :
    order_unserialize rubbish (
      size_bytes (length (address_bytes none))
      ++ (address_bytes none ++ (int_bytes (pos 17) ++ replicate 300 0)))
    ≡ fault
order_unserialize-overflow_example =
    order_unserialize-overflow rubbish none 17 (replicate 300 0) tt (omega arith) (omega arith)
