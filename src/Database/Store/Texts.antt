-- ===== src/Database/Store/Texts.antt =====
-- The texts of the queries that `store_verified_order` runs.
use os_tp.Base.{
  ℕ, ◌+◌, ◌<◌, ◌≡◌, refl, sym, ap, ◌∙◌, some, [], ◌∷◌, ◌++◌, arith, Bytes, length, length-append,
  All-append, ℤ, IsInt, ok, bind-ok,
}
use os_tp.Memory.{text_of, memcpy, strlen}
use os_tp.Memory.Laws.{text_of-append, are_nonzero-IsText, IsText, strlen-append}
use os_tp.Decimal.{codes, print_int, count_digits}
use os_tp.Decimal.Texts.{length-print_int}
use os_tp.Decimal.Laws.{count_digits-eq-length}
use os_tp.Order.{OrderEntry, Order, order_get_total}
use os_tp.Database.Store.{
  Printing, narrow, insert_order, insert_entry, print_order, print_entry, order_get_address, deref,
}
use os_tp.Database.Store.Queries.{
  narrow-eq_self, print_four, number_then-IsText, length-number_then,
}

-- The queries as they are meant.
unfoldable pub order_text : Bytes → Bytes → ℤ → Bytes
order_text total address timestamp =
    ((insert_order ++ (total ++ codes ",")) ++ (codes "\"" ++ (address ++ codes "\",")))
    ++ (print_int timestamp ++ codes ")")

unfoldable pub entry_text : ℤ → OrderEntry → Bytes
entry_text order_id e =
    ((insert_entry ++ (print_int order_id ++ codes ",")) ++ (print_int e.product_id ++ codes ","))
    ++ (print_int e.quantity ++ codes ")")

insert_entry-IsText : IsText insert_entry
unfolding insert_entry
insert_entry-IsText =
    are_nonzero-IsText (codes "INSERT INTO orderEntry (order_id, product_id, quantity) VALUES (")
      refl

length-insert_entry : length insert_entry ≡ 64
unfolding insert_entry
length-insert_entry = refl

insert_order-IsText : IsText insert_order
unfolding insert_order
insert_order-IsText =
    are_nonzero-IsText (codes "INSERT INTO orders (total, address, `time`) VALUES (") refl

pub length-insert_order : length insert_order ≡ 52
unfolding insert_order
length-insert_order = refl

-- In a block of 1024 bytes `store_verified_order` prints for an entry the query that inserts the
-- order's number, the entry's product and its quantity, in decimal: none of the prints runs out of
-- the block, and each writes over the terminator of the one before. The numbers are such that an
-- `int` holds them.
pub print_entry-entry_text :
    (query : Bytes) (order_id : ℤ) (e : OrderEntry)
    → length query ≡ 1024
    → IsInt order_id
    → IsInt e.product_id
    → IsInt e.quantity
    → (q : Bytes) × (print_entry query order_id e ≡ ok q)
      × (text_of q ≡ ok (entry_text order_id e))
      × (length q ≡ 1024)
unfolding print_entry entry_text
print_entry-entry_text query order_id e size id_fits product_fits quantity_fits =
    let b_size = length-number_then order_id b',' in
    let c_size = length-number_then e.product_id b',' in
    let d_size = length-number_then e.quantity b')' in
    let (q1, q2, q3, q4, q5, r1, r2, r3, r4, r5, text, size5) =
      print_four query insert_entry (print_int order_id ++ codes ",")
        (print_int e.product_id ++ codes ",") (print_int e.quantity ++ codes ")")
        (length insert_entry) (length insert_entry + (count_digits (narrow order_id) + 1))
        (length insert_entry
          + (count_digits (narrow order_id) + 1)
          + (count_digits e.product_id + 1))
        1024 size refl (omega (arith, b_size, ap count_digits (narrow-eq_self order_id id_fits)))
        (omega (arith, c_size))
        (omega (
          arith,
          b_size,
          c_size,
          d_size,
          length-insert_entry,
          count_digits-eq-length order_id,
          count_digits-eq-length e.product_id,
          count_digits-eq-length e.quantity,
          length-print_int order_id id_fits,
          length-print_int e.product_id product_fits,
          length-print_int e.quantity quantity_fits,
        ))
        insert_entry-IsText (number_then-IsText order_id b',' (omega arith))
        (number_then-IsText e.product_id b',' (omega arith))
        (number_then-IsText e.quantity b')' (omega arith)) in
    (
      q5,
      bind-ok _ r1 (
          bind-ok _ r2 (
            bind-ok _ r3
              (bind-ok _ r4 (ap (λ n. memcpy q4 n (0 ∷ [])) (ap (◌+◌ _) (sym d_size)) ∙ r5)))),
      text,
      size5,
    )

pub address_is : (o : Order) (a : Bytes) → o.address ≡ some a → deref (order_get_address o) ≡ ok a
address_is o a e = rw e refl

-- In a block of 1024 bytes `store_verified_order` prints for an order with an address the query that
-- inserts its total, its address and the time: none of the prints runs out of the block, and each
-- writes over the terminator of the one before. This is for a total whose text `%.2f` gives with
-- as many digits before the point as `countDigits` finds in it as an `int`, a time that an `int`
-- holds, and an address short enough for the whole to fit.
pub print_order-order_text :
    (N : Printing) (query : Bytes) (o : Order) (timestamp : ℤ) (total : ℕ) (address text : Bytes)
    → length query ≡ 1024
    → order_get_total N.floats o ≡ ok total
    → IsText (N.print_fixed total)
    → length (N.print_fixed total) ≡ count_digits (N.int_of_float total) + 3
    → o.address ≡ some address
    → address ≡ text ++ 0 ∷ []
    → IsText text
    → IsInt timestamp
    → length (N.print_fixed total) + length text < 950
    → (q : Bytes) × (print_order N query o timestamp ≡ ok q)
      × (text_of q ≡ ok (order_text (N.print_fixed total) text timestamp))
      × (length q ≡ 1024)
unfolding print_order order_text
print_order-order_text N query o timestamp total address text size total_is ht digits here is_text
      hx fits short =
    let b_size = length-append (N.print_fixed total) (codes ",") in
    let c_size = length-append text (codes "\",") in
    let d_size = length-number_then timestamp b')' in
    let (q1, q2, q3, q4, q5, r1, r2, r3, r4, r5, printed, size5) =
      print_four query insert_order (N.print_fixed total ++ codes ",")
        (codes "\"" ++ (text ++ codes "\",")) (print_int timestamp ++ codes ")")
        (length insert_order)
        (length insert_order + (count_digits (N.int_of_float total) + 1 + 2 + 1))
        (length insert_order
          + (count_digits (N.int_of_float total) + 1 + 2 + 1)
          + (1 + length text + 1 + 1))
        1024 size refl (omega (arith, b_size, digits)) (omega (arith, c_size))
        (omega (
          arith,
          b_size,
          c_size,
          d_size,
          length-insert_order,
          count_digits-eq-length timestamp,
          length-print_int timestamp fits,
          short,
        ))
        insert_order-IsText (All-append _ (N.print_fixed total) (codes ",") ht (omega arith, tt))
        (omega arith, All-append _ text (codes "\",") hx (omega arith, (omega arith, tt)))
        (number_then-IsText timestamp b')' (omega arith)) in
    (
      q5,
      bind-ok _ total_is (
          bind-ok _ r1 (
            bind-ok _ r2 (
              bind-ok _ (address_is o address here) (
                bind-ok _ (ap text_of is_text ∙ text_of-append text [] hx) (
                  bind-ok _ r3 (
                    bind-ok _ (ap strlen is_text ∙ strlen-append text [] hx) (
                      bind-ok _ r4 (
                        ap (λ n. memcpy q4 n (0 ∷ []))
                          (ap (◌+◌ _) (
                            ap (λ z. count_digits z + 1) (narrow-eq_self timestamp fits)
                            ∙ sym d_size))
                        ∙ r5)))))))),
      printed,
      size5,
    )
