-- ===== src/Database/Store/Overflow.antt =====
-- What `store_verified_order` does with a long address.
use os_tp.Base.{
  ℕ, zero, suc, ◌+◌, ◌≤◌, ◌<◌, ◌≡◌, refl, some, [], ◌∷◌, ◌++◌, arith, Bytes, length, length-append,
  ℤ, ok, fault, bind-ok,
}
use os_tp.Memory.{malloc, overwrite, memcpy}
use os_tp.Memory.Laws.{text_of-append, IsText, length-malloc}
use os_tp.Decimal.{codes, count_digits}
use os_tp.Order.{Order, order_get_total}
use os_tp.Database.Engine.{Engine}
use os_tp.Database.Store.{Printing, print_at, insert_order, print_order, store_verified_order}
use os_tp.Database.Store.Queries.{print_at-Printed}
use os_tp.Database.Store.Texts.{address_is, length-insert_order}

overwrite-overflow : (b src : Bytes) → length b < length src → overwrite b src ≡ fault
unfolding overwrite
overwrite-overflow b [] h = absurd (omega arith)
overwrite-overflow [] (y ∷ src) h = refl
overwrite-overflow (x ∷ b) (y ∷ src) h = rw (overwrite-overflow b src (omega arith)) refl

memcpy-overflow :
    (b : Bytes) (offset : ℕ) (src : Bytes)
    → length b < offset + length src
    → memcpy b offset src ≡ fault
unfolding memcpy
memcpy-overflow b zero src h = overwrite-overflow b src (omega arith)
memcpy-overflow [] (suc offset) src h = refl
memcpy-overflow (x ∷ b) (suc offset) src h = rw (memcpy-overflow b offset src (omega arith)) refl

print_at-overflow :
    (b : Bytes) (offset : ℕ) (text : Bytes)
    → length b ≤ offset + length text
    → print_at b offset text ≡ fault
unfolding print_at
print_at-overflow b offset text h =
    memcpy-overflow b offset (text ++ 0 ∷ []) (omega (arith, length-append text (0 ∷ [])))

print_order-overflow :
    (N : Printing) (query : Bytes) (o : Order) (timestamp : ℤ) (total : ℕ) (text : Bytes)
    → length query ≡ 1024
    → order_get_total N.floats o ≡ ok total
    → length (N.print_fixed total) ≡ count_digits (N.int_of_float total) + 3
    → length (N.print_fixed total) < 900
    → o.address ≡ some (text ++ 0 ∷ [])
    → IsText text
    → 970 ≤ length text
    → print_order N query o timestamp ≡ fault
unfolding print_order
print_order-overflow N query o timestamp total text size total_is digits short here is_text long =
    let b_size = length-append (N.print_fixed total) (codes ",") in
    let c_size = length-append text (codes "\",") in
    let (q1, r1, p1) =
      print_at-Printed [] insert_order 0 1024 refl (omega (arith, length-insert_order))
        (record { rest = query; query_is = refl; size_is = size }) in
    let (q2, r2, p2) =
      print_at-Printed insert_order (N.print_fixed total ++ codes ",") (length insert_order) 1024
        refl (omega (arith, length-insert_order, b_size)) p1 in
    bind-ok _ total_is (
      bind-ok _ r1 (
        bind-ok _ r2 (
          bind-ok _ (address_is o (text ++ 0 ∷ []) here) (
            bind-ok _ (text_of-append text [] is_text) (
              rw
                (print_at-overflow q2
                  (length insert_order + (count_digits (N.int_of_float total) + 1 + 2 + 1))
                  (codes "\"" ++ (text ++ codes "\","))
                  (omega (arith, p2.size_is, c_size, length-insert_order)))
                refl)))))

-- For an order whose address has 970 characters or more, and whose total is printed with as many
-- digits before the point as `countDigits` finds in it as an `int` and in less than 900 characters,
-- `store_verified_order` writes past its buffer of 1024 bytes.
pub store_verified_order-overflow :
    (S : Engine) (last_insert_rowid : S.Db → ℤ) (N : Printing) (junk : ℕ → ℕ) (timestamp : ℤ)
    (o : Order) (total : ℕ) (text : Bytes) (db : S.Db)
    → order_get_total N.floats o ≡ ok total
    → length (N.print_fixed total) ≡ count_digits (N.int_of_float total) + 3
    → length (N.print_fixed total) < 900
    → o.address ≡ some (text ++ 0 ∷ [])
    → IsText text
    → 970 ≤ length text
    → store_verified_order S last_insert_rowid N junk timestamp o db ≡ fault
unfolding store_verified_order
store_verified_order-overflow S last_insert_rowid N junk timestamp o total text db total_is digits
      short here is_text long =
    rw
      (print_order-overflow N (malloc junk 1024) o timestamp total text (length-malloc junk 1024)
        total_is digits short here is_text long)
      refl
