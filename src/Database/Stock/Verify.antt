-- ===== src/Database/Stock/Verify.antt =====
-- What verifying an order finds and changes.
use os_tp.Base.{
  ◌+◌, ◌≡◌, refl, sym, ap, ◌∙◌, subst, inl, inr, Bool, true, false, ◌&&◌, not, some, List, [], ◌∷◌,
  ◌++◌, append-nil, append_assoc, arith, Bytes, length, length-append, take, take-append_length,
  All, ℤ, ltb_ℤ, IsInt, of_word-to_word, ok, bind-ok, Bool-cases, pos_part,
}
use os_tp.Io.{lift-ok}
use os_tp.Decimal.{codes, print_int, count_digits}
use os_tp.Decimal.Laws.{count_digits-eq-length, strtol-print_int}
use os_tp.Order.{OrderEntry, Order}
use os_tp.Order.View.{Represents, Represents-get, Represents-replace, length-next}
use os_tp.Database.Shelf.{Stock, HasProduct, available, is_short, clamp, clamps, all_enough}
use os_tp.Database.Engine.{Engine, Products, select_stock}
use os_tp.Database.Stock.{
  store_numbers, stock_query, get_stock, get_entry, verify_entry, verify_loop, verify_order_stock,
}

-- The buffer of `get_stock` is just large enough for its query.
and_assoc : (a b c : Bool) → ((a && b) && c) ≡ (a && (b && c))
and_assoc true b c = refl
and_assoc false b c = refl

not_short_itself : (s : ℤ) → ltb_ℤ s s ≡ false
not_short_itself s = ground arith

query_whole :
    (base : Bytes) (id : ℤ)
    → take (length base + count_digits id) (base ++ print_int id) ≡ base ++ print_int id
query_whole base id =
    ap (λ n. take n (base ++ print_int id)) size
    ∙ ap (take (length (base ++ print_int id))) (sym (append-nil (base ++ print_int id)))
    ∙ take-append_length (base ++ print_int id) []
  where
    size : length base + count_digits id ≡ length (base ++ print_int id)
    size = omega (arith, count_digits-eq-length id, length-append base (print_int id))

stock_query-eq : (id : ℤ) → stock_query id ≡ select_stock id
unfolding stock_query select_stock
stock_query-eq id = query_whole (codes "SELECT quantity FROM products WHERE id=") id

pub get_entry-Represents :
    {o : Order} (pre post : List OrderEntry) (e : OrderEntry)
    → Represents o (pre ++ e ∷ post)
    → get_entry o (length pre) ≡ ok e
unfolding get_entry
get_entry-Represents pre post e r = rw (Represents-get pre post e r) refl

module _ (S : Engine) (products : Products S) where
  open S use {Db, exec}
  open products use {stock, select_law}

  -- `get_stock` gives the stock of a product that the table has.
  pub get_stock-stock :
      (garbage id s : ℤ) (db : Db)
      → stock db id ≡ some s
      → IsInt s
      → get_stock S garbage id db ≡ ok (s, db)
  unfolding get_stock store_numbers
  get_stock-stock garbage id s db here fits =
      rw (stock_query-eq id, select_law db id, here)
        (rw (strtol-print_int s, of_word-to_word s fits) refl)

  get_stock-available :
      (garbage : ℤ) (db : Db) (e : OrderEntry)
      → HasProduct (stock db) e
      → get_stock S garbage e.product_id db ≡ ok (available (stock db) e.product_id, db)
  get_stock-available garbage db e (s, here, fits) =
      get_stock-stock garbage e.product_id s db here fits ∙ rw (here, available) refl

  verify_entry-Represents :
      (garbage : ℤ) (db : Db) (pre post : List OrderEntry) (e : OrderEntry) (satisfied : Bool)
      (o : Order)
      → HasProduct (stock db) e
      → Represents o (pre ++ e ∷ post)
      → (o' : Order) × (verify_entry S garbage (length pre) (satisfied, o) db
          ≡ ok ((satisfied && not (is_short (stock db) e), o'), db))
        × Represents o' (pre ++ clamp (stock db) e ∷ post)
        × (o'.address ≡ o.address)
  unfolding verify_entry
  verify_entry-Represents garbage db pre post e satisfied o known r =
      elim (Bool-cases (is_short (stock db) e)) [
        | inl short ↦
            let (items, wrote, r') =
              Represents-replace pre post e
                (record e { quantity = available (stock db) e.product_id }) r in
            (
              record o { items = items },
              bind-ok _ (lift-ok db (get_entry-Represents pre post e r)) (
                  bind-ok _ (get_stock-available garbage db e known)
                    (rw (short, wrote) (ground arith))),
              rw short r',
              refl,
            )
        | inr enough ↦ (
          o,
          bind-ok _ (lift-ok db (get_entry-Represents pre post e r))
              (bind-ok _ (get_stock-available garbage db e known) (rw enough (ground arith))),
          rw enough r,
          refl,
        )
      ]

  verify_loop-Represents :
      (garbage : ℤ) (db : Db) (pre es : List OrderEntry) (satisfied : Bool) (o : Order)
      → All (HasProduct (stock db)) es
      → Represents o (pre ++ es)
      → (o' : Order) × (verify_loop S garbage (length es) (length pre) (satisfied, o) db
          ≡ ok ((satisfied && all_enough (stock db) es, o'), db))
        × Represents o' (pre ++ clamps (stock db) es)
        × (o'.address ≡ o.address)
  unfolding verify_loop
  verify_loop-Represents garbage db pre [] satisfied o known r = (o, ground arith, r, refl)
  verify_loop-Represents garbage db pre (e ∷ es) satisfied o known r =
      let (o1, ran1, r1, kept1) =
        verify_entry-Represents garbage db pre es e satisfied o known.0 r in
      let (o2, ran2, r2, kept2) =
        verify_loop-Represents garbage db (pre ++ clamp (stock db) e ∷ []) es
          (satisfied && not (is_short (stock db) e)) o1 known.1
          (subst (Represents o1) (sym (append_assoc pre (clamp (stock db) e ∷ []) es)) r1) in
      (
        o2,
        bind-ok _ ran1 (
            (rw (length-next pre (clamp (stock db) e)) at ran2)
            ∙ ap (λ b. ok ((b, o2), db))
                (and_assoc satisfied (not (is_short (stock db) e)) (all_enough (stock db) es))),
        subst (Represents o2) (append_assoc pre (clamp (stock db) e ∷ []) (clamps (stock db) es))
            r2,
        kept2 ∙ kept1,
      )

  -- For an order with the entries `es`, each of a product in the table with a stock that an `int`
  -- holds, `verifyOrderStock` returns 1 exactly if no entry asks for more than the stock of its
  -- product; the order is then the one whose entries ask for the smaller of what they asked for
  -- and the stock, with its address as before. The database is not changed.
  pub verify_order_stock-clamps :
      (garbage : ℤ) (db : Db) (o : Order) (es : List OrderEntry)
      → All (HasProduct (stock db)) es
      → Represents o es
      → (o' : Order) × (verify_order_stock S garbage o db ≡ ok ((all_enough (stock db) es, o'), db))
        × Represents o' (clamps (stock db) es)
        × (o'.address ≡ o.address)
  unfolding verify_order_stock
  verify_order_stock-clamps garbage db o es known r =
      let (o', ran, r', kept) = verify_loop-Represents garbage db [] es true o known r in
      (
        o',
        ap (λ n. verify_loop S garbage n 0 (true, o) db) (ap pos_part r.count_is) ∙ ran,
        r',
        kept,
      )

-- What verifying leaves can be satisfied entry by entry, whatever was asked for.
pub all_enough-clamps :
    (stock : Stock) (es : List OrderEntry) → all_enough stock (clamps stock es) ≡ true
all_enough-clamps stock [] = refl
all_enough-clamps stock (e ∷ es) = elim (Bool-cases (is_short stock e)) [
  | inl short ↦
      rw (short)
        (rw (not_short_itself (available stock e.product_id), all_enough-clamps stock es) refl)
  | inr enough ↦ rw enough (rw (enough, all_enough-clamps stock es) refl)
]

-- If every entry is satisfied, verifying leaves the entries as they are.
pub clamps-eq_self :
    (stock : Stock) (es : List OrderEntry) → all_enough stock es ≡ true → clamps stock es ≡ es
clamps-eq_self stock [] h = refl
clamps-eq_self stock (e ∷ es) h = ground (arith, clamps-eq_self stock es)
