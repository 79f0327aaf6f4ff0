-- ===== src/Database/Store/Inserts.antt =====
-- What `store_verified_order` does to the database, where SQLite carries out its queries.
use os_tp.Base.{
  ℕ, suc, ◌+◌, ◌<◌, ◌≡◌, ◌≢◌, refl, sym, ap, ◌∙◌, subst, true, List, [], ◌∷◌, ◌++◌, append_assoc,
  arith, All, Bytes, length, length-append, ℤ, pos, pos_part, IsInt, ok, bind-ok, some, ◌^◌,
  All-append,
}
use os_tp.Io.{lift-ok}
use os_tp.Memory.{text_of, malloc}
use os_tp.Memory.Laws.{IsText, length-malloc}
use os_tp.Decimal.{is_digit, print_int, count_digits}
use os_tp.Decimal.Texts.{print_int-IsText}
use os_tp.Decimal.Laws.{count_digits-eq-length}
use os_tp.Order.{OrderEntry, Order, order_get_total}
use os_tp.Order.View.{Represents, length-next}
use os_tp.Order.Serial.Write.{EntryFits}
use os_tp.Database.Engine.{Engine, Products}
use os_tp.Database.Stock.{get_entry, run_query}
use os_tp.Database.Stock.Verify.{get_entry-Represents}
use os_tp.Database.Store.{Printing, print_entry, print_order, store_entries, store_verified_order}
use os_tp.Database.Store.Texts.{
  order_text, entry_text, print_entry-entry_text, print_order-order_text,
}

-- `%.2f` prints a total as the digits of its whole part, the point and two digits: so it does
-- unless it rounds up to the next whole number.
abbrev pub IsPlain : Printing → ℕ → Type 0
IsPlain N total =
    (x : ℕ) × (y : ℕ) × (is_digit x ≡ true)
    × (is_digit y ≡ true)
    × (N.print_fixed total ≡ print_int (N.int_of_float total) ++ b'.' ∷ x ∷ y ∷ [])

-- What the manual says of the inserts, for a database that has room: an insert in the other tables
-- succeeds and does not touch `products`. An address has no quotation mark, which would end its
-- string. A new order gets a number that is not negative, and that an `int` holds while there is
-- room.
pub record Inserts (S : Engine) (products : Products S) (last_insert_rowid : S.Db → ℤ)
    : Type 1 where
  pub HasRoom : S.Db → Type 0
  pub insert_order_law :
      (db : S.Db) (N : Printing) (total : ℕ) (address : Bytes) (timestamp : ℤ)
      → HasRoom db
      → IsPlain N total
      → All (λ c. c ≢ b'"') address
      → (n : ℕ) × (db' : S.Db) × (S.exec (order_text (N.print_fixed total) address timestamp) db
          ≡ (true, [], db'))
        × (last_insert_rowid db' ≡ pos n)
        × (n < 2 ^ 31)
        × ((j : ℤ) → products.stock db' j ≡ products.stock db j)
  pub insert_entry_law :
      (db : S.Db) (n : ℕ) (e : OrderEntry)
      → (db' : S.Db) × (S.exec (entry_text (pos n) e) db ≡ (true, [], db'))
        × ((j : ℤ) → products.stock db' j ≡ products.stock db j)

IsPlain-IsText : (N : Printing) (total : ℕ) → IsPlain N total → IsText (N.print_fixed total)
IsPlain-IsText N total (x, y, hx, hy, is) = subst IsText (sym is) (
    All-append _ (print_int (N.int_of_float total)) _ (print_int-IsText (N.int_of_float total))
      (omega arith, (ground (arith, hx), (ground (arith, hy), tt))))

IsPlain-length :
    (N : Printing) (total : ℕ)
    → IsPlain N total
    → length (N.print_fixed total) ≡ count_digits (N.int_of_float total) + 3
IsPlain-length N total (x, y, hx, hy, is) = omega (
  arith,
  ap length is,
  count_digits-eq-length (N.int_of_float total),
  length-append (print_int (N.int_of_float total)) (b'.' ∷ x ∷ y ∷ []),
)

module _ (S : Engine) (products : Products S) (last_insert_rowid : S.Db → ℤ)
    (inserts : Inserts S products last_insert_rowid) (N : Printing) where
  open S use {Db, exec}
  open products use {stock}
  open inserts use {HasRoom, insert_order_law, insert_entry_law}

  -- The database once the entries of the order with this number are inserted, one after the other.
  abbrev pub insert_entries : ℤ → List OrderEntry → Db → Db
  insert_entries order_id [] db = db
  insert_entries order_id (e ∷ es) db =
      insert_entries order_id es (exec (entry_text order_id e) db).2

  store_entries-next :
      (rounds i : ℕ) (order_id : ℤ) (o : Order) (query printed : Bytes) (e : OrderEntry)
      (db db' : Db)
      → get_entry o i ≡ ok e
      → print_entry query order_id e ≡ ok printed
      → text_of printed ≡ ok (entry_text order_id e)
      → exec (entry_text order_id e) db ≡ (true, [], db')
      → store_entries S last_insert_rowid N (suc rounds) i order_id o query db
        ≡ store_entries S last_insert_rowid N rounds (suc i) order_id o printed db'
  unfolding store_entries run_query
  store_entries-next rounds i order_id o query printed e db db' here prints text ran =
      bind-ok _ (lift-ok db here)
        (bind-ok _ (lift-ok db prints) (bind-ok _ (lift-ok db text) (rw ran refl)))

  store_entries-stock :
      (n : ℕ) (o : Order) (pre es : List OrderEntry) (query : Bytes) (db : Db)
      → n < 2 ^ 31
      → All EntryFits es
      → Represents o (pre ++ es)
      → length query ≡ 1024
      → (db' : Db) × (store_entries S last_insert_rowid N
            (length es)
            (length pre)
            (pos n)
            o
            query
            db
          ≡ ok (true, db'))
        × (db' ≡ insert_entries (pos n) es db)
        × ((j : ℤ) → stock db' j ≡ stock db j)
  unfolding store_entries
  store_entries-stock n o pre [] query db small fit r size = (db, refl, refl, λ j. refl)
  store_entries-stock n o pre (e ∷ es) query db small fit r size =
      let (printed, prints, text, size') =
        print_entry-entry_text query (pos n) e size (omega arith) fit.0.0 fit.0.1 in
      let (db1, ran1, same1) = insert_entry_law db n e in
      let (db2, ran2, is2, same2) =
        store_entries-stock n o (pre ++ e ∷ []) es printed db1 small fit.1
          (subst (Represents o) (sym (append_assoc pre (e ∷ []) es)) r) size' in
      (
        db2,
        store_entries-next (length es) (length pre) (pos n) o query printed e db db1
              (get_entry-Represents pre es e r) prints text ran1
            ∙ (rw length-next at ran2),
        is2 ∙ ap (λ x. insert_entries (pos n) es x.2) (sym ran1),
        λ j. same2 j ∙ same1 j,
      )

  store_verified_order-next :
      (junk : ℕ → ℕ) (timestamp : ℤ) (o : Order) (printed text : Bytes) (id : ℤ) (count : ℕ)
      (db db1 db2 : Db)
      → print_order N (malloc junk 1024) o timestamp ≡ ok printed
      → text_of printed ≡ ok text
      → exec text db ≡ (true, [], db1)
      → last_insert_rowid db1 ≡ id
      → pos_part o.num_entries ≡ count
      → store_entries S last_insert_rowid N count 0 id o printed db1 ≡ ok (true, db2)
      → store_verified_order S last_insert_rowid N junk timestamp o db ≡ ok (id, db2)
  unfolding store_verified_order run_query
  store_verified_order-next junk timestamp o printed text id count db db1 db2 prints is ran number
        counted stored =
      bind-ok _ (lift-ok db prints) (
        bind-ok _ (lift-ok db is) (
          rw (ran, number)
            (bind-ok _
              (ap (λ m. store_entries S last_insert_rowid N m 0 id o printed db1) counted ∙ stored)
              refl)))

  -- For an order with an address that has no quotation mark and fits the buffer, a total that is
  -- printed plainly, entries that fit their types, and a time that an `int` holds, in a database
  -- that has room: `store_verified_order` executes the query that inserts the order's total, address
  -- and time, and then for each entry, in their sequence, the query that inserts its product and its
  -- quantity with the number that SQLite gave to the new order; it returns this number, which is not
  -- negative, and executes nothing else; the stock is as it was.
  pub store_verified_order-stock :
      (junk : ℕ → ℕ) (timestamp : ℤ) (o : Order) (es : List OrderEntry) (total : ℕ) (text : Bytes)
      (db : Db)
      → HasRoom db
      → Represents o es
      → All EntryFits es
      → order_get_total N.floats o ≡ ok total
      → IsPlain N total
      → o.address ≡ some (text ++ 0 ∷ [])
      → IsText text
      → All (λ c. c ≢ b'"') text
      → IsInt timestamp
      → length (N.print_fixed total) + length text < 950
      → (n : ℕ) × (db' : Db) × (store_verified_order S last_insert_rowid N junk timestamp o db
          ≡ ok (pos n, db'))
        × (last_insert_rowid (exec (order_text (N.print_fixed total) text timestamp) db).2 ≡ pos n)
        × (db'
            ≡ insert_entries
                (pos n)
                es
                (exec (order_text (N.print_fixed total) text timestamp) db).2)
        × ((j : ℤ) → stock db' j ≡ stock db j)
  store_verified_order-stock junk timestamp o es total text db room r fit total_is plain address
        is_text quoted fits short =
      let (printed, prints, prints_text, size) =
        print_order-order_text N (malloc junk 1024) o timestamp total (text ++ 0 ∷ []) text
          (length-malloc junk 1024) total_is (IsPlain-IsText N total plain)
          (IsPlain-length N total plain) address refl is_text fits short in
      let (n, db1, ran1, number, small, same1) =
        insert_order_law db N total text timestamp room plain quoted in
      let (db2, ran2, is2, same2) = store_entries-stock n o [] es printed db1 small fit r size in
      (
        n,
        db2,
        store_verified_order-next junk timestamp o printed
            (order_text (N.print_fixed total) text timestamp) (pos n) (length es) db db1 db2 prints
            prints_text ran1 number (ap pos_part r.count_is) ran2,
        ap (λ x. last_insert_rowid x.2) ran1 ∙ number,
        is2 ∙ ap (λ x. insert_entries (pos n) es x.2) (sym ran1),
        λ j. same2 j ∙ same1 j,
      )
