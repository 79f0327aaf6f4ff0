-- ===== src/Database/Place/Accepted.antt =====
-- What `place_order` does with an order that the stock satisfies.
use os_tp.Base.{
  ℕ, ◌+◌, ◌^◌, ◌<◌, ◌≡◌, ◌≢◌, refl, sym, ap, ◌∙◌, subst, true, List, [], ◌∷◌, ◌++◌, append-nil,
  arith, All, Bytes, length, ℤ, pos, IsInt, ok, bind-ok, some,
}
use os_tp.Io.{lift-ok}
use os_tp.Memory.Laws.{IsText}
use os_tp.Encoding.{int_bytes}
use os_tp.Encoding.Laws.{length-int_bytes}
use os_tp.Descriptors.{Posix}
use os_tp.Descriptors.Channel.{Channel}
use os_tp.Order.{OrderEntry, Order, order_get_total}
use os_tp.Order.View.{Represents, array}
use os_tp.Order.Entries.{IsUnique}
use os_tp.Order.Serial.{order_unserialize}
use os_tp.Order.Serial.Write.{IsOrder, layout}
use os_tp.Order.Serial.Read.{order_unserialize-layout, same_order}
use os_tp.Comm.Frames.{frame}
use os_tp.Database.Engine.{Engine, Products}
use os_tp.Database.Stock.{verify_order_stock}
use os_tp.Database.Shelf.{left_over, IsAsked, Stock, HasProduct, available, all_enough}
use os_tp.Database.Stock.Verify.{verify_order_stock-clamps, clamps-eq_self}
use os_tp.Database.Stock.Update.{IsCovered, update_stock-left_over}
use os_tp.Database.Store.{Printing}
use os_tp.Database.Store.Inserts.{IsPlain, Inserts, store_verified_order-stock}
use os_tp.Database.Place.{store_order, place_order, message_ok}
use os_tp.Database.Place.Replies.{on_database-ok, read_framed, write_ignoring-sends}

-- Two orders with the same entries and address are the same.
same_view :
    {o o' : Order} (es : List OrderEntry)
    → Represents o es
    → Represents o' es
    → o'.address ≡ o.address
    → o' ≡ o
same_view {o} {o'} es r r' address =
    sym (same_order r')
    ∙ ap (λ a. record { address = a; num_entries = pos (length es); items = array es }) address
    ∙ same_order r

-- All that the queries of an order must hold can be printed.
pub record IsSound (N : Printing) (o : Order) (es : List OrderEntry) : Type 0 where
  pub is_order : IsOrder o es
  pub asked : All IsAsked es
  pub unique : IsUnique es
  pub total : ℕ
  pub total_is : order_get_total N.floats o ≡ ok total
  pub plain : IsPlain N total
  pub text : Bytes
  pub address_is : o.address ≡ some (text ++ 0 ∷ [])
  pub is_text : IsText text
  pub unquoted : All (λ c. c ≢ b'"') text
  pub short : length (N.print_fixed total) + length text < 950

covered :
    (S : Engine) (products : Products S) (stock : Stock) (db' : S.Db) (es : List OrderEntry)
    → ((j : ℤ) → products.stock db' j ≡ stock j)
    → All (HasProduct stock) es
    → All IsAsked es
    → all_enough stock es ≡ true
    → All (IsCovered S products db') es
covered S products stock db' [] same known asked enough = tt
covered S products stock db' (e ∷ es) same ((s, here, fits), known) ((n, asks), asked) enough =
    let is : available stock e.product_id ≡ s = rw (here, available) refl in
    (
      (s, n, same e.product_id ∙ here, asks, ground (arith, is, asks)),
      covered S products stock db' es same known asked (ground arith),
    )

module _ (S : Engine) (products : Products S) (last_insert_rowid : S.Db → ℤ)
    (inserts : Inserts S products last_insert_rowid) (N : Printing) where
  open S use {Db}
  open products use {stock}
  open inserts use {HasRoom}

  store_order-left_over :
      (junk : ℕ → ℕ) (timestamp : ℤ) (o : Order) (es : List OrderEntry) (db : Db)
      → HasRoom db
      → IsInt timestamp
      → IsSound N o es
      → All (HasProduct (stock db)) es
      → all_enough (stock db) es ≡ true
      → (db' : Db) × (store_order S last_insert_rowid N junk timestamp o db ≡ ok (message_ok, db'))
        × ((j : ℤ) → stock db' j ≡ left_over es j (stock db j))
  unfolding store_order
  store_order-left_over junk timestamp o es db room fits p known enough =
      let (n, db1, stored, number, inserted, same) =
        store_verified_order-stock S products last_insert_rowid inserts N junk timestamp o es
          p.total p.text db room p.is_order.represents p.is_order.entries_fit p.total_is p.plain
          p.address_is p.is_text p.unquoted fits p.short in
      let (db2, updated, after) =
        update_stock-left_over S products db1 o es
          (covered S products (stock db) db1 es same known p.asked enough) p.unique
          p.is_order.represents in
      (db2, bind-ok _ stored (bind-ok _ updated refl), λ j. after j ∙ ap (left_over es j) (same j))

-- An order that arrives in full, that the stock satisfies and whose queries can be printed into
-- their buffer, with at most one entry for a product, no negative quantity and no quotation mark
-- in its address, at a time that an `int` holds, in a database that has room: `place_order`
-- replies with MESSAGE_OK, nothing else, takes from the stock of each product just what the order
-- has of it, and leaves what lies behind the order to be read. The order has fewer than 2^31 bytes,
-- and the rounds are enough for it.
pub place_order-satisfiable :
    (P : Posix) (rounds : ℕ) (S : Engine) (in_fd out_fd : ℕ) (channel : Channel P in_fd out_fd)
    (products : Products S) (last_insert_rowid : S.Db → ℤ)
    (inserts : Inserts S products last_insert_rowid) (N : Printing) (junk : ℕ → ℕ)
    (garbage timestamp : ℤ) (o : Order) (es : List OrderEntry) (rest gone : Bytes) (w : P.World)
    (db : S.Db)
    → inserts.HasRoom db
    → IsInt timestamp
    → IsSound N o es
    → All (HasProduct (products.stock db)) es
    → all_enough (products.stock db) es ≡ true
    → 8 < rounds
    → length (layout o.address es) < 2 ^ 31
    → length (layout o.address es) < rounds
    → channel.State w (frame (layout o.address es) ++ rest) gone
    → (w' : P.World) × (db' : S.Db) × (place_order P rounds S last_insert_rowid N junk garbage
          timestamp in_fd out_fd
          (w, db)
        ≡ ok (tt, (w', db')))
      × channel.State w' rest (gone ++ int_bytes message_ok)
      × ((j : ℤ) → products.stock db' j ≡ left_over es j (products.stock db j))
unfolding place_order
place_order-satisfiable P rounds S in_fd out_fd channel products last_insert_rowid inserts N junk
      garbage timestamp o es rest gone w db room fits p known satisfied eight small enough held =
    let (w1, w2, ran1, ran2, held2) =
      read_framed P rounds S in_fd out_fd channel (layout o.address es) rest gone w db small enough
        eight held in
    let read : order_unserialize junk (layout o.address es) ≡ ok o =
      ap (order_unserialize junk) (sym (append-nil _))
      ∙ order_unserialize-layout junk o es [] p.is_order in
    let (o', verified, r', address') =
      verify_order_stock-clamps S products garbage db o es known p.is_order.represents in
    let same : o' ≡ o =
      same_view es p.is_order.represents
        (subst (Represents o') (clamps-eq_self (products.stock db) es satisfied) r') address' in
    let (db', stored, after) =
      store_order-left_over S products last_insert_rowid inserts N junk timestamp o es db room fits
        p known satisfied in
    let (w3, ran3, held3) =
      write_ignoring-sends P rounds S in_fd out_fd channel (int_bytes message_ok) rest gone w2 db'
        (omega (arith, length-int_bytes message_ok)) (omega (arith, length-int_bytes message_ok))
        held2 in
    (
      w3,
      db',
      bind-ok _ ran1 (
          bind-ok _ ran2 (
            bind-ok _ (lift-ok (w2, db) read) (
              bind-ok _ (on_database-ok (verify_order_stock S garbage o) w2 verified) (
                rw satisfied (
                  bind-ok _
                    (on_database-ok (store_order S last_insert_rowid N junk timestamp o') w2 (
                      ap (λ x. store_order S last_insert_rowid N junk timestamp x db) same
                      ∙ stored))
                    ran3))))),
      held3,
      after,
    )
