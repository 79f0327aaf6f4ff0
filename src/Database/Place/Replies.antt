-- ===== src/Database/Place/Replies.antt =====
-- What `place_order` replies, and what it does to the stock.
use os_tp.Base.{
  ℕ, suc, ◌<◌, ◌≡◌, refl, sym, ap, ◌∙◌, subst, false, List, [], ◌∷◌, ◌++◌, append-nil, append_assoc,
  arith, All, Bytes, length, ℤ, IsInt, ok, bind-ok, Bool-cases, inl, inr, ◌^◌,
}
use os_tp.Io.{Io, lift-ok}
use os_tp.Encoding.{int_bytes, size_bytes, of_bytes}
use os_tp.Encoding.Laws.{length-int_bytes, length-size_bytes}
use os_tp.Descriptors.{Posix, ensure_read}
use os_tp.Descriptors.Channel.{Channel, receives, sends}
use os_tp.Order.{OrderEntry, Order}
use os_tp.Order.Serial.{order_serialize, order_unserialize}
use os_tp.Order.Serial.Write.{IsOrder, EntryFits, layout, order_serialize-eq-layout, length-layout}
use os_tp.Order.Serial.Read.{order_unserialize-layout}
use os_tp.Comm.Frames.{frame, of_size_bytes}
use os_tp.Database.Engine.{Engine, Products}
use os_tp.Database.Stock.{verify_order_stock}
use os_tp.Database.Shelf.{Stock, HasProduct, available, is_short, clamp, clamps, all_enough}
use os_tp.Database.Stock.Verify.{verify_order_stock-clamps}
use os_tp.Database.Store.{Printing}
use os_tp.Database.Place.{
  on_descriptors, on_database, read_used, write_ignoring, place_order, message_unsatisfiable_order,
}

on_descriptors-ok {ℓ} :
    {W D : Type 0} {A : Type ℓ} (m : Io W A) {a : A} {w w' : W} (db : D)
    → m w ≡ ok (a, w')
    → on_descriptors m (w, db) ≡ ok (a, (w', db))
unfolding on_descriptors
on_descriptors-ok m db e = rw e refl

pub on_database-ok {ℓ} :
    {W D : Type 0} {A : Type ℓ} (m : Io D A) {a : A} {db db' : D} (w : W)
    → m db ≡ ok (a, db')
    → on_database m (w, db) ≡ ok (a, (w, db'))
unfolding on_database
on_database-ok m w e = rw e refl

-- The smaller quantity fits an `int` as well.
clamp-EntryFits :
    (stock : Stock) (e : OrderEntry) → HasProduct stock e → EntryFits e → EntryFits (clamp stock e)
clamp-EntryFits stock e (s, here, fits) h = elim (Bool-cases (is_short stock e)) [
  | inl short ↦
      let is : available stock e.product_id ≡ s = rw (here, available) refl in
      rw short (h.0, subst IsInt (sym is) fits, h.2)
  | inr enough ↦ rw enough h
]

clamps-EntryFits :
    (stock : Stock) (es : List OrderEntry)
    → All (HasProduct stock) es
    → All EntryFits es
    → All EntryFits (clamps stock es)
clamps-EntryFits stock [] known h = tt
clamps-EntryFits stock (e ∷ es) known h =
    (clamp-EntryFits stock e known.0 h.0, clamps-EntryFits stock es known.1 h.1)

pub length-clamps : (stock : Stock) (es : List OrderEntry) → length (clamps stock es) ≡ length es
length-clamps stock [] = refl
length-clamps stock (e ∷ es) = ap suc (length-clamps stock es)

module _ (P : Posix) (rounds : ℕ) (S : Engine) (in_fd out_fd : ℕ)
    (channel : Channel P in_fd out_fd) where
  open channel use {State}

  pub read_used-receives :
      (x rest gone : Bytes) (n : ℕ) (w : P.World) (db : S.Db)
      → n ≡ length x
      → length x < rounds
      → length x < 2 ^ 31
      → State w (x ++ rest) gone
      → (w' : P.World) × (read_used P rounds S n in_fd (w, db) ≡ ok (x, (w', db)))
        × State w' rest gone
  unfolding read_used
  read_used-receives x rest gone n w db size enough small held =
      let (w', ran, held') =
        receives P in_fd out_fd channel rounds x rest gone w enough small held in
      (
        w',
        bind-ok _ (on_descriptors-ok _ db (ap (λ k. ensure_read P rounds k in_fd w) size ∙ ran))
            refl,
        held',
      )

  pub write_ignoring-sends :
      (x coming gone : Bytes) (w : P.World) (db : S.Db)
      → length x < rounds
      → length x < 2 ^ 31
      → State w coming gone
      → (w' : P.World) × (write_ignoring P rounds S x out_fd (w, db) ≡ ok (tt, (w', db)))
        × State w' coming (gone ++ x)
  unfolding write_ignoring
  write_ignoring-sends x coming gone w db enough small held =
      let (w', ran, held') =
        sends P in_fd out_fd channel rounds x coming gone w enough small held in
      (w', bind-ok _ (on_descriptors-ok _ db ran) refl, held')

  -- A size and as many bytes behind it, as `place_order` reads them.
  pub read_framed :
      (x rest gone : Bytes) (w : P.World) (db : S.Db)
      → length x < 2 ^ 31
      → length x < rounds
      → 8 < rounds
      → State w (frame x ++ rest) gone
      → (w1 : P.World) × (w2 : P.World) × (read_used P rounds S 8 in_fd (w, db)
          ≡ ok (size_bytes (length x), (w1, db)))
        × (read_used P rounds S (of_bytes (size_bytes (length x))) in_fd (w1, db)
            ≡ ok (x, (w2, db)))
        × State w2 rest gone
  read_framed x rest gone w db fits enough eight held =
      let (w1, ran1, held1) =
        read_used-receives (size_bytes (length x)) (x ++ rest) gone 8 w db
          (sym (length-size_bytes (length x))) (omega (arith, length-size_bytes (length x)))
          (omega (arith, length-size_bytes (length x)))
          (subst (λ s. State w s gone) (append_assoc (size_bytes (length x)) x rest) held) in
      let (w2, ran2, held2) =
        read_used-receives x rest gone (of_bytes (size_bytes (length x))) w1 db
          (of_size_bytes (length x) (omega (arith, fits))) enough fits held1 in
      (w1, w2, ran1, ran2, held2)

  -- An order that arrives in full, each of whose products is in the table with a stock that an
  -- `int` holds, and of which some entry asks for more than the stock: `place_order` replies with
  -- the code MESSAGE_UNSATISFIABLE_ORDER and, behind its size, with the serialized order that
  -- asks for the smaller of the two quantities in each entry, and to the same address; the
  -- database is as it was, and what lies behind the order is left to be read. The orders have fewer
  -- than 2 ^ 31 bytes, and the rounds are enough for both.
  pub place_order-unsatisfiable :
      (products : Products S) (last_insert_rowid : S.Db → ℤ) (N : Printing) (junk : ℕ → ℕ)
      (garbage timestamp : ℤ) (o : Order) (es : List OrderEntry) (rest gone : Bytes) (w : P.World)
      (db : S.Db)
      → IsOrder o es
      → All (HasProduct (products.stock db)) es
      → all_enough (products.stock db) es ≡ false
      → 8 < rounds
      → length (layout o.address es) < 2 ^ 31
      → length (layout o.address es) < rounds
      → length (layout o.address (clamps (products.stock db) es)) < rounds
      → State w (frame (layout o.address es) ++ rest) gone
      → (w' : P.World) × (place_order P rounds S last_insert_rowid N junk garbage timestamp in_fd
            out_fd
            (w, db)
          ≡ ok (tt, (w', db)))
        × State w' rest (
            gone
            ++ (int_bytes message_unsatisfiable_order
                ++ frame (layout o.address (clamps (products.stock db) es))))
  unfolding place_order
  place_order-unsatisfiable products last_insert_rowid N junk garbage timestamp o es rest gone w db
        h known short eight fits enough enough' held =
      let reply : Bytes = layout o.address (clamps (products.stock db) es) in
      let (w1, w2, ran1, ran2, held2) =
        read_framed (layout o.address es) rest gone w db fits enough eight held in
      let read : order_unserialize junk (layout o.address es) ≡ ok o =
        ap (order_unserialize junk) (sym (append-nil _))
        ∙ order_unserialize-layout junk o es [] h in
      let (o', verified, r', address') =
        verify_order_stock-clamps S products garbage db o es known h.represents in
      let h' : IsOrder o' (clamps (products.stock db) es) = record {
        represents = r';
        address_is = rw address' h.address_is;
        entries_fit = clamps-EntryFits (products.stock db) es known h.entries_fit;
      } in
      let written : order_serialize junk o' ≡ ok reply =
        order_serialize-eq-layout junk o' (clamps (products.stock db) es) h'
        ∙ ap (λ a. ok (layout a (clamps (products.stock db) es))) address' in
      let (w3, ran3, held3) =
        write_ignoring-sends (int_bytes message_unsatisfiable_order) rest gone w2 db
          (omega (arith, length-int_bytes message_unsatisfiable_order))
          (omega (arith, length-int_bytes message_unsatisfiable_order)) held2 in
      let (w4, ran4, held4) =
        write_ignoring-sends (size_bytes (length reply)) rest _ w3 db
          (omega (arith, length-size_bytes (length reply)))
          (omega (arith, length-size_bytes (length reply))) held3 in
      let (w5, ran5, held5) =
        write_ignoring-sends reply rest _ w4 db enough'
          (omega (
            arith,
            length-layout o.address es,
            length-layout o.address (clamps (products.stock db) es),
            length-clamps (products.stock db) es,
            fits,
          ))
          held4 in
      (
        w5,
        bind-ok _ ran1 (
            bind-ok _ ran2 (
              bind-ok _ (lift-ok (w2, db) read) (
                bind-ok _ (on_database-ok (verify_order_stock S garbage o) w2 verified) (
                  rw short (
                    bind-ok _ ran3
                      (bind-ok _ (lift-ok (w3, db) written) (bind-ok _ ran4 ran5))))))),
        subst (State w5 rest)
            (append_assoc (gone ++ int_bytes message_unsatisfiable_order)
                (size_bytes (length reply)) reply
              ∙ append_assoc gone (int_bytes message_unsatisfiable_order) (frame reply))
            held5,
      )
