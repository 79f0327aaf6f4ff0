-- ===== src/Database/Serve/Requests.antt =====
-- The server's loop over requests of every kind is a run of the shop.
use os_tp.Comm.{message_close}
use os_tp.Base.{
  ℕ, suc, ◌<◌, ◌^◌, ◌≡◌, refl, sym, ap, ◌∙◌, subst, Bool, true, false, List, [], ◌∷◌, ◌++◌,
  append-nil, append_assoc, arith, All, Bytes, length, ℤ, IsInt, ok, bind-ok,
}
use mathlib.Core.Path.{fun_ext}
use os_tp.Encoding.{int_bytes}
use os_tp.Encoding.Laws.{int_of_bytes-int_bytes}
use os_tp.Product.Codec
use os_tp.Order.{OrderEntry, Order}
use os_tp.Order.Serial.Write.{layout, length-layout}
use os_tp.Comm.Frames.{frame}
use os_tp.Descriptors.{Posix}
use os_tp.Descriptors.Channel.{Channel}
use os_tp.Forked.{cmd_get_products, cmd_place_order}
use os_tp.Database.Engine.{Engine, Products}
use os_tp.Database.Shelf.{Stock, clamps, all_enough, IsStocked}
use os_tp.Database.Place.{place_order}
use os_tp.Database.Place.Replies.{place_order-unsatisfiable, length-clamps}
use os_tp.Database.Place.Accepted.{place_order-satisfiable}
use os_tp.Database.Store.Inserts.{Inserts}
use os_tp.Database.Catalogue.Listing.{Listing, Line, IsLine, products_of}
use os_tp.Database.Catalogue.Sending.{send_products-reply}
use os_tp.Database.Serve.{Surroundings, handle, serve_loop}
use os_tp.Database.Serve.Listings.{Selects, serve_once-command}
use os_tp.Database.Shop.{
  Request, ask, buy, request_bytes, all_bytes, shelved, order_reply, order_after, after, after_all,
  reply, replies, IsServed,
}
use os_tp.Database.Shop.Laws.{
  after-IsStocked, after-IsServed, IsKnown-HasProduct, shelved-IsLine, length-shelved, shelved-fits,
}

-- The rows of the table `products` are these, with the stock as their quantities, whatever was sold.
pub record Shows (S : Engine) (products : Products S) (listing : Listing S) (rows : List Line)
    : Type 0 where
  pub shows : (db : S.Db) → listing.lines db ≡ shelved (products.stock db) rows

-- The database has room for every order.
abbrev pub IsRoomy :
    (S : Engine) (products : Products S) (last_insert_rowid : S.Db → ℤ)
    → Inserts S products last_insert_rowid
    → Type 0
IsRoomy S products last_insert_rowid inserts = (db : S.Db) → inserts.HasRoom db

module _ (P : Posix) (rounds : ℕ) (S : Engine) (E : Surroundings P S) (in_fd out_fd : ℕ)
    (channel : Channel P in_fd out_fd) (selects : Selects P S E in_fd out_fd channel)
    (products : Products S) (inserts : Inserts S products (E.last_insert_rowid))
    (listing : Listing S) (rows : List Line) (showing : Shows S products listing rows) where
  open channel use {State}
  open products use {stock}

  placed :
      (enough : Bool) (timestamp : ℤ) (o : Order) (es : List OrderEntry) (rest gone : Bytes)
      (w : P.World) (db : S.Db)
      → all_enough (stock db) es ≡ enough
      → IsRoomy S products E.last_insert_rowid inserts
      → IsInt timestamp
      → 8 < rounds
      → IsServed E.printing rounds (stock db) (buy o es)
      → IsStocked (stock db)
      → State w (frame (layout o.address es) ++ rest) gone
      → (w' : P.World) × (db' : S.Db) × (place_order P rounds S E.last_insert_rowid E.printing
            E.junk E.garbage timestamp in_fd out_fd
            (w, db)
          ≡ ok (tt, (w', db')))
        × State w' rest (gone ++ order_reply enough (stock db) o es)
        × ((j : ℤ) → stock db' j ≡ order_after enough (stock db) es j)
  placed true timestamp o es rest gone w db is roomy fits eight (sound, known, small, enough)
        stocked held =
      place_order-satisfiable P rounds S in_fd out_fd channel products E.last_insert_rowid inserts
        E.printing E.junk E.garbage timestamp o es rest gone w db (roomy db) fits sound
        (IsKnown-HasProduct (stock db) es stocked known) is eight small enough held
  placed false timestamp o es rest gone w db is roomy fits eight (sound, known, small, enough)
        stocked held =
      let (w', ran, held') =
        place_order-unsatisfiable P rounds S in_fd out_fd channel products E.last_insert_rowid
          E.printing E.junk E.garbage timestamp o es rest gone w db sound.is_order
          (IsKnown-HasProduct (stock db) es stocked known) is eight small enough
          (omega (
            arith,
            enough,
            length-layout o.address es,
            length-layout o.address (clamps (stock db) es),
            length-clamps (stock db) es,
          ))
          held in
      (w', db, ran, held', λ j. refl)

  -- What the switch does with one request.
  handled :
      (r : Request) (turn : ℕ) (rest gone : Bytes) (w : P.World) (db : S.Db)
      → IsRoomy S products E.last_insert_rowid inserts
      → ((t : ℕ) → IsInt (E.time t))
      → 8 < rounds
      → length rows < 2 ^ 31
      → All (IsLine E.atof) rows
      → All (λ p. length (Codec.layout p) < rounds) (products_of E.atof rows)
      → IsServed E.printing rounds (stock db) r
      → IsStocked (stock db)
      → State w (request_bytes r ++ rest) gone
      → (w' : P.World) × (db' : S.Db) × (serve_loop P rounds S E in_fd out_fd (suc turn) (w, db)
          ≡ serve_loop P rounds S E in_fd out_fd turn (w', db'))
        × State w' rest (gone ++ reply E.atof rows (stock db) r)
        × ((j : ℤ) → stock db' j ≡ after (stock db) r j)
  unfolding serve_loop handle
  handled ask turn rest gone w db roomy timely eight few lines fit served stocked held =
      let (w1, ran1, held1) =
        serve_once-command P rounds S E in_fd out_fd channel selects turn cmd_get_products rest gone
          w db eight (int_of_bytes-int_bytes cmd_get_products (omega arith)) held in
      let (w2, ran2, held2) =
        send_products-reply P rounds S in_fd out_fd channel listing E.atof E.junk E.garbage
          (shelved (stock db) rows) rest gone w1 db (showing.shows db)
          (omega (arith, few, length-shelved (stock db) rows))
          (shelved-IsLine E.atof (stock db) rows stocked lines) eight
          (shelved-fits E.atof rounds (stock db) rows fit) held1 in
      (w2, db, bind-ok _ (ran1 ∙ bind-ok _ ran2 refl) refl, held2, λ j. refl)
  handled (buy o es) turn rest gone w db roomy timely eight few lines fit served stocked held =
      let (w1, ran1, held1) =
        serve_once-command P rounds S E in_fd out_fd channel selects turn cmd_place_order
          (frame (layout o.address es) ++ rest) gone w db eight
          (int_of_bytes-int_bytes cmd_place_order (omega arith))
          (subst (λ s. State w s gone)
            (append_assoc (int_bytes cmd_place_order) (frame (layout o.address es)) rest) held) in
      let (w2, db2, ran2, held2, after2) =
        placed (all_enough (stock db) es) (E.time turn) o es rest gone w1 db refl roomy
          (timely turn) eight served stocked held1 in
      (w2, db2, bind-ok _ (ran1 ∙ bind-ok _ ran2 refl) refl, held2, after2)

  -- The database server is the shop: with any requests on their way, for the products and orders,
  -- and MESSAGE_CLOSE behind them, it gives to each, in order, just the reply that the shop gives with
  -- the stock that the requests before it have left, ends its loop in a round for each and one more,
  -- and leaves in the table the stock that the shop has then, of which again no quantity is negative.
  -- At the start no quantity is negative and an `int` holds each. The orders are of products that
  -- there are, can be printed, have fewer than 2^31 bytes, name a product once and for no negative
  -- quantity; the rows fit their types and a message, and there are less than 2^31;
  -- the database has room, the clock's values fit an `int`, `select` succeeds while a request is on
  -- its way, and the rounds of the descriptors are enough for each order and each product.
  pub serve_loop-replies :
      (rs : List Request) (rest gone : Bytes) (w : P.World) (db : S.Db)
      → IsRoomy S products E.last_insert_rowid inserts
      → ((t : ℕ) → IsInt (E.time t))
      → 8 < rounds
      → length rows < 2 ^ 31
      → All (IsLine E.atof) rows
      → All (λ p. length (Codec.layout p) < rounds) (products_of E.atof rows)
      → All (IsServed E.printing rounds (stock db)) rs
      → IsStocked (stock db)
      → State w (all_bytes rs ++ (int_bytes message_close ++ rest)) gone
      → (w' : P.World) × (db' : S.Db) × (serve_loop P rounds S E in_fd out_fd
            (suc (length rs))
            (w, db)
          ≡ ok (tt, (w', db')))
        × State w' rest (gone ++ replies E.atof rows (stock db) rs)
        × ((j : ℤ) → stock db' j ≡ after_all (stock db) rs j)
        × IsStocked (stock db')
  unfolding serve_loop handle
  serve_loop-replies [] rest gone w db roomy timely eight few lines fit served stocked held =
      let (w1, ran1, held1) =
        serve_once-command P rounds S E in_fd out_fd channel selects 0 message_close rest gone w db
          eight (int_of_bytes-int_bytes message_close (omega arith)) held in
      (
        w1,
        db,
        bind-ok _ ran1 refl,
        subst (State w1 rest) (sym (append-nil gone)) held1,
        λ j. refl,
        stocked,
      )
  serve_loop-replies (r ∷ rs) rest gone w db roomy timely eight few lines fit (served, all_served)
        stocked held =
      let now : Stock = stock db in
      let more : Bytes = all_bytes rs ++ (int_bytes message_close ++ rest) in
      let (w1, db1, ran1, held1, after1) =
        handled r (suc (length rs)) more gone w db roomy timely eight few lines fit served stocked (
          subst (λ s. State w s gone)
            (append_assoc (request_bytes r) (all_bytes rs) (int_bytes message_close ++ rest))
            held) in
      let same : stock db1 ≡ after now r = fun_ext after1 in
      let (w2, db2, ran2, held2, after2, stocked2) =
        serve_loop-replies rs rest (gone ++ reply E.atof rows now r) w1 db1 roomy timely eight few
          lines fit
          (subst (λ st. All (IsServed E.printing rounds st) rs) (sym same)
            (after-IsServed E.printing rounds now r rs all_served))
          (subst IsStocked (sym same) (after-IsStocked E.printing rounds now r served stocked))
          held1 in
      (
        w2,
        db2,
        ran1 ∙ ran2,
        subst (State w2 rest)
            (ap (λ st. (gone ++ reply E.atof rows now r) ++ replies E.atof rows st rs) same
              ∙ append_assoc gone (reply E.atof rows now r) (replies E.atof rows (after now r) rs))
            held2,
        λ j. after2 j ∙ ap (λ st. after_all st rs j) same,
        stocked2,
      )
