-- ===== src/Forked/Requests.antt =====
-- The loop of the forked server over requests of every kind, in front of a database server that
-- answers as the shop.
use os_tp.Base.{
  ℕ, zero, suc, ◌<◌, ◌^◌, ◌≡◌, refl, ◌∙◌, subst, Bool, true, false, List, [], ◌∷◌, ◌++◌,
  append_assoc, arith, All, Bytes, length, ok,
}
use os_tp.Io.{Io, ◌>>=◌, pure, exited}
use os_tp.Encoding.{int_bytes}
use os_tp.Product.Codec
use os_tp.Descriptors.{Posix}
use os_tp.Order.{OrderEntry, Order}
use os_tp.Order.Serial.Write.{layout, length-layout}
use os_tp.Comm.{Transport, message_close}
use os_tp.Comm.Frames.{frame}
use os_tp.Database.Shelf.{IsStocked, Stock, all_enough, clamps}
use os_tp.Database.Place.{message_ok, message_unsatisfiable_order}
use os_tp.Database.Place.Replies.{length-clamps}
use os_tp.Database.Store.{Printing}
use os_tp.Database.Catalogue.Listing.{Line, IsLine, products_of, product_of}
use os_tp.Database.Shop.{
  Request, ask, buy, request_bytes, all_bytes, shelved, order_reply, after, reply, replies,
  IsServed,
}
use os_tp.Database.Shop.Laws.{
  after-IsStocked, after-IsServed, shelved-IsLine, length-shelved, shelved-fits,
}
use os_tp.Forked.{Ends, cmd_get_products, cmd_place_order, process_order, on_descriptors}
use os_tp.Forked.Wires.{Wires}
use os_tp.Forked.Products.{IsPassable, send_products-frames}
use os_tp.Forked.Orders.{process_order-code, process_order-suborder}
use os_tp.Forked.Serve.{forked_server, serve_code}
use os_tp.Forked.Sessions.{serve_request-code, forked_server-listings}
use os_tp.Forked.Frames.{
  request_frames, all_frames, order_frames, reply_frames, all_reply_frames, order-IsMessage,
  products_of-IsPassable, length-products_of,
}

module _ (P : Posix) (rounds : ℕ) (transport : Transport) (ends : Ends) (wires : Wires P ends)
    (junk : ℕ → ℕ) where
  open wires use {State}

  passed :
      (enough : Bool) (stock : Stock) (o : Order) (es : List OrderEntry) (rest cg dc dg : Bytes)
      (w : P.World)
      → 8 < rounds
      → length (layout o.address es) < 2 ^ 31
      → length (layout o.address es) < rounds
      → State w (frame (layout o.address es) ++ rest) cg (order_reply enough stock o es ++ dc) dg
      → (w' : P.World) × (process_order P rounds transport ends junk (w, false)
          ≡ ok (true, (w', false)))
        × State w' rest (cg ++ order_frames enough stock o es) dc (dg ++ request_bytes (buy o es))
  passed true stock o es rest cg dc dg w eight small enough here =
      process_order-code P rounds transport ends wires junk (layout o.address es) rest cg dc dg
        message_ok w (order-IsMessage rounds o es eight small enough) (omega arith) (λ e. cc) here
  passed false stock o es rest cg dc dg w eight small enough here =
      let message = order-IsMessage rounds o es eight small enough in
      let offer =
        order-IsMessage rounds o (clamps stock es) eight
          (omega (
            arith,
            small,
            length-layout o.address es,
            length-layout o.address (clamps stock es),
            length-clamps stock es,
          ))
          (omega (
            arith,
            enough,
            length-layout o.address es,
            length-layout o.address (clamps stock es),
            length-clamps stock es,
          )) in
      process_order-suborder P rounds transport ends wires junk (layout o.address es)
        (layout o.address (clamps stock es)) rest cg dc dg w message offer
        (subst (λ d. State w (frame (layout o.address es) ++ rest) cg d dg)
          (append_assoc (int_bytes message_unsatisfiable_order)
            (frame (layout o.address (clamps stock es))) dc)
          here)

  module _ (conn_close : Io (P.World) Bool) (atof : Bytes → ℕ) (l : Line) (ls : List Line) where
    -- One round of the loop.
    served :
        (N : Printing) (stock : Stock) (r : Request) (turns : ℕ) (rest cg dc dg : Bytes)
        (w : P.World)
        → 8 < rounds
        → length (l ∷ ls) < 2 ^ 31
        → All (IsPassable rounds) (products_of atof (shelved stock (l ∷ ls)))
        → IsServed N rounds stock r
        → State w (request_frames r ++ rest) cg (reply atof (l ∷ ls) stock r ++ dc) dg
        → (w' : P.World) × (forked_server P rounds transport ends junk conn_close
              (suc turns)
              (w, false)
            ≡ forked_server P rounds transport ends junk conn_close turns (w', false))
          × State w' rest (cg ++ reply_frames atof (l ∷ ls) stock r) dc (dg ++ request_bytes r)
    unfolding forked_server serve_code
    served N stock ask turns rest cg dc dg w eight few pass h here =
        let (w1, ran1, here1) =
          serve_request-code P rounds transport ends wires junk conn_close cmd_get_products rest cg
            _ dg w eight (omega arith, omega arith) here in
        let (w2, ran2, here2) =
          send_products-frames P rounds transport ends wires junk
            (products_of atof (shelved stock (l ∷ ls))) rest cg dc dg w1 eight (few_products) pass
            here1 in
        (w2, rw (ran1, ran2) refl, here2)
      where
        few_products : length (products_of atof (shelved stock (l ∷ ls))) < 2 ^ 31
        few_products = omega (
          arith,
          few,
          length-products_of atof (shelved stock (l ∷ ls)),
          length-shelved stock (l ∷ ls),
        )
    served N stock (buy o es) turns rest cg dc dg w eight few pass (sound, known, small, enough)
          here =
        let (w1, ran1, here1) =
          serve_request-code P rounds transport ends wires junk conn_close cmd_place_order
            (frame (layout o.address es) ++ rest) cg _ dg w eight (omega arith, omega arith)
            (subst (λ c. State w c cg (reply atof (l ∷ ls) stock (buy o es) ++ dc) dg)
              (append_assoc (frame (int_bytes cmd_place_order)) (frame (layout o.address es)) rest)
              here) in
        let (w2, ran2, here2) =
          passed (all_enough stock es) stock o es rest cg dc dg w1 eight small enough here1 in
        (w2, rw (ran1, ran2) refl, here2)

    -- A forked server in front of a database server that replies as the shop is the shop for its
    -- client. With any requests of the client on their way, for the products and orders, and
    -- MESSAGE_CLOSE behind them, it gives the database server just these requests, in order, gives the
    -- client just the shop's reply to each, in messages, with the stock that the requests before it
    -- have left, and then closes the client's connection and ends, with the mutex free. There are
    -- products, less than 2^31, the rows fit their types and a message, the orders can be printed, have
    -- fewer than 2^31 bytes and are of products that there are, the stock stays one of quantities that an `int` holds, the rounds of the
    -- descriptors are enough for each order and product, and those of the loop for the requests.
    pub forked_server-replies :
        (N : Printing) (stock : Stock) (rs : List Request) (turns : ℕ) (rest cg dc dg : Bytes)
        (w : P.World)
        → length rs < turns
        → 8 < rounds
        → length (l ∷ ls) < 2 ^ 31
        → All (IsLine atof) (l ∷ ls)
        → All (λ p. length (Codec.layout p) < rounds) (products_of atof (l ∷ ls))
        → All (IsServed N rounds stock) rs
        → IsStocked stock
        → State w
            (all_frames rs ++ (frame (int_bytes message_close) ++ rest))
            cg
            (replies atof (l ∷ ls) stock rs ++ dc)
            dg
        → (w' : P.World) × (forked_server P rounds transport ends junk conn_close turns (w, false)
            ≡ (on_descriptors conn_close >>= λ closed. pure exited) (w', false))
          × State w' rest (cg ++ all_reply_frames atof (l ∷ ls) stock rs) dc (dg ++ all_bytes rs)
    forked_server-replies N stock rs zero rest cg dc dg w enough eight few lines fit h stocked
          here =
        absurd (omega arith)
    forked_server-replies N stock [] (suc turns) rest cg dc dg w enough eight few lines fit h
          stocked here =
        forked_server-listings P rounds transport ends wires junk conn_close (product_of atof l)
          (products_of atof ls) 0 (suc turns) rest cg dc dg w (omega arith) eight
          (omega (arith, few, length-products_of atof ls))
          (products_of-IsPassable atof rounds (l ∷ ls) eight lines fit) here
    forked_server-replies N stock (r ∷ rs) (suc turns) rest cg dc dg w enough eight few lines fit
          (h, hs) stocked here =
        let more : Bytes = all_frames rs ++ (frame (int_bytes message_close) ++ rest) in
        let later : Bytes = replies atof (l ∷ ls) (after stock r) rs in
        let (w1, ran1, here1) =
          served N stock r turns more cg (later ++ dc) dg w eight few
            (products_of-IsPassable atof rounds (shelved stock (l ∷ ls)) eight
              (shelved-IsLine atof stock (l ∷ ls) stocked lines)
              (shelved-fits atof rounds stock (l ∷ ls) fit))
            h
            (subst (λ c. State w c cg (reply atof (l ∷ ls) stock r ++ (later ++ dc)) dg)
              (append_assoc (request_frames r) (all_frames rs)
                (frame (int_bytes message_close) ++ rest))
              (subst
                (λ d.
                  State w (all_frames (r ∷ rs) ++ (frame (int_bytes message_close) ++ rest)) cg d
                    dg)
                (append_assoc (reply atof (l ∷ ls) stock r) later dc) here)) in
        let (w2, ran2, here2) =
          forked_server-replies N (after stock r) rs turns rest _ dc _ w1 (omega arith) eight few
            lines fit (after-IsServed N rounds stock r rs hs)
            (after-IsStocked N rounds stock r h stocked) here1 in
        (
          w2,
          ran1 ∙ ran2,
          subst (λ g. State w2 rest g dc (dg ++ all_bytes (r ∷ rs)))
              (append_assoc cg (reply_frames atof (l ∷ ls) stock r)
                (all_reply_frames atof (l ∷ ls) (after stock r) rs))
              (subst (State w2 rest _ dc) (append_assoc dg (request_bytes r) (all_bytes rs)) here2),
        )
