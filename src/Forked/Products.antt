-- ===== src/Forked/Products.antt =====
-- What `getProducts` and `sendProducts` do with the reply of the database server.
use os_tp.Base.{
  ℕ, suc, ◌<◌, ◌^◌, ◌≡◌, refl, sym, ap, ◌∙◌, subst, Bool, true, false, Option, none, some, List, [],
  ◌∷◌, ◌++◌, append-nil, append_assoc, arith, All, Bytes, length, ℤ, pos, ok, blocked, bind-ok,
}
use os_tp.Io.{lift-ok}
use os_tp.Encoding.{int_bytes, size_bytes, of_bytes}
use os_tp.Encoding.Laws.{length-int_bytes, length-size_bytes, int_of_bytes-int_bytes}
use os_tp.Product.{Product, product_unserialize}
use os_tp.Product.Codec.{IsProduct, layout, product_serialize-eq-layout, product_unserialize-layout}
use os_tp.Descriptors.{Posix}
use os_tp.Comm.{Transport}
use os_tp.Comm.Frames.{IsMessage, frame, of_size_bytes}
use os_tp.Database.Place.{message_error}
use os_tp.Database.Catalogue.Sending.{product_frames, listing_reply}
use os_tp.Forked.{
  Ends, cmd_get_products, sh_conn_open, sh_conn_close, read_products, finish_products, get_products,
  send_each, send_found, send_products,
}
use os_tp.Forked.Wires.{Wires, db_receives, db_sends, client_sends}
use os_tp.Comm.Frames.{int_bytes-IsMessage}

-- The products as messages.
abbrev pub client_frames : List Product → Bytes
client_frames [] = frame (int_bytes message_error)
client_frames (p ∷ ps) = frame (int_bytes (pos (suc (length ps)))) ++ product_frames (p ∷ ps)

abbrev pub IsPassable : ℕ → Product → Type 0
IsPassable rounds p = IsProduct p × IsMessage rounds (layout p)

-- What `getProducts` returns for the products in the reply, and whether the mutex is then held.
abbrev pub got : List Product → Option (ℤ × List Product)
got [] = none
got (p ∷ ps) = some (pos (suc (length ps)), p ∷ ps)

abbrev pub stuck : List Product → Bool
stuck [] = true
stuck (p ∷ ps) = false

module _ (P : Posix) (rounds : ℕ) (transport : Transport) (ends : Ends) (wires : Wires P ends) where
  open wires use {State}

  read_products-frames :
      (ps : List Product) (cc cg dc dg : Bytes) (w : P.World) (held : Bool)
      → All (IsPassable rounds) ps
      → State w cc cg (product_frames ps ++ dc) dg
      → (w' : P.World) × (read_products P rounds transport ends (length ps) (w, held)
          ≡ ok (some ps, (w', held)))
        × State w' cc cg dc dg
  unfolding read_products
  read_products-frames [] cc cg dc dg w held h here = (w, refl, here)
  read_products-frames (p ∷ ps) cc cg dc dg w held h here =
      let size : Bytes = size_bytes (length (layout p)) in
      let (w1, ran1, here1) =
        db_receives P rounds transport ends wires size (layout p ++ (product_frames ps ++ dc)) cc cg
          dg 8 w held (sym (length-size_bytes (length (layout p))))
          (omega (arith, length-size_bytes (length (layout p)), h.0.1.3))
          (omega (arith, length-size_bytes (length (layout p)), h.0.1.3))
          (subst (λ s. State w cc cg s dg)
            (append_assoc (frame (layout p)) (product_frames ps) dc
              ∙ append_assoc size (layout p) (product_frames ps ++ dc))
            here) in
      let (w2, ran2, here2) =
        db_receives P rounds transport ends wires (layout p) (product_frames ps ++ dc) cc cg dg
          (of_bytes size) w1 held (of_size_bytes (length (layout p)) (omega (arith, h.0.1.2)))
          h.0.1.1 h.0.1.2 here1 in
      let read : product_unserialize (layout p) ≡ ok p =
        ap product_unserialize (sym (append-nil (layout p)))
        ∙ product_unserialize-layout p [] h.0.0 in
      let (w3, ran3, here3) = read_products-frames ps cc cg dc dg w2 held h.1 here2 in
      (
        w3,
        bind-ok _ ran1 (bind-ok _ ran2 (bind-ok _ (lift-ok (w2, held) read) (bind-ok _ ran3 refl))),
        here3,
      )

  -- `getProducts` with the mutex free writes the command CMD_GET_PRODUCTS, takes from the
  -- database server's reply the products that it lists, each as it was sent, and leaves what lies
  -- behind the reply; then the mutex is free again. A reply of MESSAGE_ERROR gives -1, and the
  -- mutex stays held. There are less than 2^31 products, each one fits a message, and the rounds
  -- are enough for it.
  pub get_products-reply :
      (ps : List Product) (cc cg dc dg : Bytes) (w : P.World)
      → 8 < rounds
      → length ps < 2 ^ 31
      → All (IsPassable rounds) ps
      → State w cc cg (listing_reply ps ++ dc) dg
      → (w' : P.World) × (get_products P rounds transport ends (w, false)
          ≡ ok (got ps, (w', stuck ps)))
        × State w' cc cg dc (dg ++ int_bytes cmd_get_products)
  unfolding get_products sh_conn_open
  get_products-reply [] cc cg dc dg w eight small h here =
      let (w1, ran1, here1) =
        db_sends P rounds transport ends wires (int_bytes cmd_get_products) cc cg _ dg w true
          (omega (arith, length-int_bytes cmd_get_products))
          (omega (arith, length-int_bytes cmd_get_products)) here in
      let (w2, ran2, here2) =
        db_receives P rounds transport ends wires (int_bytes message_error) dc cc cg _ 4 w1 true
          (sym (length-int_bytes message_error)) (omega (arith, length-int_bytes message_error))
          (omega (arith, length-int_bytes message_error)) here1 in
      (
        w2,
        bind-ok _ ran1
            (bind-ok _ ran2 (rw (int_of_bytes-int_bytes message_error (omega arith)) refl)),
        here2,
      )
  get_products-reply (p ∷ ps) cc cg dc dg w eight small h here =
      let n : ℤ = pos (suc (length ps)) in
      let (w1, ran1, here1) =
        db_sends P rounds transport ends wires (int_bytes cmd_get_products) cc cg _ dg w true
          (omega (arith, length-int_bytes cmd_get_products))
          (omega (arith, length-int_bytes cmd_get_products)) here in
      let (w2, ran2, here2) =
        db_receives P rounds transport ends wires (int_bytes n) (product_frames (p ∷ ps) ++ dc) cc
          cg _ 4 w1 true (sym (length-int_bytes n)) (omega (arith, length-int_bytes n))
          (omega (arith, length-int_bytes n))
          (subst (λ s. State w1 cc cg s (dg ++ int_bytes cmd_get_products))
            (append_assoc (int_bytes n) (product_frames (p ∷ ps)) dc) here1) in
      let (w3, ran3, here3) = read_products-frames (p ∷ ps) cc cg dc _ w2 true h here2 in
      (
        w3,
        bind-ok _ ran1 (
            bind-ok _ ran2 (
              rw (int_of_bytes-int_bytes n (small, omega arith))
                (bind-ok _ ran3 (finish n (p ∷ ps) w3)))),
        here3,
      )
    where
      finish :
          (n : ℤ) (qs : List Product) (v : P.World)
          → finish_products P rounds transport ends n (some qs) (v, true)
            ≡ ok (some (n, qs), (v, false))
      finish n qs v = unfold finish_products sh_conn_close in refl

  send_each-frames :
      (junk : ℕ → ℕ) (ps : List Product) (cc cg dc dg : Bytes) (w : P.World) (held : Bool)
      → All (IsPassable rounds) ps
      → State w cc cg dc dg
      → (w' : P.World) × (send_each P rounds transport ends junk ps (w, held) ≡ ok (tt, (w', held)))
        × State w' cc (cg ++ product_frames ps) dc dg
  unfolding send_each
  send_each-frames junk [] cc cg dc dg w held h here =
      (w, refl, subst (λ g. State w cc g dc dg) (sym (append-nil cg)) here)
  send_each-frames junk (p ∷ ps) cc cg dc dg w held h here =
      let (w1, ran1, here1) =
        client_sends P rounds transport ends wires (layout p) cc cg dc dg w held h.0.1 here in
      let (w2, ran2, here2) = send_each-frames junk ps cc _ dc dg w1 held h.1 here1 in
      (
        w2,
        bind-ok _ (lift-ok (w, held) (product_serialize-eq-layout junk p h.0.0))
            (bind-ok _ ran1 ran2),
        subst (λ g. State w2 cc g dc dg) (append_assoc cg (frame (layout p)) (product_frames ps))
            here2,
      )

  -- With the mutex free, `sendProducts` asks the database server for the products and sends the
  -- client what it replied: the number of products as one message and each product as one message
  -- behind it, as the database server serialized it, and then the mutex is free; or MESSAGE_ERROR
  -- as one message, and then the mutex stays held. There are less than 2^31 products, each one
  -- fits a message, and the rounds are enough for it.
  pub send_products-frames :
      (junk : ℕ → ℕ) (ps : List Product) (cc cg dc dg : Bytes) (w : P.World)
      → 8 < rounds
      → length ps < 2 ^ 31
      → All (IsPassable rounds) ps
      → State w cc cg (listing_reply ps ++ dc) dg
      → (w' : P.World) × (send_products P rounds transport ends junk (w, false)
          ≡ ok (tt, (w', stuck ps)))
        × State w' cc (cg ++ client_frames ps) dc (dg ++ int_bytes cmd_get_products)
  unfolding send_products send_found
  send_products-frames junk [] cc cg dc dg w eight small h here =
      let (w1, ran1, here1) = get_products-reply [] cc cg dc dg w eight small h here in
      let (w2, ran2, here2) =
        client_sends P rounds transport ends wires (int_bytes message_error) cc cg dc _ w1 true
          (int_bytes-IsMessage rounds message_error eight) here1 in
      (w2, bind-ok _ ran1 ran2, here2)
  send_products-frames junk (p ∷ ps) cc cg dc dg w eight small h here =
      let count : Bytes = int_bytes (pos (suc (length ps))) in
      let (w1, ran1, here1) = get_products-reply (p ∷ ps) cc cg dc dg w eight small h here in
      let (w2, ran2, here2) =
        client_sends P rounds transport ends wires count cc cg dc _ w1 false
          (int_bytes-IsMessage rounds (pos (suc (length ps))) eight) here1 in
      let (w3, ran3, here3) = send_each-frames junk (p ∷ ps) cc _ dc _ w2 false h here2 in
      (
        w3,
        bind-ok _ ran1 (bind-ok _ ran2 ran3),
        subst (λ g. State w3 cc g dc (dg ++ int_bytes cmd_get_products))
            (append_assoc cg (frame count) (product_frames (p ∷ ps))) here3,
      )

-- With the mutex free and the reply MESSAGE_ERROR on its way, `getProducts` returns -1, and
-- another call of it from then on waits for the mutex.
pub get_products-waits :
    (P : Posix) (rounds : ℕ) (transport : Transport) (ends : Ends) (wires : Wires P ends)
    (cc cg dc dg : Bytes) (w : P.World)
    → 8 < rounds
    → wires.State w cc cg (listing_reply [] ++ dc) dg
    → (w' : P.World) × (get_products P rounds transport ends (w, false) ≡ ok (none, (w', true)))
      × (get_products P rounds transport ends (w', true) ≡ blocked)
unfolding get_products sh_conn_open
get_products-waits P rounds transport ends wires cc cg dc dg w eight here =
    let (w', ran, here') =
      get_products-reply P rounds transport ends wires [] cc cg dc dg w eight (omega arith) tt
        here in
    (w', ran, refl)
