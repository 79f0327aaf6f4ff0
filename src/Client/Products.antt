-- ===== src/Client/Products.antt =====
-- What `requestProducts` of client/client.c makes of the products that the forked server sends.
use os_tp.Base.{
  ℕ, suc, ◌+◌, ◌*◌, ◌≤◌, ◌<◌, ◌^◌, ◌≡◌, refl, sym, ap, ◌∙◌, subst, true, inl, inr, List, [], ◌∷◌,
  ◌++◌, append-nil, append_assoc, arith, All, Bytes, length, ℤ, pos, ok, fault, leb, Bool-cases,
}
use os_tp.Encoding.{int_bytes}
use os_tp.Encoding.Laws.{read_int-whole}
use os_tp.Product.{Product, product_unserialize}
use os_tp.Product.Codec.{layout, product_unserialize-layout}
use os_tp.Descriptors.{Posix}
use os_tp.Descriptors.Channel.{Channel, reading, writing}
use os_tp.Comm.{conn_send, conn_receive}
use os_tp.Comm.Frames.{used-whole, IsMessage, frame, whole, conn_receive-frame, conn_send-frame}
use os_tp.Database.Place.{message_error}
use os_tp.Database.Catalogue.Sending.{product_frames}
use os_tp.Forked.{cmd_get_products}
use os_tp.Comm.Frames.{int_bytes-IsMessage}
use os_tp.Forked.Products.{client_frames, IsPassable, got}
use os_tp.Client.{Link, receive_products, request_products}

module _ (P : Posix) (rounds : ℕ) (conn : Link (P.World)) (junk : ℕ → ℕ) (slack : ℕ)
    (channel : Channel P (conn.in_fd) (conn.out_fd)) where
  open channel use {State}

  pub receives_message :
      (m rest gone : Bytes) (w : P.World)
      → IsMessage rounds m
      → State w (frame m ++ rest) gone
      → (w' : P.World) × (conn_receive P rounds conn.transport conn.in_fd w ≡ ok (whole m, w'))
        × State w' rest gone
  receives_message m rest gone w h here =
      let (w', ran, here') =
        conn_receive-frame P (reading P conn.in_fd conn.out_fd channel gone) rounds conn.transport
          conn.in_fd m rest w h (refl, here) in
      (w', ran, here'.1)

  pub sends_message :
      (m coming gone : Bytes) (w : P.World)
      → IsMessage rounds m
      → State w coming gone
      → (w' : P.World) × (conn_send P rounds conn.out_fd m w ≡ ok (true, w'))
        × State w' coming (gone ++ frame m)
  sends_message m coming gone w h here =
      let (w', ran, here') =
        conn_send-frame P (writing P conn.in_fd conn.out_fd channel coming) rounds conn.out_fd m
          gone w h (refl, here) in
      (w', ran, here'.1)

  product_read : (p : Product) → IsPassable rounds p → product_unserialize (layout p) ≡ ok p
  product_read p h =
      ap product_unserialize (sym (append-nil (layout p))) ∙ product_unserialize-layout p [] h.0

  receive_products-frames :
      (ps : List Product) (size i : ℕ) (rest gone : Bytes) (w : P.World)
      → All (IsPassable rounds) ps
      → 8 * (i + length ps) ≤ size + slack
      → State w (product_frames ps ++ rest) gone
      → (w' : P.World) × (receive_products P rounds conn junk slack (length ps) size i w
          ≡ ok (ps, w'))
        × State w' rest gone
  unfolding receive_products
  receive_products-frames [] size i rest gone w h room here = (w, refl, here)
  receive_products-frames (p ∷ ps) size i rest gone w h room here =
      let (w1, ran1, here1) = receives_message (layout p) (product_frames ps ++ rest) gone w h.0.1 (
        subst (λ s. State w s gone) (append_assoc (frame (layout p)) (product_frames ps) rest)
          here) in
      let fits : leb (8 * (i + 1)) (size + slack) ≡ true = ground arith in
      let (w2, ran2, here2) =
        receive_products-frames ps size (suc i) rest gone w1 h.1 (omega arith) here1 in
      (w2, rw (ran1, used-whole (layout p), product_read p h.0, fits, ran2) refl, here2)

  -- The block has as many bytes as there are products, and each product takes a pointer.
  receive_products-overflow :
      (ps : List Product) (size i : ℕ) (rest gone : Bytes) (w : P.World)
      → All (IsPassable rounds) ps
      → 8 * i ≤ size + slack
      → size + slack < 8 * (i + length ps)
      → State w (product_frames ps ++ rest) gone
      → receive_products P rounds conn junk slack (length ps) size i w ≡ fault
  unfolding receive_products
  receive_products-overflow [] size i rest gone w h low high here = absurd (omega arith)
  receive_products-overflow (p ∷ ps) size i rest gone w h low high here =
      let (w1, ran1, here1) = receives_message (layout p) (product_frames ps ++ rest) gone w h.0.1 (
        subst (λ s. State w s gone) (append_assoc (frame (layout p)) (product_frames ps) rest)
          here) in
      elim (Bool-cases (leb (8 * (i + 1)) (size + slack))) [
        | inl fits ↦
            let faults =
              receive_products-overflow ps size (suc i) rest gone w1 h.1 (ground arith)
                (omega arith) here1 in
            rw (ran1, used-whole (layout p), product_read p h.0, fits, faults) refl
        | inr full ↦ rw (ran1, used-whole (layout p), product_read p h.0, full) refl
      ]

  -- The request and the first message of the reply.
  asks :
      (n : ℤ) (rest gone : Bytes) (w : P.World)
      → 8 < rounds
      → State w (frame (int_bytes n) ++ rest) gone
      → (w1 w2 : P.World) × (conn_send P rounds conn.out_fd (int_bytes cmd_get_products) w
          ≡ ok (true, w1))
        × (conn_receive P rounds conn.transport conn.in_fd w1 ≡ ok (whole (int_bytes n), w2))
        × State w2 rest (gone ++ frame (int_bytes cmd_get_products))
  asks n rest gone w eight here =
      let (w1, ran1, here1) =
        sends_message (int_bytes cmd_get_products) _ gone w
          (int_bytes-IsMessage rounds cmd_get_products eight) here in
      let (w2, ran2, here2) =
        receives_message (int_bytes n) rest _ w1 (int_bytes-IsMessage rounds n eight) here1 in
      (w1, w2, ran1, ran2, here2)

  -- What the forked server's `sendProducts` sends is what `requestProducts` of the client gets: the
  -- number of products and each product, or -1 for MESSAGE_ERROR; it takes just that reply, and has
  -- sent CMD_GET_PRODUCTS. There are less than 2^31 products, each one fits a message, the rounds are
  -- enough for it, and the memory behind the block that the client allocates can be written as far
  -- as its pointers reach.
  pub request_products-frames :
      (ps : List Product) (rest gone : Bytes) (w : P.World)
      → 8 < rounds
      → length ps < 2 ^ 31
      → All (IsPassable rounds) ps
      → 8 * length ps ≤ length ps + slack
      → State w (client_frames ps ++ rest) gone
      → (w' : P.World) × (request_products P rounds conn junk slack w ≡ ok (got ps, w'))
        × State w' rest (gone ++ frame (int_bytes cmd_get_products))
  unfolding request_products
  request_products-frames [] rest gone w eight small h room here =
      let (w1, w2, ran1, ran2, here2) = asks message_error rest gone w eight here in
      (
        w2,
        rw
            (
              ran1,
              ran2,
              used-whole (int_bytes message_error),
              read_int-whole message_error (omega arith),
            )
            refl,
        here2,
      )
  request_products-frames (p ∷ ps) rest gone w eight small h room here =
      let n : ℤ = pos (suc (length ps)) in
      let (w1, w2, ran1, ran2, here2) = asks n (product_frames (p ∷ ps) ++ rest) gone w eight (
        subst (λ s. State w s gone)
          (append_assoc (frame (int_bytes n)) (product_frames (p ∷ ps)) rest) here) in
      let (w3, ran3, here3) =
        receive_products-frames (p ∷ ps) (suc (length ps)) 0 rest _ w2 h (omega arith) here2 in
      (
        w3,
        rw (ran1, ran2, used-whole (int_bytes n), read_int-whole n (small, omega arith), ran3) refl,
        here3,
      )

  -- Where the memory behind the block that `requestProducts` allocates cannot be written as far as the
  -- pointers reach, which is seven bytes for each product, a reply with products makes it write out
  -- of bounds. There are less than 2^31 products, each one fits a message, and the rounds are enough
  -- for it.
  pub request_products-overflow :
      (p : Product) (ps : List Product) (rest gone : Bytes) (w : P.World)
      → 8 < rounds
      → length (p ∷ ps) < 2 ^ 31
      → All (IsPassable rounds) (p ∷ ps)
      → slack < 7 * length (p ∷ ps)
      → State w (client_frames (p ∷ ps) ++ rest) gone
      → request_products P rounds conn junk slack w ≡ fault
  unfolding request_products
  request_products-overflow p ps rest gone w eight small h short here =
      let n : ℤ = pos (suc (length ps)) in
      let (w1, w2, ran1, ran2, here2) = asks n (product_frames (p ∷ ps) ++ rest) gone w eight (
        subst (λ s. State w s gone)
          (append_assoc (frame (int_bytes n)) (product_frames (p ∷ ps)) rest) here) in
      let faults =
        receive_products-overflow (p ∷ ps) (suc (length ps)) 0 rest _ w2 h (omega arith)
          (omega arith) here2 in
      rw (ran1, ran2, used-whole (int_bytes n), read_int-whole n (small, omega arith), faults) refl
