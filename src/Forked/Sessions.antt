-- ===== src/Forked/Sessions.antt =====
-- The loop of the forked server over a client that asks for the products and then closes.
use os_tp.Base.{
  ℕ, zero, suc, ◌<◌, ◌^◌, ◌≡◌, refl, sym, ap, ◌∙◌, subst, Bool, true, false, List, [], ◌∷◌, ◌++◌,
  append-nil, append_assoc, arith, All, Bytes, length, ℤ, IsInt, ok, bind-ok, if◌then◌else◌,
  Outcome, fault, blocked,
}
use os_tp.Base
use os_tp.Io.{◌>>=◌, pure, exited}
use os_tp.Encoding.{int_bytes}
use os_tp.Encoding.Laws.{read_int-whole}
use os_tp.Product.{Product}
use os_tp.Descriptors.{Posix}
use os_tp.Comm.{Transport, message_close}
use os_tp.Comm.Frames.{frame, used-whole}
use os_tp.Database.Catalogue.Sending.{listing_reply}
use os_tp.Database.Serve.Listings.{repeated}
use os_tp.Forked.{Ends, cmd_get_products, Io, on_descriptors}
use os_tp.Forked.Wires.{Wires, client_receives}
use os_tp.Comm.Frames.{int_bytes-IsMessage}
use os_tp.Forked.Products.{client_frames, IsPassable, send_products-frames}
use os_tp.Forked.Serve.{shut_down, serve_code, serve_request, forked_server}

module _ (P : Posix) (rounds : ℕ) (transport : Transport) (ends : Ends) (wires : Wires P ends)
    (junk : ℕ → ℕ) (conn_close : Io (P.World) Bool) where
  open wires use {State}

  pub serve_request-code :
      (code : ℤ) (rest cg dc dg : Bytes) (w : P.World)
      → 8 < rounds
      → IsInt code
      → State w (frame (int_bytes code) ++ rest) cg dc dg
      → (w' : P.World) × (serve_request P rounds transport ends junk conn_close (w, false)
          ≡ serve_code P rounds transport ends junk conn_close code (w', false))
        × State w' rest cg dc dg
  unfolding serve_request
  serve_request-code code rest cg dc dg w eight fits here =
      let (w1, ran1, here1) =
        client_receives P rounds transport ends wires (int_bytes code) rest cg dc dg w false
          (int_bytes-IsMessage rounds code eight) here in
      (w1, bind-ok _ ran1 (rw (used-whole (int_bytes code), read_int-whole code fits) refl), here1)

  -- A forked server whose client asks n times for the products and then sends MESSAGE_CLOSE asks the
  -- database server as often, passes on each of its replies, in order, and then closes the client's
  -- connection and ends, with the mutex free. There are products, less than 2^31, each one fits a
  -- message, and the rounds of the descriptors are enough for it; the loop has rounds enough for the
  -- requests.
  pub forked_server-listings :
      (p : Product) (ps : List Product) (n turns : ℕ) (rest cg dc dg : Bytes) (w : P.World)
      → n < turns
      → 8 < rounds
      → length (p ∷ ps) < 2 ^ 31
      → All (IsPassable rounds) (p ∷ ps)
      → State w
          (repeated n (frame (int_bytes cmd_get_products))
            ++ (frame (int_bytes message_close) ++ rest))
          cg
          (repeated n (listing_reply (p ∷ ps)) ++ dc)
          dg
      → (w' : P.World) × (forked_server P rounds transport ends junk conn_close turns (w, false)
          ≡ (on_descriptors conn_close >>= λ closed. pure exited) (w', false))
        × State w' rest
            (cg ++ repeated n (client_frames (p ∷ ps)))
            dc
            (dg ++ repeated n (int_bytes cmd_get_products))
  unfolding forked_server serve_code shut_down
  forked_server-listings p ps n zero rest cg dc dg w enough eight small h here =
      absurd (omega arith)
  forked_server-listings p ps zero (suc turns) rest cg dc dg w enough eight small h here =
      let (w1, ran1, here1) =
        serve_request-code message_close rest cg dc dg w eight (omega arith, omega arith) here in
      (
        w1,
        rw ran1 (closes (on_descriptors conn_close (w1, false))),
        subst (λ g. State w1 rest g dc (dg ++ [])) (sym (append-nil cg))
            (subst (State w1 rest cg dc) (sym (append-nil dg)) here1),
      )
    where
      closes :
          (m : Outcome (Bool × (P.World × Bool)))
          → (Base.◌>>=◌ {A = Bool × (P.World × Bool)} (Base.◌>>=◌ m (λ r. ok (true, r.1))) (λ r.
              if r.0
              then ok (exited, r.1)
              else forked_server P rounds transport ends junk conn_close turns r.1))
            ≡ Base.◌>>=◌ m (λ r. ok (exited, r.1))
      closes (ok r) = refl
      closes fault = refl
      closes blocked = refl
  forked_server-listings p ps (suc n) (suc turns) rest cg dc dg w enough eight small h here =
      let ask : Bytes = frame (int_bytes cmd_get_products) in
      let more : Bytes = repeated n ask ++ (frame (int_bytes message_close) ++ rest) in
      let reply : Bytes = listing_reply (p ∷ ps) in
      let (w1, ran1, here1) =
        serve_request-code cmd_get_products more cg _ dg w eight (omega arith, omega arith)
          (subst (λ c. State w c cg (repeated (suc n) reply ++ dc) dg)
            (append_assoc ask (repeated n ask) (frame (int_bytes message_close) ++ rest)) here) in
      let (w2, ran2, here2) =
        send_products-frames P rounds transport ends wires junk (p ∷ ps) more cg
          (repeated n reply ++ dc) dg w1 eight small h
          (subst (λ d. State w1 more cg d dg) (append_assoc reply (repeated n reply) dc) here1) in
      let (w3, ran3, here3) =
        forked_server-listings p ps n turns rest _ dc _ w2 (omega arith) eight small h here2 in
      (
        w3,
        rw (ran1, ran2) ran3,
        subst (λ g. State w3 rest g dc (dg ++ repeated (suc n) (int_bytes cmd_get_products)))
            (append_assoc cg (client_frames (p ∷ ps)) (repeated n (client_frames (p ∷ ps))))
            (subst (State w3 rest _ dc)
              (append_assoc dg (int_bytes cmd_get_products)
                (repeated n (int_bytes cmd_get_products)))
              here3),
      )
