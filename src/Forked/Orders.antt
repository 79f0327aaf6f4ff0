-- ===== src/Forked/Orders.antt =====
-- What `processOrder` passes on, each way.
use os_tp.Base.{
  ℕ, ◌≡◌, ◌≢◌, refl, sym, ap, ◌∙◌, subst, true, false, [], ◌∷◌, ◌++◌, append-nil, append_assoc,
  arith, Bytes, length, ℤ, IsInt, eq_ℤ, eq_ℤ_iff, ok, bind-ok, if◌then◌else◌, drop,
}
use os_tp.Io.{pure}
use os_tp.Memory.Laws.{length-malloc}
use os_tp.Encoding.{int_bytes, size_bytes, of_bytes, int_of_bytes}
use os_tp.Encoding.Laws.{length-int_bytes, length-size_bytes, int_of_bytes-int_bytes}
use os_tp.Descriptors.{Posix}
use os_tp.Comm.{Transport, used}
use os_tp.Comm.Frames.{int_bytes-IsMessage, IsMessage, frame, of_size_bytes}
use os_tp.Database.Place.{message_unsatisfiable_order}
use os_tp.Forked.{
  Ends, cmd_place_order, sh_conn_open, sh_conn_close, send_client, pass_suborder, process_order,
  read_over, malloc,
}
use os_tp.Forked.Wires.{Wires, db_receives, db_sends, client_receives, client_sends}

drop_whole : (x y : Bytes) → length y ≡ length x → drop (length x) y ≡ []
drop_whole [] [] e = refl
drop_whole [] (b ∷ y) e = absurd (omega arith)
drop_whole (a ∷ x) [] e = absurd (omega arith)
drop_whole (a ∷ x) (b ∷ y) e = drop_whole x y (omega arith)

-- A value that is read whole replaces the one before.
read_over-whole : (old x : Bytes) → length old ≡ length x → read_over old (true, x) ≡ x
read_over-whole old x e = ap (◌++◌ x) (drop_whole x old e) ∙ append-nil x

read_code :
    (code : ℤ)
    → IsInt code
    → int_of_bytes (read_over (int_bytes cmd_place_order) (true, int_bytes code)) ≡ code
read_code code fits =
    ap int_of_bytes (
      read_over-whole (int_bytes cmd_place_order) (int_bytes code)
        (omega (arith, length-int_bytes cmd_place_order, length-int_bytes code)))
    ∙ int_of_bytes-int_bytes code fits

differs : (a : ℤ) {b : ℤ} → a ≢ b → eq_ℤ a b ≡ false
differs a {b} h = ground (arith, eq_ℤ_iff a b)

module _ (P : Posix) (rounds : ℕ) (transport : Transport) (ends : Ends) (wires : Wires P ends) where
  open wires use {State}

  -- The order goes to the database server, and the code comes back and goes to the client.
  exchange :
      (junk : ℕ → ℕ) (m rest cg dc dg : Bytes) (code : ℤ) (w : P.World)
      → IsMessage rounds m
      → IsInt code
      → State w (frame m ++ rest) cg (int_bytes code ++ dc) dg
      → (w' : P.World) × State w' rest
          (cg ++ frame (int_bytes code))
          dc
          (dg ++ (int_bytes cmd_place_order ++ frame m))
        × ((w'' : P.World)
            → (if eq_ℤ code message_unsatisfiable_order
                  then pass_suborder P rounds transport ends junk (length m)
                  else pure tt)
                (w', true)
              ≡ ok (tt, (w'', true))
            → process_order P rounds transport ends junk (w, false) ≡ ok (true, (w'', false)))
  unfolding process_order used sh_conn_open sh_conn_close
  exchange junk m rest cg dc dg code w h fits here =
      let (w1, ran1, here1) =
        client_receives P rounds transport ends wires m rest cg (int_bytes code ++ dc) dg w false h
          here in
      let (w2, ran2, here2) =
        db_sends P rounds transport ends wires (int_bytes cmd_place_order) rest cg _ dg w1 true
          (omega (arith, length-int_bytes cmd_place_order, h.3))
          (omega (arith, length-int_bytes cmd_place_order, h.3)) here1 in
      let (w3, ran3, here3) =
        db_sends P rounds transport ends wires (size_bytes (length m)) rest cg _ _ w2 true
          (omega (arith, length-size_bytes (length m), h.3))
          (omega (arith, length-size_bytes (length m), h.3)) here2 in
      let (w4, ran4, here4) =
        db_sends P rounds transport ends wires m rest cg _ _ w3 true h.1 h.2 here3 in
      let (w5, ran5, here5) =
        db_receives P rounds transport ends wires (int_bytes code) dc rest cg _ 4 w4 true
          (sym (length-int_bytes code)) (omega (arith, length-int_bytes code, h.3))
          (omega (arith, length-int_bytes code, h.3)) here4 in
      let (w6, ran6, here6) =
        client_sends P rounds transport ends wires (int_bytes code) rest cg dc _ w5 true
          (int_bytes-IsMessage rounds code h.3) here5 in
      (
        w6,
        subst (State w6 rest _ dc) (simp append_assoc) here6,
        λ w'' passed. bind-ok _ ran1 (
            bind-ok _ ran2 (
              bind-ok _ ran3 (
                bind-ok _ ran4 (
                  bind-ok _ ran5
                    (rw (read_code code fits) (bind-ok _ ran6 (bind-ok _ passed refl))))))),
      )

  pass_suborder-sends :
      (junk : ℕ → ℕ) (n : ℕ) (m cc cg dc dg : Bytes) (w : P.World)
      → IsMessage rounds m
      → State w cc cg (frame m ++ dc) dg
      → (w' : P.World) × (pass_suborder P rounds transport ends junk n (w, true)
          ≡ ok (tt, (w', true)))
        × State w' cc (cg ++ frame m) dc dg
  unfolding pass_suborder
  pass_suborder-sends junk n m cc cg dc dg w h here =
      let size : Bytes = size_bytes (length m) in
      let (w1, ran1, here1) =
        db_receives P rounds transport ends wires size (m ++ dc) cc cg dg 8 w true
          (sym (length-size_bytes (length m))) (omega (arith, length-size_bytes (length m), h.3))
          (omega (arith, length-size_bytes (length m), h.3))
          (subst (λ s. State w cc cg s dg) (append_assoc size m dc) here) in
      let same : of_bytes (read_over (size_bytes n) (true, size)) ≡ length m =
        ap of_bytes (
          read_over-whole (size_bytes n) size
            (omega (arith, length-size_bytes n, length-size_bytes (length m))))
        ∙ of_size_bytes (length m) (omega (arith, h.2)) in
      let (w2, ran2, here2) =
        db_receives P rounds transport ends wires m dc cc cg dg _ w1 true same h.1 h.2 here1 in
      let (w3, ran3, here3) =
        client_sends P rounds transport ends wires m cc cg dc dg w2 true h here2 in
      (
        w3,
        bind-ok _ ran1 (
            bind-ok _ ran2 (
              ap (λ x. send_client P rounds transport ends x (w2, true))
                (read_over-whole (malloc junk _) m (length-malloc junk _ ∙ same))
              ∙ ran3)),
        here3,
      )

  -- An order that a client sends whole goes to the database server behind the command
  -- CMD_PLACE_ORDER and its size, byte for byte. A code other than MESSAGE_UNSATISFIABLE_ORDER,
  -- of an `int`, that is replied goes back to the client as one message, and nothing else does.
  -- The mutex is free before and after. What either side sent behind is left to be read. The
  -- rounds are enough for the order.
  pub process_order-code :
      (junk : ℕ → ℕ) (m rest cg dc dg : Bytes) (code : ℤ) (w : P.World)
      → IsMessage rounds m
      → IsInt code
      → code ≢ message_unsatisfiable_order
      → State w (frame m ++ rest) cg (int_bytes code ++ dc) dg
      → (w' : P.World) × (process_order P rounds transport ends junk (w, false)
          ≡ ok (true, (w', false)))
        × State w' rest
            (cg ++ frame (int_bytes code))
            dc
            (dg ++ (int_bytes cmd_place_order ++ frame m))
  process_order-code junk m rest cg dc dg code w h fits other here =
      let (w1, here1, run) = exchange junk m rest cg dc dg code w h fits here in
      (w1, run w1 (rw (differs code other) refl), here1)

  -- When the client's order arrives whole and the reply of the database server is
  -- MESSAGE_UNSATISFIABLE_ORDER with an order behind it, framed by its size, `processOrder` sends
  -- the client the code as one message and that order, byte for byte, as the next; the order that
  -- the client sent goes to the database server behind the command CMD_PLACE_ORDER and its size,
  -- and the mutex is free before and after. The rounds are enough for both orders.
  pub process_order-suborder :
      (junk : ℕ → ℕ) (m reply rest cg dc dg : Bytes) (w : P.World)
      → IsMessage rounds m
      → IsMessage rounds reply
      → State w
          (frame m ++ rest)
          cg
          (int_bytes message_unsatisfiable_order ++ (frame reply ++ dc))
          dg
      → (w' : P.World) × (process_order P rounds transport ends junk (w, false)
          ≡ ok (true, (w', false)))
        × State w' rest
            (cg ++ (frame (int_bytes message_unsatisfiable_order) ++ frame reply))
            dc
            (dg ++ (int_bytes cmd_place_order ++ frame m))
  process_order-suborder junk m reply rest cg dc dg w h hr here =
      let code : Bytes = int_bytes message_unsatisfiable_order in
      let (w1, here1, run) =
        exchange junk m rest cg (frame reply ++ dc) dg message_unsatisfiable_order w h (omega arith)
          here in
      let (w2, passed, here2) =
        pass_suborder-sends junk (length m) reply rest (cg ++ frame code) dc _ w1 hr here1 in
      (
        w2,
        run w2 passed,
        subst (λ g. State w2 rest g dc (dg ++ (int_bytes cmd_place_order ++ frame m)))
            (append_assoc cg (frame code) (frame reply)) here2,
      )
