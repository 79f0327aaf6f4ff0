-- ===== src/Client/Ordering.antt =====
-- What `submitOrder` of client/client.c sends, and what it makes of the reply.
use os_tp.Base.{
  ℕ, ◌<◌, ◌≡◌, refl, sym, ap, ◌∙◌, subst, [], ◌++◌, append-nil, append_assoc, arith, Bytes, ℤ,
  IsInt, ok, List,
}
use os_tp.Encoding.{int_bytes}
use os_tp.Order.{Order, OrderEntry}
use os_tp.Order.Serial.{order_unserialize}
use os_tp.Order.Serial.Write.{IsOrder, layout, order_serialize-eq-layout}
use os_tp.Order.Serial.Read.{order_unserialize-layout}
use os_tp.Descriptors.{Posix}
use os_tp.Descriptors.Channel.{Channel}
use os_tp.Comm.Frames.{IsMessage, frame}
use os_tp.Database.Place.{message_unsatisfiable_order}
use os_tp.Forked.{cmd_place_order}
use os_tp.Comm.Frames.{int_bytes-IsMessage}
use os_tp.Client.{Link, unsatisfied, after_code, reply_to_order, send_order}
use os_tp.Client.Products.{receives_message, sends_message}
use os_tp.Encoding.Laws.{read_int-whole}
use os_tp.Comm.Frames.{used-whole}

-- An order that can be sent as one message.
pub record IsSendable (rounds : ℕ) (o : Order) (es : List OrderEntry) : Type 0 where
  pub is_order : IsOrder o es
  pub is_message : IsMessage rounds (layout o.address es)

-- What the client sends for an order.
abbrev pub order_frames : Order → List OrderEntry → Bytes
order_frames o es = frame (int_bytes cmd_place_order) ++ frame (layout o.address es)

module _ (P : Posix) (rounds : ℕ) (conn : Link (P.World)) (junk : ℕ → ℕ) (slack : ℕ)
    (channel : Channel P (conn.in_fd) (conn.out_fd)) where
  open channel use {State}

  -- The order goes out, and the code comes in.
  pub send_order-replies :
      (o : Order) (es : List OrderEntry) (code : ℤ) (rest gone : Bytes) (w : P.World)
      → 8 < rounds
      → IsInt code
      → IsSendable rounds o es
      → State w (frame (int_bytes code) ++ rest) gone
      → (w' : P.World) × (send_order P rounds conn junk slack o w
          ≡ after_code P rounds conn junk slack code o w')
        × State w' rest (gone ++ order_frames o es)
  unfolding send_order reply_to_order
  send_order-replies o es code rest gone w eight fits h here =
      let (w1, ran1, here1) =
        sends_message P rounds conn junk slack channel (int_bytes cmd_place_order) _ gone w
          (int_bytes-IsMessage rounds cmd_place_order eight) here in
      let (w2, ran2, here2) =
        sends_message P rounds conn junk slack channel (layout o.address es) _ _ w1 h.is_message
          here1 in
      let (w3, ran3, here3) =
        receives_message P rounds conn junk slack channel (int_bytes code) rest _ w2
          (int_bytes-IsMessage rounds code eight) here2 in
      (
        w3,
        rw
            (
              ran1,
              order_serialize-eq-layout junk o es h.is_order,
              ran2,
              ran3,
              used-whole (int_bytes code),
              read_int-whole code fits,
            )
            refl,
        subst (State w3 rest)
            (append_assoc gone (frame (int_bytes cmd_place_order)) (frame (layout o.address es)))
            here3,
      )

  -- The client sends CMD_PLACE_ORDER and the order, each as one message; for the reply
  -- MESSAGE_UNSATISFIABLE_ORDER it then has the order that follows in place of its own, entry for
  -- entry, and says that the order could not be satisfied. It takes just the reply and that order.
  -- Both orders have at most 16 entries and fit a message, and the rounds are enough for them.
  pub send_order-offer :
      (o offer : Order) (es offered : List OrderEntry) (rest gone : Bytes) (w : P.World)
      → 8 < rounds
      → IsSendable rounds o es
      → IsSendable rounds offer offered
      → State w
          (frame (int_bytes message_unsatisfiable_order)
            ++ (frame (layout offer.address offered) ++ rest))
          gone
      → (w' : P.World) × (send_order P rounds conn junk slack o w ≡ ok ((unsatisfied, offer), w'))
        × State w' rest (gone ++ order_frames o es)
  unfolding after_code
  send_order-offer o offer es offered rest gone w eight h k here =
      let (w1, ran1, here1) =
        send_order-replies o es message_unsatisfiable_order _ gone w eight
          (omega arith, omega arith) h here in
      let (w2, ran2, here2) =
        receives_message P rounds conn junk slack channel (layout offer.address offered) rest _ w1
          k.is_message here1 in
      let read : order_unserialize junk (layout offer.address offered) ≡ ok offer =
        ap (order_unserialize junk) (sym (append-nil (layout offer.address offered)))
        ∙ order_unserialize-layout junk offer offered [] k.is_order in
      (w2, ran1 ∙ rw (ran2, used-whole (layout offer.address offered), read) refl, here2)
