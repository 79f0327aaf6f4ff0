-- ===== src/Client/Submitting.antt =====
-- `submitOrder` of client/client.c with the address that the user types.
use os_tp.Base.{
  ℕ, zero, suc, ◌+◌, ◌<◌, ◌^◌, ◌≡◌, refl, sym, ap, ◌∙◌, true, false, some, List, [], ◌∷◌, ◌++◌,
  arith, All, Bytes, length, length-append, ok, bind-ok, ◌*◌,
}
use os_tp.Memory.Laws.{IsText, strlen-append, strncpy-whole, length-malloc}
use os_tp.Memory.{malloc}
use os_tp.Encoding.{int_bytes}
use os_tp.Order.{Order, OrderEntry, order_set_address}
use os_tp.Order.View.{Represents}
use os_tp.Order.Serial.Write.{EntryFits, length-layout}
use os_tp.Descriptors.{Posix}
use os_tp.Descriptors.Channel.{Channel}
use os_tp.Comm.Frames.{frame}
use os_tp.Database.Place.{message_ok}
use os_tp.Client.{Link, placed, after_code, submit_order, is_address_byte}
use os_tp.Client.Ordering.{IsSendable, order_frames, send_order-replies}
use os_tp.Client.Typing.{acceptable, IsLine, IsRefused, typed, read_address-lines}

acceptable-IsText : (room : ℕ) (l : Bytes) → acceptable room l ≡ true → IsText l
acceptable-IsText zero l h = cc
acceptable-IsText (suc room) [] h = tt
acceptable-IsText (suc room) (c ∷ l) h =
    let byte : is_address_byte c ≡ true = ground (arith, h) in
    (
      (λ e. let zero_is : true ≡ false = sym byte ∙ ap is_address_byte e in cc),
      acceptable-IsText room l (ground (arith, h)),
    )

acceptable-length : (room : ℕ) (l : Bytes) → acceptable room l ≡ true → length l < room
acceptable-length zero l h = cc
acceptable-length (suc room) [] h = omega arith
acceptable-length (suc room) (c ∷ l) h = omega (arith, acceptable-length room l (ground (arith, h)))

-- The order with an address.
abbrev pub addressed : Order → Bytes → Order
addressed o l = record o { address = some (l ++ 0 ∷ []) }

order_set_address-text :
    (junk : ℕ → ℕ) (o : Order) (l : Bytes)
    → IsText l
    → order_set_address junk o (some (l ++ 0 ∷ [])) ≡ ok (addressed o l)
unfolding order_set_address
order_set_address-text junk o l h = bind-ok _ (strlen-append l [] h) (
    bind-ok _
      (strncpy-whole (malloc junk (suc (length l))) l [] (length-malloc junk (suc (length l))) h)
      refl)

-- An order with these entries, once it has the address.
pub addressed-IsSendable :
    (rounds : ℕ) (o : Order) (es : List OrderEntry) (l : Bytes)
    → Represents o es
    → All EntryFits es
    → acceptable 1023 l ≡ true
    → length l + 13 + length es * 12 < rounds
    → 8 < rounds
    → length es * 12 < 2 ^ 32
    → IsSendable rounds (addressed o l) es
addressed-IsSendable rounds o es l r fits a enough eight few = record {
  is_order = record {
    represents = record { count_is = r.count_is; items_are = r.items_are; within = r.within };
    address_is = record {
      text = l;
      is_text = acceptable-IsText 1023 l a;
      whole = refl;
      fits = omega (arith, acceptable-length 1023 l a);
    };
    entries_fit = fits;
  };
  is_message =
      let size = length-layout (some (l ++ 0 ∷ [])) es in
      (
        (λ e. omega (arith, size, ap length e)),
        omega (arith, size, length-append l (0 ∷ [])),
        omega (arith, size, length-append l (0 ∷ []), acceptable-length 1023 l a),
        eight,
      );
}

module _ (P : Posix) (rounds : ℕ) (conn : Link (P.World)) (junk : ℕ → ℕ) (slack : ℕ)
    (channel : Channel P (conn.in_fd) (conn.out_fd)) where
  open channel use {State}

  pub submit_order-placed :
      (o : Order) (es : List OrderEntry) (ls : List Bytes) (l s rest gone : Bytes) (w : P.World)
      → 8 < rounds
      → All IsRefused ls
      → IsLine l
      → acceptable 1023 l ≡ true
      → IsSendable rounds (addressed o l) es
      → State w (frame (int_bytes message_ok) ++ rest) gone
      → (w' : P.World) × (submit_order P rounds conn junk slack o (w, typed ls (l ++ 10 ∷ s))
          ≡ ok ((placed, addressed o l), (w', s)))
        × State w' rest (gone ++ order_frames (addressed o l) es)
  unfolding submit_order after_code
  submit_order-placed o es ls l s rest gone w eight h is a sendable here =
      let (w1, ran1, here1) =
        send_order-replies P rounds conn junk slack channel (addressed o l) es message_ok rest gone
          w eight (omega arith, omega arith) sendable here in
      (
        w1,
        rw
            (
              read_address-lines ls l s h is a,
              order_set_address-text junk o l (acceptable-IsText 1023 l a),
              ran1,
            )
            refl,
        here1,
      )
