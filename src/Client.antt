-- ===== src/Client.antt =====
-- client/client.c: a session over a connection that is open, with what the user types. The world is
-- that of the descriptors and the bytes that are still to be typed; what is printed is left out.
-- `slack` is how far memory can be written behind the block of product pointers without a fault.
pub mod Products
pub mod Ordering
pub mod Typing
pub mod Adding
pub mod Submitting
pub mod Choosing
pub mod Visiting
pub mod Menu
pub mod Main
pub mod Dummy
use os_tp.Base.{
  ℕ, zero, suc, ◌+◌, ◌-◌, ◌*◌, Bool, true, false, ◌||◌, not, Option, none, some, List, [], ◌∷◌,
  ◌++◌, Bytes, length, get_elem?, set, ℤ, pos, negsuc, pos_part, ltb_ℤ, eq_ℤ, ◌-ℤ◌, Outcome, ok,
  fault, blocked, leb, ltb, ◌==◌, if◌then◌else◌, ◌&&◌,
}
use os_tp.Base
use os_tp.Io.{Io, ◌>>=◌, pure, lift}
use os_tp.Encoding.{int_bytes, read_int}
use os_tp.Product.{
  Product, product_unserialize, product_get_id, product_get_price, product_get_stock,
  product_set_stock,
}
use os_tp.Order.{Order, deref, order_new, order_add, order_set_address, order_get_num_entries}
use os_tp.Order.Serial.{order_serialize, order_unserialize}
use os_tp.Descriptors.{Posix}
use os_tp.Comm.{Transport, used, conn_send, conn_receive, message_close}
use os_tp.Forked.{cmd_get_products, cmd_place_order}
use os_tp.Database.Place.{message_error, message_unsatisfiable_order}
use os_tp.Decimal.{is_digit}
use os_tp.Regex.{letter}
use os_tp.Terminal.{scan_int, drain}

-- `sizeof(Product)`.
abbrev pub pointer_size : ℕ
pointer_size = 8

abbrev pub address_size : ℕ
address_size = 1024

-- `isalnum(c) || c == ' '`.
abbrev pub is_address_byte : ℕ → Bool
is_address_byte c = letter c || is_digit c || c == b' '

-- The inner loop of `submitOrder`, with the room that is left: the bytes that it stored, whether it
-- ended with a line feed, and what is left of the input.
unfoldable pub read_chars : ℕ → Bytes → Bytes × Bool × Bytes
read_chars zero input = ([], false, input)
read_chars (suc room) [] = ([], false, [])
read_chars (suc room) (c ∷ input) =
    let (chars, ended, rest) = read_chars room input in
    if c == 10
    then ([], true, input)
    else if not (is_address_byte c)
    then ([], false, input)
    else (c ∷ chars, ended, rest)

-- `while(!valid)`, with the rounds that it may run.
unfoldable pub address_loop : ℕ → Bytes → Outcome (Bytes × Bytes)
unfolding read_chars drain
address_loop zero input = blocked
address_loop (suc rounds) input =
    let (chars, ended, rest) = read_chars (address_size - 1) input in
    let again = Base.◌>>=◌ (drain rest) (λ left. address_loop rounds left) in
    if ended then ok (chars, rest) else again

-- The string in `address`; each round takes a byte at least.
unfoldable pub read_address : Bytes → Outcome (Bytes × Bytes)
unfolding address_loop
read_address input =
    Base.◌>>=◌ (address_loop (suc (length input)) input) (λ r. ok (r.0 ++ 0 ∷ [], r.1))

pub data Submitted : Type 0 where
  failed unsatisfied placed : Submitted

-- The variables of main that outlive a round of its loop.
pub record Session : Type 0 where
  pub order : Order
  pub products : List Product
  pub num_products : ℤ

-- A connection: its descriptors, and its `conn_close`, of one file or the other.
pub record Link (World : Type 0) : Type 0 where
  pub transport : Transport
  pub in_fd : ℕ
  pub out_fd : ℕ
  pub conn_close : Io World Bool

module _ (P : Posix) (rounds : ℕ) (conn : Link (P.World)) (junk : ℕ → ℕ) (slack : ℕ) where
  open P use {World}

  abbrev pub on_wire {ℓ} : {A : Type ℓ} → Io World A → Io (World × Bytes) A
  on_wire m (w, input) = Base.◌>>=◌ (m w) (λ r. ok (r.0, (r.1, input)))

  abbrev pub on_terminal {ℓ} : {A : Type ℓ} → (Bytes → Outcome (A × Bytes)) → Io (World × Bytes) A
  on_terminal m (w, input) = Base.◌>>=◌ (m input) (λ r. ok (r.0, (w, r.1)))

  unfoldable pub disconnect : Io World Bool
  disconnect = do sent ← conn_send P rounds conn.out_fd (int_bytes message_close); conn.conn_close

  -- `(*products)[i] = ...` in a block of `size` bytes.
  abbrev pub store_at : ℕ → ℕ → Product → Outcome Product
  store_at size i p = if leb (pointer_size * (i + 1)) (size + slack) then ok p else fault

  -- The loop of `requestProducts` from the i-th product on, with the products that are left.
  unfoldable pub receive_products : ℕ → ℕ → ℕ → Io World (List Product)
  receive_products zero size i = pure []
  receive_products (suc more) size i = do
    r ← conn_receive P rounds conn.transport conn.in_fd
    serialized ← lift (used r)
    p ← lift (product_unserialize serialized)
    product ← lift (store_at size i p)
    rest ← receive_products more size (suc i)
    pure (product ∷ rest)

  -- The number of products and the products, or none for -1.
  unfoldable pub request_products : Io World (Option (ℤ × List Product))
  unfolding receive_products
  request_products = do
    sent ← conn_send P rounds conn.out_fd (int_bytes cmd_get_products)
    r ← conn_receive P rounds conn.transport conn.in_fd
    response ← lift (used r)
    code ← lift (read_int response)
    if eq_ℤ code.0 message_error then pure none else do
      products ← receive_products (pos_part code.0) (pos_part code.0) 0
      pure (some (code.0, products))

  -- What `submitOrder` does with the code of the reply.
  unfoldable pub after_code : ℤ → Order → Io World (Submitted × Order)
  after_code code o =
      if eq_ℤ code message_error
      then pure (failed, o)
      else if not (eq_ℤ code message_unsatisfiable_order)
      then pure (placed, o)
      else do
        offer ← conn_receive P rounds conn.transport conn.in_fd
        if not offer.success then pure (failed, o) else do
          serialized ← lift (used offer)
          smaller ← lift (order_unserialize junk serialized)
          pure (unsatisfied, smaller)

  -- The reply to an order.
  unfoldable pub reply_to_order : Order → Io World (Submitted × Order)
  unfolding after_code
  reply_to_order o = do
    r ← conn_receive P rounds conn.transport conn.in_fd
    if not r.success
        then pure (failed, o)
        else do reply ← lift (used r); code ← lift (read_int reply); after_code code.0 o

  -- What follows the reading of the address.
  unfoldable pub send_order : Order → Io World (Submitted × Order)
  unfolding reply_to_order
  send_order o = do
    asked ← conn_send P rounds conn.out_fd (int_bytes cmd_place_order)
    if not asked then pure (failed, o) else do
      buff ← lift (order_serialize junk o)
      sent ← conn_send P rounds conn.out_fd buff
      if not sent then pure (failed, o) else reply_to_order o

  unfoldable pub submit_order : Order → Io (World × Bytes) (Submitted × Order)
  unfolding read_address send_order
  submit_order o = do
    address ← on_terminal read_address
    addressed ← lift (order_set_address junk o (some address))
    on_wire (send_order addressed)

-- What `addToOrder` does with a number that it accepts.
unfoldable pub add_number : ℕ → Product → ℤ → Session → Outcome Session
add_number index product num session =
    if eq_ℤ num (pos 0)
    then ok session
    else (Base.◌>>=◌
        (order_add session.order (product_get_id product) num (product_get_price product))
        (λ added. ok (
          if added.0
          then record session {
            order = added.1;
            products =
                set session.products index
                  (product_set_stock product (product_get_stock product -ℤ num)).1;
          }
          else record session { order = added.1 })))

-- The loop of `addToOrder`, with the rounds that it may run.
unfoldable pub number_loop : ℕ → ℕ → Product → Session → Bytes → Outcome (Session × Bytes)
unfolding add_number
number_loop zero index product session input = blocked
number_loop (suc rounds) index product session input = Base.◌>>=◌ (scan_int input) (λ r.
    if ltb_ℤ r.0 (pos 0) || ltb_ℤ (product_get_stock product) r.0
    then number_loop rounds index product session r.1
    else Base.◌>>=◌ (add_number index product r.0 session) (λ s. ok (s, r.1)))

unfoldable pub add_to_order : ℕ → ℕ → Session → Bytes → Outcome (Session × Bytes)
unfolding number_loop
add_to_order rounds index session input =
    Base.◌>>=◌ (deref (get_elem? session.products index))
      (λ product. number_loop rounds index product session input)
