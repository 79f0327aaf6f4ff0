-- ===== src/Tests/Client.antt =====
-- A client of client/client.c over two pipes, and what a user types.
use os_tp.Base.{◌≡◌, refl, true, some, [], ◌∷◌, ◌++◌, arith, Bytes, ok, fault, pos, length, ap}
use os_tp.Io.{pure}
use os_tp.Decimal.{codes}
use os_tp.Encoding.{int_bytes, float_bytes, size_bytes, to_bytes}
use os_tp.Order.Serial.Write.{layout as order_layout}
use os_tp.Order.{order_new}
use os_tp.Comm.{fifos}
use os_tp.Comm.Frames.{frame}
use os_tp.Forked.Products.{client_frames}
use os_tp.Database.Place.{message_unsatisfiable_order}
use os_tp.Client.{Link, Session, unsatisfied, request_products, send_order, read_address}
use os_tp.Client.Products.{request_products-overflow}
use os_tp.Client.Ordering.{IsSendable, order_frames, send_order-offer}
use os_tp.Client.Typing.{typed, read_address-lines}
use os_tp.Database.Catalogue.Listing.{product_of}
use os_tp.Tests.Shop.{pipes, pipe_channel}
use os_tp.Tests.Catalogue.{gin, gin_line, any_price, gin-IsPassable}
use os_tp.Tests.Product.{bottle}
use os_tp.Tests.Order.{rubbish, two_gins, street, small, small-IsOrder}

abbrev pub link : Link (Bytes × Bytes)
link = record { transport = fifos; in_fd = 0; out_fd = 1; conn_close = pure true }

request_products-overflow_example :
    request_products pipes 100 link rubbish 6 (client_frames gin ++ [], []) ≡ fault
request_products-overflow_example =
    request_products-overflow pipes 100 link rubbish 6 pipe_channel (product_of any_price gin_line)
      [] [] [] (client_frames gin ++ [], []) (omega arith) (omega arith) gin-IsPassable
      (omega arith) refl

abbrev small_layout : Bytes
small_layout = order_layout (some street) (two_gins ∷ [])

small_size : length small_layout ≡ 27
unfolding size_bytes to_bytes int_bytes float_bytes
small_size = refl

small-IsSendable : IsSendable 100 small (two_gins ∷ [])
small-IsSendable = record {
  is_order = small-IsOrder;
  is_message = (
    (λ e. omega (arith, small_size, ap length e)),
    omega (arith, small_size),
    omega (arith, small_size),
    omega arith,
  );
}

abbrev offered : Bytes
offered = frame (int_bytes message_unsatisfiable_order) ++ (frame small_layout ++ 9 ∷ [])

send_order-offer_example :
    (w' : Bytes × Bytes) × (send_order pipes 100 link rubbish 0 small (offered, [])
      ≡ ok ((unsatisfied, small), w'))
    × (w' ≡ (9 ∷ [], [] ++ order_frames small (two_gins ∷ [])))
send_order-offer_example =
    send_order-offer pipes 100 link rubbish 0 pipe_channel small small (two_gins ∷ [])
      (two_gins ∷ []) (9 ∷ []) [] (offered, []) (omega arith) small-IsSendable small-IsSendable refl

read_address-lines_example :
    read_address (typed (codes "12, Main St" ∷ []) (codes "Main St 12" ++ 10 ∷ 9 ∷ []))
    ≡ ok (codes "Main St 12" ++ 0 ∷ [], 9 ∷ [])
read_address-lines_example =
    read_address-lines (codes "12, Main St" ∷ []) (codes "Main St 12") (9 ∷ [])
      ((omega arith, refl), tt) (omega arith) refl

abbrev browsing : Session
browsing = record { order = order_new; products = bottle ∷ []; num_products = pos 1 }
