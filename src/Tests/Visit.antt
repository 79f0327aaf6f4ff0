-- ===== src/Tests/Visit.antt =====
-- A whole session of a client of client/client.c over two pipes.
use os_tp.Base.{[], ◌∷◌, ◌++◌, Bytes}
use os_tp.Decimal.{codes, print_nat}
use os_tp.Encoding.{int_bytes}
use os_tp.Comm.Frames.{frame}
use os_tp.Order.{Order}
use os_tp.Database.Place.{message_ok}
use os_tp.Database.Catalogue.Listing.{product_of}
use os_tp.Product.{Product}
use os_tp.Forked.Products.{client_frames}
use os_tp.Client.Typing.{typed}
use os_tp.Client.Choosing.{choice}
use os_tp.Tests.Catalogue.{gin_line, any_price, gin}

abbrev bottle_of_gin : Product
bottle_of_gin = product_of any_price gin_line

abbrev street_name : Bytes
street_name = codes "Main St 12"

abbrev served : Bytes
served = client_frames gin ++ (frame (int_bytes message_ok) ++ 9 ∷ [])

abbrev keys : Bytes
keys =
    print_nat 2
    ++ 10
      ∷ choice 0 (70 ∷ []) 2
          (print_nat 4 ++ 10 ∷ typed (codes "12, Main St" ∷ []) (street_name ++ 10 ∷ 8 ∷ []))
