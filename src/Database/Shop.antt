-- ===== src/Database/Shop.antt =====
-- What the server of database/databaseServer.c is to its clients: a shop whose only state is the
-- stock, which answers one request after the other.
pub mod Laws
use os_tp.Base.{
  ℕ, ◌<◌, ◌^◌, ◌≡◌, Bool, true, false, some, List, [], ◌∷◌, ◌++◌, Bytes, All, length, ℤ,
}
use os_tp.Encoding.{int_bytes}
use os_tp.Order.{OrderEntry, Order}
use os_tp.Order.Serial.Write.{layout}
use os_tp.Comm.Frames.{frame}
use os_tp.Forked.{cmd_get_products, cmd_place_order}
use os_tp.Database.Shelf.{Stock, available, clamps, all_enough, sold}
use os_tp.Database.Place.{message_ok, message_unsatisfiable_order}
use os_tp.Database.Store.{Printing}
use os_tp.Database.Place.Accepted.{IsSound}
use os_tp.Database.Catalogue.Listing.{Line, products_of}
use os_tp.Database.Catalogue.Sending.{listing_reply}

-- A client asks for the products, or places an order with these entries.
pub data Request : Type 0 where
  ask : Request
  buy : Order → List OrderEntry → Request

-- As it arrives at the server.
abbrev pub request_bytes : Request → Bytes
request_bytes ask = int_bytes cmd_get_products
request_bytes (buy o es) = int_bytes cmd_place_order ++ frame (layout o.address es)

abbrev pub all_bytes : List Request → Bytes
all_bytes [] = []
all_bytes (r ∷ rs) = request_bytes r ++ all_bytes rs

-- The rows of the table `products` with these quantities.
abbrev pub shelved : Stock → List Line → List Line
shelved stock [] = []
shelved stock (l ∷ ls) = record l { quantity = available stock l.id } ∷ shelved stock ls

-- The reply to an order, and the stock then, where the stock satisfies it or not.
abbrev pub order_reply : Bool → Stock → Order → List OrderEntry → Bytes
order_reply true stock o es = int_bytes message_ok
order_reply false stock o es =
    int_bytes message_unsatisfiable_order ++ frame (layout o.address (clamps stock es))

abbrev pub order_after : Bool → Stock → List OrderEntry → Stock
order_after true stock es = sold stock es
order_after false stock es = stock

abbrev pub after : Stock → Request → Stock
after stock ask = stock
after stock (buy o es) = order_after (all_enough stock es) stock es

abbrev pub after_all : Stock → List Request → Stock
after_all stock [] = stock
after_all stock (r ∷ rs) = after_all (after stock r) rs

module _ (atof : Bytes → ℕ) (rows : List Line) where
  abbrev pub reply : Stock → Request → Bytes
  reply stock ask = listing_reply (products_of atof (shelved stock rows))
  reply stock (buy o es) = order_reply (all_enough stock es) stock o es

  abbrev pub replies : Stock → List Request → Bytes
  replies stock [] = []
  replies stock (r ∷ rs) = reply stock r ++ replies (after stock r) rs

-- There is the entry's product.
abbrev pub IsKnown : Stock → OrderEntry → Type 0
IsKnown stock e = (s : ℤ) × (stock e.product_id ≡ some s)

-- An order is of products that there are, its queries can be printed, and the rounds suffice for it.
abbrev pub IsServed : Printing → ℕ → Stock → Request → Type 0
IsServed N rounds stock ask = Unit {0}
IsServed N rounds stock (buy o es) =
    IsSound N o es
    × All (IsKnown stock) es
    × (length (layout o.address es) < 2 ^ 31)
    × (length (layout o.address es) < rounds)
