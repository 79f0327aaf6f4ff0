-- ===== src/Forked/Frames.antt =====
-- Requests and replies as the messages between a client and its forked server.
use os_tp.Base.{
  ℕ, suc, ◌<◌, ◌^◌, ◌≡◌, refl, ap, Bool, true, false, List, [], ◌∷◌, ◌++◌, arith, All, Bytes,
  length, length-append,
}
use os_tp.Encoding.{int_bytes}
use os_tp.Product.Codec
use os_tp.Order.{OrderEntry, Order}
use os_tp.Order.Serial.Write.{layout, length-layout}
use os_tp.Comm.Frames.{frame, IsMessage}
use os_tp.Database.Shelf.{Stock, all_enough, clamps}
use os_tp.Database.Place.{message_ok, message_unsatisfiable_order}
use os_tp.Database.Catalogue.Listing.{Line, IsLine, products_of, product_of, products_of-IsProduct}
use os_tp.Database.Shop.{Request, ask, buy, shelved, after}
use os_tp.Forked.{cmd_get_products, cmd_place_order}
use os_tp.Forked.Products.{client_frames, IsPassable}

-- A request as a client sends it, each part as one message.
abbrev pub request_frames : Request → Bytes
request_frames ask = frame (int_bytes cmd_get_products)
request_frames (buy o es) = frame (int_bytes cmd_place_order) ++ frame (layout o.address es)

abbrev pub all_frames : List Request → Bytes
all_frames [] = []
all_frames (r ∷ rs) = request_frames r ++ all_frames rs

-- The shop's reply as the client gets it.
abbrev pub order_frames : Bool → Stock → Order → List OrderEntry → Bytes
order_frames true stock o es = frame (int_bytes message_ok)
order_frames false stock o es =
    frame (int_bytes message_unsatisfiable_order) ++ frame (layout o.address (clamps stock es))

module _ (atof : Bytes → ℕ) (rows : List Line) where
  abbrev pub reply_frames : Stock → Request → Bytes
  reply_frames stock ask = client_frames (products_of atof (shelved stock rows))
  reply_frames stock (buy o es) = order_frames (all_enough stock es) stock o es

  abbrev pub all_reply_frames : Stock → List Request → Bytes
  all_reply_frames stock [] = []
  all_reply_frames stock (r ∷ rs) = reply_frames stock r ++ all_reply_frames (after stock r) rs

pub length-products_of :
    (atof : Bytes → ℕ) (ls : List Line) → length (products_of atof ls) ≡ length ls
length-products_of atof [] = refl
length-products_of atof (l ∷ ls) = ap suc (length-products_of atof ls)

pub order-IsMessage :
    (rounds : ℕ) (o : Order) (es : List OrderEntry)
    → 8 < rounds
    → length (layout o.address es) < 2 ^ 31
    → length (layout o.address es) < rounds
    → IsMessage rounds (layout o.address es)
order-IsMessage rounds o es eight small enough =
    ((λ e. omega (arith, length-layout o.address es, ap length e)), enough, small, eight)

pub products_of-IsPassable :
    (atof : Bytes → ℕ) (rounds : ℕ) (ls : List Line)
    → 8 < rounds
    → All (IsLine atof) ls
    → All (λ p. length (Codec.layout p) < rounds) (products_of atof ls)
    → All (IsPassable rounds) (products_of atof ls)
products_of-IsPassable atof rounds [] eight lines fit = tt
products_of-IsPassable atof rounds (l ∷ ls) eight (h, hs) (fits, fit) =
    let size = Codec.length-layout (product_of atof l) in
    (
      (
        (products_of-IsProduct atof (l ∷ []) (h, tt)).0,
        (
          (λ e. omega (arith, size, ap length e)),
          fits,
          omega (
            arith,
            size,
            h.texts_fit,
            length-append l.name (0 ∷ []),
            length-append l.description (0 ∷ []),
          ),
          eight,
        ),
      ),
      products_of-IsPassable atof rounds ls eight hs fit,
    )
