-- ===== src/Database/Catalogue/Sending.antt =====
-- What `send_products` writes.
use os_tp.Base.{
  ℕ, suc, ◌<◌, ◌^◌, ◌≡◌, refl, sym, ap, ◌∙◌, subst, List, [], ◌∷◌, ◌++◌, append-nil, append_assoc,
  arith, All, Bytes, length, ℤ, pos, ok, bind-ok,
}
use os_tp.Io.{lift-ok}
use os_tp.Encoding.{int_bytes, size_bytes}
use os_tp.Encoding.Laws.{length-int_bytes, length-size_bytes}
use os_tp.Product.{Product}
use os_tp.Product.Codec.{IsProduct, layout, product_serialize-eq-layout, length-layout}
use os_tp.Descriptors.{Posix}
use os_tp.Descriptors.Channel.{Channel}
use os_tp.Comm.Frames.{frame}
use os_tp.Database.Engine.{Engine}
use os_tp.Database.Place.{write_ignoring, message_error}
use os_tp.Database.Place.Replies.{on_database-ok, write_ignoring-sends}
use os_tp.Database.Catalogue.{get_products, send_each, send_listing, send_products}
use os_tp.Database.Catalogue.Listing.{
  Listing, Line, IsLine, products_of, filled, found, get_products-found, products_of-IsProduct,
}

-- The reply that lists products: their number, and each behind its size; for none of them an error.
abbrev pub product_frames : List Product → Bytes
product_frames [] = []
product_frames (p ∷ ps) = frame (layout p) ++ product_frames ps

abbrev pub listing_reply : List Product → Bytes
listing_reply [] = int_bytes message_error
listing_reply (p ∷ ps) = int_bytes (pos (suc (length ps))) ++ product_frames (p ∷ ps)

length-filled : (ps : List Product) → length (filled ps) ≡ length ps
length-filled [] = refl
length-filled (p ∷ ps) = ap suc (length-filled ps)

-- A product whose bytes are sent in the rounds.
abbrev pub IsSendable : ℕ → Product → Type 0
IsSendable rounds p = IsProduct p × (length (layout p) < rounds)

sendable :
    (rounds : ℕ) (ps : List Product)
    → All IsProduct ps
    → All (λ p. length (layout p) < rounds) ps
    → All (IsSendable rounds) ps
sendable rounds [] h k = tt
sendable rounds (p ∷ ps) h k = ((h.0, k.0), sendable rounds ps h.1 k.1)

module _ (P : Posix) (rounds : ℕ) (S : Engine) (in_fd out_fd : ℕ)
    (channel : Channel P in_fd out_fd) where
  open channel use {State}

  send_each-frames :
      (junk : ℕ → ℕ) (ps : List Product) (coming gone : Bytes) (w : P.World) (db : S.Db)
      → 8 < rounds
      → All (IsSendable rounds) ps
      → State w coming gone
      → (w' : P.World) × (send_each P rounds S junk (filled ps) out_fd (w, db) ≡ ok (tt, (w', db)))
        × State w' coming (gone ++ product_frames ps)
  unfolding send_each
  send_each-frames junk [] coming gone w db eight h held =
      (w, refl, subst (State w coming) (sym (append-nil gone)) held)
  send_each-frames junk (p ∷ ps) coming gone w db eight h held =
      let (w1, ran1, held1) =
        write_ignoring-sends P rounds S in_fd out_fd channel (size_bytes (length (layout p))) coming
          gone w db (omega (arith, length-size_bytes (length (layout p))))
          (omega (arith, length-size_bytes (length (layout p)))) held in
      let (w2, ran2, held2) =
        write_ignoring-sends P rounds S in_fd out_fd channel (layout p) coming _ w1 db h.0.1
          (omega (arith, length-layout p, h.0.0.size_fits)) held1 in
      let (w3, ran3, held3) = send_each-frames junk ps coming _ w2 db eight h.1 held2 in
      (
        w3,
        bind-ok _ (lift-ok (w, db) (product_serialize-eq-layout junk p h.0.0))
            (bind-ok _ ran1 (bind-ok _ ran2 ran3)),
        subst (State w3 coming) (simp append_assoc) held3,
      )

  send_listing-reply :
      (junk : ℕ → ℕ) (ps : List Product) (coming gone : Bytes) (w : P.World) (db : S.Db)
      → 8 < rounds
      → All (IsSendable rounds) ps
      → State w coming gone
      → (w' : P.World) × (send_listing P rounds S junk (found ps) out_fd (w, db)
          ≡ ok (tt, (w', db)))
        × State w' coming (gone ++ listing_reply ps)
  unfolding send_listing
  send_listing-reply junk [] coming gone w db eight h held =
      write_ignoring-sends P rounds S in_fd out_fd channel (int_bytes message_error) coming gone w
        db (omega (arith, length-int_bytes message_error))
        (omega (arith, length-int_bytes message_error)) held
  send_listing-reply junk (p ∷ ps) coming gone w db eight h held =
      let count : Bytes = int_bytes (pos (suc (length ps))) in
      let (w1, ran1, held1) =
        write_ignoring-sends P rounds S in_fd out_fd channel count coming gone w db
          (omega (arith, length-int_bytes (pos (suc (length ps)))))
          (omega (arith, length-int_bytes (pos (suc (length ps))))) held in
      let (w2, ran2, held2) = send_each-frames junk (p ∷ ps) coming _ w1 db eight h held1 in
      (
        w2,
        bind-ok _
            (ap (λ n. write_ignoring P rounds S (int_bytes (pos (suc n))) out_fd (w, db))
                (length-filled ps)
              ∙ ran1)
            ran2,
        subst (State w2 coming) (append_assoc gone count (product_frames (p ∷ ps))) held2,
      )

  -- `send_products` writes the number of products and each of them, serialized, behind its size, in
  -- the order of the table's rows; for an empty table it writes MESSAGE_ERROR. It reads nothing and
  -- leaves the database alone. The rows fit their types, there are less than 2^31 of them, and the
  -- rounds are enough for each product.
  pub send_products-reply :
      (listing : Listing S) (atof : Bytes → ℕ) (junk : ℕ → ℕ) (garbage : ℤ) (ls : List Line)
      (coming gone : Bytes) (w : P.World) (db : S.Db)
      → listing.lines db ≡ ls
      → length ls < 2 ^ 31
      → All (IsLine atof) ls
      → 8 < rounds
      → All (λ p. length (layout p) < rounds) (products_of atof ls)
      → State w coming gone
      → (w' : P.World) × (send_products P rounds S atof junk garbage out_fd (w, db)
          ≡ ok (tt, (w', db)))
        × State w' coming (gone ++ listing_reply (products_of atof ls))
  unfolding send_products
  send_products-reply listing atof junk garbage ls coming gone w db is small h eight fits held =
      let (w', ran, held') =
        send_listing-reply junk (products_of atof ls) coming gone w db eight
          (sendable rounds (products_of atof ls) (products_of-IsProduct atof ls h) fits) held in
      (
        w',
        bind-ok _
            (on_database-ok (get_products S atof junk garbage) w
              (get_products-found S listing atof junk garbage db ls is small h))
            ran,
        held',
      )
