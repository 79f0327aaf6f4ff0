-- ===== src/Database/Serve/Listings.antt =====
-- The server's loop over requests for the products.
use os_tp.Comm.{message_close}
use os_tp.Base.{
  ℕ, zero, suc, ◌<◌, ◌^◌, ◌≡◌, refl, sym, ap, ◌∙◌, subst, true, List, [], ◌++◌, append-nil,
  append_assoc, arith, All, Bytes, length, ℤ, ok, bind-ok, length-append,
}
use os_tp.Encoding.{int_bytes, int_of_bytes}
use os_tp.Encoding.Laws.{length-int_bytes, int_of_bytes-int_bytes}
use os_tp.Product.Codec.{layout}
use os_tp.Descriptors.{Posix}
use os_tp.Descriptors.Channel.{Channel}
use os_tp.Forked.{cmd_get_products}
use os_tp.Database.Engine.{Engine}
use os_tp.Database.Place.Replies.{read_used-receives}
use os_tp.Database.Catalogue.Listing.{Listing, Line, IsLine, products_of}
use os_tp.Database.Catalogue.Sending.{listing_reply, send_products-reply}
use os_tp.Database.Serve.{Surroundings, handle, select, serve_once, serve_loop}

-- Something n times in a row.
abbrev pub repeated : ℕ → Bytes → Bytes
repeated zero s = []
repeated (suc n) s = s ++ repeated n s

-- Waiting with `select` while a command is on its way succeeds and takes nothing.
pub record Selects (P : Posix) (S : Engine) (E : Surroundings P S) (in_fd out_fd : ℕ)
    (channel : Channel P in_fd out_fd) : Type 0 where
  pub select_law :
      (w : P.World) (coming gone : Bytes)
      → channel.State w coming gone
      → 0 < length coming
      → (w' : P.World) × (E.select w ≡ (true, w')) × channel.State w' coming gone

module _ (P : Posix) (rounds : ℕ) (S : Engine) (E : Surroundings P S) (in_fd out_fd : ℕ)
    (channel : Channel P in_fd out_fd) (selects : Selects P S E in_fd out_fd channel) where
  open channel use {State}

  -- The command of a round arrives at the switch.
  pub serve_once-command :
      (turn : ℕ) (code : ℤ) (rest gone : Bytes) (w : P.World) (db : S.Db)
      → 8 < rounds
      → int_of_bytes (int_bytes code) ≡ code
      → State w (int_bytes code ++ rest) gone
      → (w' : P.World) × (serve_once P rounds S E in_fd out_fd turn (w, db)
          ≡ handle P rounds S E in_fd out_fd turn code (w', db))
        × State w' rest gone
  unfolding serve_once select
  serve_once-command turn code rest gone w db eight same held =
      let (w1, ready, held1) =
        selects.select_law w (int_bytes code ++ rest) gone held
          (omega (arith, length-append (int_bytes code) rest, length-int_bytes code)) in
      let (w2, ran2, held2) =
        read_used-receives P rounds S in_fd out_fd channel (int_bytes code) rest gone 4 w1 db
          (sym (length-int_bytes code)) (omega (arith, length-int_bytes code))
          (omega (arith, length-int_bytes code)) held1 in
      (
        w2,
        rw ready (bind-ok _ ran2 (ap (λ c. handle P rounds S E in_fd out_fd turn c (w2, db)) same)),
        held2,
      )

  -- The server that has n requests for the products on its way, and then MESSAGE_CLOSE, answers
  -- each of them with the list of products in the table, in n + 1 rounds, and then ends its loop;
  -- what lies behind is not read, and the database is as it was. `select` succeeds while a
  -- command is on its way, the rows fit their types, there are less than 2^31 of them, and the
  -- rounds of the descriptors are enough for each product.
  pub serve_loop-listings :
      (listing : Listing S) (n : ℕ) (ls : List Line) (rest gone : Bytes) (w : P.World) (db : S.Db)
      → listing.lines db ≡ ls
      → length ls < 2 ^ 31
      → All (IsLine E.atof) ls
      → 8 < rounds
      → All (λ p. length (layout p) < rounds) (products_of E.atof ls)
      → State w (repeated n (int_bytes cmd_get_products) ++ (int_bytes message_close ++ rest)) gone
      → (w' : P.World) × (serve_loop P rounds S E in_fd out_fd (suc n) (w, db) ≡ ok (tt, (w', db)))
        × State w' rest (gone ++ repeated n (listing_reply (products_of E.atof ls)))
  unfolding serve_loop handle
  serve_loop-listings listing zero ls rest gone w db is small h eight fits held =
      let (w1, ran1, held1) =
        serve_once-command 0 message_close rest gone w db eight
          (int_of_bytes-int_bytes message_close (omega arith)) held in
      (w1, bind-ok _ ran1 refl, subst (State w1 rest) (sym (append-nil gone)) held1)
  serve_loop-listings listing (suc n) ls rest gone w db is small h eight fits held =
      let command : Bytes = int_bytes cmd_get_products in
      let reply : Bytes = listing_reply (products_of E.atof ls) in
      let more : Bytes = repeated n command ++ (int_bytes message_close ++ rest) in
      let (w1, ran1, held1) =
        serve_once-command (suc n) cmd_get_products more gone w db eight
          (int_of_bytes-int_bytes cmd_get_products (omega arith))
          (subst (λ s. State w s gone)
            (append_assoc command (repeated n command) (int_bytes message_close ++ rest)) held) in
      let (w2, ran2, held2) =
        send_products-reply P rounds S in_fd out_fd channel listing E.atof E.junk E.garbage ls more
          gone w1 db is small h eight fits held1 in
      let (w3, ran3, held3) =
        serve_loop-listings listing n ls rest (gone ++ reply) w2 db is small h eight fits held2 in
      (
        w3,
        bind-ok _ (ran1 ∙ bind-ok _ ran2 refl) ran3,
        subst (State w3 rest) (append_assoc gone reply (repeated n reply)) held3,
      )
