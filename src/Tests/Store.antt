-- ===== src/Tests/Store.antt =====
-- The server of database/databaseServer.c on a shop that lists its product and sells it.
use os_tp.Base.{
  ℕ, ◌≡◌, refl, Bool, true, false, some, List, [], ◌∷◌, ◌++◌, arith, Bytes, length, drop, ℤ, pos,
  ok, All, ◌==◌, if◌then◌else◌, ◌-ℤ◌, sym, ◌∙◌, ap,
}
use os_tp.Comm.{message_close}
use os_tp.Encoding.{int_bytes}
use os_tp.Order.{OrderEntry}
use os_tp.Database.Engine.{Row, Engine, Products, select_stock, update_quantity, number_rows}
use os_tp.Database.Shelf.{IsStocked}
use os_tp.Database.Shop.{Request, ask, buy, all_bytes, after_all, replies, IsServed, shelved}
use os_tp.Database.Store.{insert_order, insert_entry}
use os_tp.Database.Store.Texts.{order_text, entry_text}
use os_tp.Database.Store.Inserts.{Inserts}
use os_tp.Database.Catalogue.{count_query, list_query}
use os_tp.Database.Catalogue.Listing.{Line, Listing, all_columns}
use os_tp.Database.Serve.{Surroundings, serve_loop}
use os_tp.Database.Serve.Listings.{Selects}
use os_tp.Database.Serve.Requests.{Shows, serve_loop-replies}
use os_tp.Tests.Shop.{
  shop_stock, shop_exec, sell_enough, sell_short, shop_select, shop_sold, shop_update_at, shop_has,
  row_number, whole_prints, pipes, pipe_channel,
}
use os_tp.Tests.Catalogue.{gin_line, gin_line-IsLine, any_price, old, gin_sizes}
use os_tp.Tests.Database.{party, gins, party-IsSound, party_size}

abbrev pub gin_rows : List Line
gin_rows = gin_line ∷ []

abbrev eighth : Bytes → ℕ
eighth q = elim (drop 7 q) [ [] ↦ 0 | c ∷ s ↦ c ]

abbrev store_exec : Bytes → ℤ → Bool × List Row × ℤ
store_exec q db =
    if eighth q == b'c'
    then (true, number_rows (some (pos 1)), db)
    else if eighth q == b'i'
    then (true, all_columns (shelved (shop_stock db) gin_rows), db)
    else shop_exec q db

abbrev one_shelf : Engine
one_shelf = record { Db = ℤ; exec = store_exec }

store_select :
    (db id : ℤ) → store_exec (select_stock id) db ≡ (true, number_rows (shop_stock db id), db)
unfolding select_stock
store_select db id = shop_select db id

store_update :
    (db : ℤ) (n : ℕ) (id : ℤ)
    → store_exec (update_quantity (pos n) id) db ≡ shop_exec (update_quantity (pos n) id) db
unfolding update_quantity
store_update db n id = refl

abbrev store_products : Products one_shelf
store_products = record {
  stock = shop_stock;
  select_law = store_select;
  update_law = λ db n id s e h. (
    s -ℤ pos n,
    store_update db n id ∙ (shop_update_at db n id s e ∙ sell_enough s n h),
    λ j. shop_sold db n id s j e,
  );
  check_law = λ db n id s e h.
      store_update db n id
      ∙ (shop_update_at db n id s e
          ∙ (sell_short s n h ∙ ap (λ d. (false, [], d)) (sym (shop_has db id s e).1)));
}

one_row :
    (total address : Bytes) (timestamp db : ℤ)
    → store_exec (order_text total address timestamp) db ≡ (true, [], db)
unfolding order_text insert_order
one_row total address timestamp db = refl

store_entry : (id : ℤ) (e : OrderEntry) (db : ℤ) → store_exec (entry_text id e) db ≡ (true, [], db)
unfolding entry_text insert_entry
store_entry id e db = refl

abbrev store_inserts : Inserts one_shelf store_products row_number
store_inserts = record {
  HasRoom = λ db. Unit {0};
  insert_order_law = λ db N total address timestamp room plain quoted.
      (7, db, one_row (N.print_fixed total) address timestamp db, refl, omega arith, λ j. refl);
  insert_entry_law = λ db n e. (db, store_entry (pos n) e db, λ j. refl);
}

store_count :
    (db : ℤ)
    → store_exec count_query db
      ≡ (true, number_rows (some (pos (length (shelved (shop_stock db) gin_rows)))), db)
unfolding count_query
store_count db = refl

store_list :
    (db : ℤ) → store_exec list_query db ≡ (true, all_columns (shelved (shop_stock db) gin_rows), db)
unfolding list_query
store_list db = refl

abbrev store_listing : Listing one_shelf
store_listing = record {
  lines = λ db. shelved (shop_stock db) gin_rows;
  count_law = store_count;
  list_law = store_list;
}

abbrev showing : Shows one_shelf store_products store_listing gin_rows
showing = record { shows = λ db. refl }

abbrev store_surroundings : Surroundings pipes one_shelf
store_surroundings = record {
  last_insert_rowid = row_number;
  printing = whole_prints;
  atof = any_price;
  junk = old;
  garbage = pos 5;
  time = λ turn. pos 1479;
  select = λ w. (true, w);
}

abbrev store_selects : Selects pipes one_shelf store_surroundings 0 1 pipe_channel
store_selects = record { select_law = λ w coming gone held some. (w, refl, held) }

-- Three bottles, of which two are sold; the second order then asks for too many.
abbrev pub evening : List Request
evening = ask ∷ buy party (gins ∷ []) ∷ buy party (gins ∷ []) ∷ ask ∷ []

pub evening-IsServed : All (IsServed whole_prints 100 (shop_stock (pos 3))) evening
evening-IsServed =
    let bought : IsServed whole_prints 100 (shop_stock (pos 3)) (buy party (gins ∷ [])) =
      (party-IsSound, ((pos 3, refl), tt), omega (arith, party_size), omega (arith, party_size)) in
    (tt, (bought, (bought, (tt, tt))))

pub three-IsStocked : IsStocked (shop_stock (pos 3))
three-IsStocked id s e = (3, sym (shop_has (pos 3) id s e).1, omega arith)

abbrev calls : Bytes
calls = all_bytes evening ++ (int_bytes message_close ++ 9 ∷ [])

serve_loop-replies_example :
    (w' : Bytes × Bytes) × (db' : ℤ) × (serve_loop pipes 100 one_shelf store_surroundings 0 1 5
        ((calls, []), pos 3)
      ≡ ok (tt, (w', db')))
    × (w' ≡ (9 ∷ [], [] ++ replies any_price gin_rows (shop_stock (pos 3)) evening))
    × ((j : ℤ) → shop_stock db' j ≡ after_all (shop_stock (pos 3)) evening j)
    × IsStocked (shop_stock db')
serve_loop-replies_example =
    serve_loop-replies pipes 100 one_shelf store_surroundings 0 1 pipe_channel store_selects
      store_products store_inserts store_listing gin_rows showing evening (9 ∷ []) [] (calls, [])
      (pos 3) (λ db. tt) (λ t. (omega arith)) (omega arith) (omega arith) (gin_line-IsLine, tt)
      (omega (arith, gin_sizes.0), tt) evening-IsServed three-IsStocked refl
