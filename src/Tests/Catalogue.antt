-- ===== src/Tests/Catalogue.antt =====
-- The list of products: `send_products` of database/databaseServer.c, and server/forkedServer.c.
use os_tp.Base.{
  ℕ, ◌≡◌, refl, ap, Bool, true, false, some, List, [], ◌∷◌, ◌++◌, arith, Bytes, length, pos, ok,
  All, ◌==◌, if◌then◌else◌,
}
use os_tp.Encoding.{int_bytes, float_bytes, to_bytes}
use os_tp.Product.{Product}
use os_tp.Product.Codec.{layout}
use os_tp.Comm.{sockets}
use os_tp.Comm.Frames.{IsMessage, frame}
use os_tp.Database.Engine.{Row, Engine, number_rows}
use os_tp.Database.Place.{message_unsatisfiable_order}
use os_tp.Database.Catalogue.{count_query, list_query}
use os_tp.Database.Catalogue.Listing.{
  Line, IsLine, Listing, all_columns, products_of, products_of-IsProduct,
}
use os_tp.Forked.{cmd_place_order, process_order}
use os_tp.Forked.Products.{IsPassable}
use os_tp.Forked.Orders.{process_order-suborder}
use os_tp.Tests.Wires.{Four, four, ends, wires}

-- A table whose two queries differ in the eighth character.
abbrev pub is_count : Bytes → Bool
is_count q = elim q [ [] ↦ false | c ∷ s ↦ c == b'c' ]

abbrev pub table_exec : Bytes → List Line → Bool × List Row × List Line
table_exec (c1 ∷ c2 ∷ c3 ∷ c4 ∷ c5 ∷ c6 ∷ c7 ∷ q) ls =
    (true, if is_count q then number_rows (some (pos (length ls))) else all_columns ls, ls)
table_exec q ls = (true, [], ls)

abbrev pub table : Engine
table = record { Db = List Line; exec = table_exec }

pub table_count :
    (ls : List Line) → table_exec count_query ls ≡ (true, number_rows (some (pos (length ls))), ls)
unfolding count_query
table_count ls = refl

pub table_list : (ls : List Line) → table_exec list_query ls ≡ (true, all_columns ls, ls)
unfolding list_query
table_list ls = refl

abbrev pub listing : Listing table
listing = record { lines = λ ls. ls; count_law = table_count; list_law = table_list }

abbrev pub gin_line : Line
gin_line = record {
  id = pos 2;
  name = 71 ∷ 105 ∷ 110 ∷ [];
  description = 100 ∷ 114 ∷ 121 ∷ [];
  price = 52 ∷ 48 ∷ [];
  quantity = pos 30;
}

abbrev pub any_price : Bytes → ℕ
any_price s = 0x42200000

pub gin_line-IsLine : IsLine any_price gin_line
gin_line-IsLine = record {
  name_is = omega arith;
  description_is = omega arith;
  texts_fit = omega arith;
  id_fits = omega arith;
  quantity_fits = omega arith;
  price_fits = omega arith;
}

abbrev pub old : ℕ → ℕ
old i = 170

abbrev pub gin : List Product
gin = products_of any_price (gin_line ∷ [])

pub gin_sizes : All (λ p. length (layout p) ≡ 28) gin
unfolding int_bytes float_bytes to_bytes
gin_sizes = (refl, tt)

pub gin-IsPassable : All (IsPassable 100) gin
gin-IsPassable = (
  (
    (products_of-IsProduct any_price (gin_line ∷ []) (gin_line-IsLine, tt)).0,
    (
      (λ e. omega (arith, gin_sizes.0, ap length e)),
      omega (arith, gin_sizes.0),
      omega (arith, gin_sizes.0),
      omega arith,
    ),
  ),
  tt,
)

abbrev three : Bytes
three = 1 ∷ 2 ∷ 3 ∷ []

three-IsMessage : IsMessage 100 three
three-IsMessage = ((λ e. cc), omega arith, omega arith, omega arith)

process_order-suborder_example :
    (w' : Four) × (process_order four 100 sockets ends old (
      (
        frame three ++ 8 ∷ [],
        [],
        int_bytes message_unsatisfiable_order ++ (frame three ++ 9 ∷ []),
        [],
      ),
      false,
    )
      ≡ ok (true, (w', false)))
    × (w' ≡ (
      8 ∷ [],
      [] ++ (frame (int_bytes message_unsatisfiable_order) ++ frame three),
      9 ∷ [],
      [] ++ (int_bytes cmd_place_order ++ frame three),
    ))
process_order-suborder_example =
    process_order-suborder four 100 sockets ends wires old three three (8 ∷ []) [] (9 ∷ []) []
      (
        frame three ++ 8 ∷ [],
        [],
        int_bytes message_unsatisfiable_order ++ (frame three ++ 9 ∷ []),
        [],
      )
      three-IsMessage three-IsMessage refl
