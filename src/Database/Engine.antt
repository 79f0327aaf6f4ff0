-- ===== src/Database/Engine.antt =====
-- SQLite as the server uses it: `sqlite3_exec`, and what its manual says of the queries that the
-- server makes, as named hypotheses.
use os_tp.Base.{
  ℕ, ◌≡◌, Bool, true, false, Option, none, some, List, [], ◌∷◌, ◌++◌, Bytes, ℤ, pos, ◌-ℤ◌, ◌≤ℤ◌,
  eq_ℤ, if◌then◌else◌,
}
use os_tp.Decimal.{codes, print_int}

-- The columns of a row as text, none for NULL.
abbrev pub Row : Type 0
Row = List (Option Bytes)

-- `exec query db`: whether the result is SQLITE_OK, the rows that the callback is called on, and
-- the database then.
pub record Engine : Type 1 where
  pub Db : Type 0
  pub exec : Bytes → Db → Bool × List Row × Db

-- The query of `get_stock`.
unfoldable pub select_stock : ℤ → Bytes
select_stock id = codes "SELECT quantity FROM products WHERE id=" ++ print_int id

-- The query of `update_stock`.
unfoldable pub update_quantity : ℤ → ℤ → Bytes
update_quantity quantity id =
    codes "UPDATE products SET quantity=quantity-"
    ++ (print_int quantity ++ (codes " WHERE id=" ++ print_int id))

-- The rows that a query of one number finds.
abbrev pub number_rows : Option ℤ → List Row
number_rows none = []
number_rows (some q) = (some (print_int q) ∷ []) ∷ []

-- The table `products`, by the primary key `id`, with its column `quantity` and the constraint that
-- this is not negative. An amount that is taken off is written without a sign.
pub record Products (S : Engine) : Type 1 where
  pub stock : S.Db → ℤ → Option ℤ
  pub select_law :
      (db : S.Db) (id : ℤ) → S.exec (select_stock id) db ≡ (true, number_rows (stock db id), db)
  pub update_law :
      (db : S.Db) (n : ℕ) (id s : ℤ)
      → stock db id ≡ some s
      → pos n ≤ℤ s
      → (db' : S.Db) × (S.exec (update_quantity (pos n) id) db ≡ (true, [], db'))
        × ((j : ℤ) → stock db' j ≡ (if eq_ℤ j id then some (s -ℤ pos n) else stock db j))
  pub check_law :
      (db : S.Db) (n : ℕ) (id s : ℤ)
      → stock db id ≡ some s
      → ¬ (pos n ≤ℤ s)
      → S.exec (update_quantity (pos n) id) db ≡ (false, [], db)
