-- ===== src/Database/Catalogue/Listing.antt =====
-- What `get_products` finds.
use os_tp.Base.{
  ℕ, suc, ◌<◌, ◌^◌, ◌≡◌, refl, sym, ap, ◌∙◌, true, Option, none, some, List, [], ◌∷◌, ◌++◌,
  append_assoc, arith, All, Bytes, length, replicate, ℤ, pos, IsInt, of_word-to_word, ltb_ℤ, ok,
  bind-ok, append-nil, ◌+◌,
}
use os_tp.Io.{lift-ok}
use os_tp.Memory.Laws.{IsText}
use os_tp.Decimal.{print_int}
use os_tp.Decimal.Laws.{strtol-print_int}
use os_tp.Product.{Product}
use os_tp.Product.Codec.{product_of_texts, IsProduct, product_new-IsProduct}
use os_tp.Database.Engine.{Row, Engine, number_rows}
use os_tp.Database.Stock.{store_numbers, run_query}
use os_tp.Database.Catalogue.{
  count_query, list_query, atoi, append_product, append_products, append_rows, get_products,
}

-- A row of the table; the price is the text that SQLite gives.
pub record Line : Type 0 where
  pub id : ℤ
  pub name : Bytes
  pub description : Bytes
  pub price : Bytes
  pub quantity : ℤ

abbrev pub columns : Line → Row
columns l =
    some (print_int l.id)
    ∷ some l.name
    ∷ some l.description
    ∷ some l.price
    ∷ some (print_int l.quantity)
    ∷ []

abbrev pub all_columns : List Line → List Row
all_columns [] = []
all_columns (l ∷ ls) = columns l ∷ all_columns ls

-- The product of a row, and what the row must be for it.
abbrev pub product_of : (Bytes → ℕ) → Line → Product
product_of atof l = product_of_texts l.id l.name l.description (atof l.price) l.quantity

abbrev pub products_of : (Bytes → ℕ) → List Line → List Product
products_of atof [] = []
products_of atof (l ∷ ls) = product_of atof l ∷ products_of atof ls

pub record IsLine (atof : Bytes → ℕ) (l : Line) : Type 0 where
  pub name_is : IsText l.name
  pub description_is : IsText l.description
  pub texts_fit : length l.name + length l.description + 22 < 2 ^ 31
  pub id_fits : IsInt l.id
  pub quantity_fits : IsInt l.quantity
  pub price_fits : atof l.price < 2 ^ 32

-- The rows of the table `products`, as the two queries find them: no other process changes the
-- table in between.
pub record Listing (S : Engine) : Type 1 where
  pub lines : S.Db → List Line
  pub count_law :
      (db : S.Db) → S.exec count_query db ≡ (true, number_rows (some (pos (length (lines db)))), db)
  pub list_law : (db : S.Db) → S.exec list_query db ≡ (true, all_columns (lines db), db)

abbrev pub filled : List Product → List (Option Product)
filled [] = []
filled (p ∷ ps) = some p ∷ filled ps

append_product-filled :
    (ps : List Product) (n : ℕ) (p : Product)
    → append_product (filled ps ++ replicate (suc n) none) p
      ≡ ok (filled ps ++ some p ∷ replicate n none)
unfolding append_product
append_product-filled [] n p = refl
append_product-filled (q ∷ ps) n p = rw (append_product-filled ps n p) refl

atoi-print_int : (z : ℤ) → IsInt z → atoi (print_int z) ≡ z
atoi-print_int z h = rw (strtol-print_int z) (of_word-to_word z h)

append_products-line :
    (atof : Bytes → ℕ) (junk : ℕ → ℕ) (ps : List Product) (n : ℕ) (l : Line)
    → IsLine atof l
    → append_products atof junk (filled ps ++ replicate (suc n) none) (columns l)
      ≡ ok (filled ps ++ some (product_of atof l) ∷ replicate n none)
unfolding append_products
append_products-line atof junk ps n l h =
    rw (atoi-print_int l.id h.id_fits, atoi-print_int l.quantity h.quantity_fits)
      (bind-ok _
        (product_new-IsProduct junk l.id l.name [] l.description [] (atof l.price) l.quantity
          h.name_is h.description_is h.texts_fit h.id_fits h.quantity_fits h.price_fits).0
        (append_product-filled ps n (product_of atof l)))

filled-next :
    (ps : List Product) (p : Product) (rest : List (Option Product))
    → filled ps ++ some p ∷ rest ≡ filled (ps ++ p ∷ []) ++ rest
filled-next [] p rest = refl
filled-next (q ∷ ps) p rest = ap (◌∷◌ (some q)) (filled-next ps p rest)

append_rows-lines :
    (atof : Bytes → ℕ) (junk : ℕ → ℕ) (ps : List Product) (ls : List Line)
    → All (IsLine atof) ls
    → append_rows atof junk (filled ps ++ replicate (length ls) none) (all_columns ls)
      ≡ ok (filled (ps ++ products_of atof ls))
unfolding append_rows
append_rows-lines atof junk ps [] h = ap ok (append-nil _ ∙ ap filled (sym (append-nil ps)))
append_rows-lines atof junk ps (l ∷ ls) h =
    bind-ok _ (append_products-line atof junk ps (length ls) l h.0) (
      ap (λ a. append_rows atof junk a (all_columns ls)) (filled-next ps (product_of atof l) _)
      ∙ append_rows-lines atof junk (ps ++ product_of atof l ∷ []) ls h.1
      ∙ ap (λ xs. ok (filled xs)) (append_assoc ps (product_of atof l ∷ []) (products_of atof ls)))

-- What `get_products` gives for a table: -1 for an empty one.
abbrev pub found : List Product → Option (List (Option Product))
found [] = none
found (p ∷ ps) = some (filled (p ∷ ps))

some_products : (n : ℕ) → ltb_ℤ (pos 0) (pos (suc n)) ≡ true
some_products n = ground arith

module _ (S : Engine) (listing : Listing S) where
  open S use {Db, exec}
  open listing use {lines, count_law, list_law}

  counted :
      (garbage : ℤ) (n : ℕ)
      → n < 2 ^ 31
      → store_numbers garbage (number_rows (some (pos n))) ≡ ok (pos n)
  unfolding store_numbers
  counted garbage n h = rw (strtol-print_int (pos n), of_word-to_word (pos n) (h, omega arith)) refl

  ran :
      (q : Bytes) (db : Db) {rows : List Row}
      → exec q db ≡ (true, rows, db)
      → run_query S q db ≡ ok ((true, rows), db)
  unfolding run_query
  ran q db e = rw e refl

  -- `get_products` gives one product for each row of the table, in the order of the rows, with the
  -- row's columns as its fields, in an array that has just the room for them; for an empty table
  -- it returns -1. Every row has texts, an id and a quantity that fit their types, there are less
  -- than 2^31 of them, and the variables hold anything before.
  pub get_products-found :
      (atof : Bytes → ℕ) (junk : ℕ → ℕ) (garbage : ℤ) (db : Db) (ls : List Line)
      → lines db ≡ ls
      → length ls < 2 ^ 31
      → All (IsLine atof) ls
      → get_products S atof junk garbage db ≡ ok (found (products_of atof ls), db)
  unfolding get_products
  get_products-found atof junk garbage db [] is small h =
      bind-ok _ (ran count_query db (count_law db ∙ rw is refl))
        (bind-ok _ (lift-ok db (counted garbage 0 small)) refl)
  get_products-found atof junk garbage db (l ∷ ls) is small h =
      bind-ok _ (ran count_query db (count_law db ∙ rw is refl)) (
        bind-ok _ (lift-ok db (counted garbage (suc (length ls)) small)) (
          rw (some_products (length ls)) (
            bind-ok _ (ran list_query db (list_law db ∙ rw is refl))
              (bind-ok _ (lift-ok db (append_rows-lines atof junk [] (l ∷ ls) h)) refl))))

pub products_of-IsProduct :
    (atof : Bytes → ℕ) (ls : List Line) → All (IsLine atof) ls → All IsProduct (products_of atof ls)
products_of-IsProduct atof [] h = tt
products_of-IsProduct atof (l ∷ ls) h = (
  (product_new-IsProduct (λ i. 0) l.id l.name [] l.description [] (atof l.price) l.quantity
      h.0.name_is h.0.description_is h.0.texts_fit h.0.id_fits h.0.quantity_fits h.0.price_fits).1,
  products_of-IsProduct atof ls h.1,
)
