-- ===== src/Product/Printing.antt =====
-- `productPrint` and `productFree` of common/product.c, and `printProducts` of client/client.c, which
-- lists the products with their numbers in the menu. What is printed is text; `print_fixed` is `%.2f`.
use os_tp.Base.{
  ℕ, suc, ◌≡◌, refl, List, [], ◌∷◌, ◌++◌, Bytes, pos, Outcome, ok, ◌>>=◌, bind-ok, map,
}
use os_tp.Memory.{text_of}
use os_tp.Decimal.{codes, print_int}
use os_tp.Product.{Product}

-- `productFree`: the blocks that are given back, then the product itself.
pub product_free : Product → List Bytes
product_free p = p.description ∷ p.name ∷ []

module _ (print_fixed : ℕ → Bytes) where
  -- What is printed of a product with this name and description.
  abbrev pub product_lines : Product → Bytes → Bytes → Bytes
  product_lines p name description =
      codes "*"
      ++ (name
          ++ (codes " (#"
              ++ (print_int p.id
                  ++ (codes ")*"
                      ++ (10 ∷ description
                          ++ (10 ∷ codes "Price: $"
                              ++ (print_fixed p.price
                                  ++ (10 ∷ codes "Stock: " ++ (print_int p.stock ++ 10 ∷ [])))))))))

  unfoldable pub product_print : Product → Outcome Bytes
  product_print p = do
    name ← text_of p.name
    description ← text_of p.description
    ok (product_lines p name description)

  -- The loop, with the products left from the i-th on.
  unfoldable pub print_products : ℕ → List Product → Outcome Bytes
  unfolding product_print
  print_products i [] = ok []
  print_products i (p ∷ products) = do
    text ← product_print p
    rest ← print_products (suc i) products
    ok (print_int (pos (suc i)) ++ (codes " - " ++ (text ++ rest)))

  -- A list of products as it is printed from the i-th on: name, description and text for each.
  abbrev pub listing : ℕ → List (Product × Bytes × Bytes) → Bytes
  listing i [] = []
  listing i ((p, name, description) ∷ shown) =
      print_int (pos (suc i))
      ++ (codes " - " ++ (product_lines p name description ++ listing (suc i) shown))

  -- The products of which these are the texts.
  abbrev pub HaveTexts : List (Product × Bytes × Bytes) → Type 0
  HaveTexts [] = Unit
  HaveTexts ((p, name, description) ∷ shown) =
      (text_of p.name ≡ ok name) × (text_of p.description ≡ ok description) × HaveTexts shown

  -- Where the strings of all products end, the menu lists each of them, numbered one after the other.
  pub print_products-listing :
      (i : ℕ) (shown : List (Product × Bytes × Bytes))
      → HaveTexts shown
      → print_products i (map (λ s. s.0) shown) ≡ ok (listing i shown)
  unfolding print_products product_print
  print_products-listing i [] h = refl
  print_products-listing i ((p, name, description) ∷ shown) (named, described, others) =
      let lines : product_print p ≡ ok (product_lines p name description) =
        bind-ok _ named (bind-ok _ described refl) in
      bind-ok _ lines (bind-ok _ (print_products-listing (suc i) shown others) refl)
