-- ===== src/Order/Entries.antt =====
-- What adding does to the list of entries: quantities by product, and no product twice.
use os_tp.Base.{
  ℕ, ◌≡◌, refl, inl, inr, false, ◌||◌, Option, none, some, List, [], ◌∷◌, arith, ℤ, eq_ℤ, eq_ℤ_iff,
  add_int, if◌then◌else◌, Bool-cases,
}
use os_tp.Order.{OrderEntry}
use os_tp.Order.Search.{add_to, has}

-- The first entry of a product.
unfoldable pub find : ℤ → List OrderEntry → Option OrderEntry
find product_id [] = none
find product_id (e ∷ es) = if eq_ℤ product_id e.product_id then some e else find product_id es

-- No product stands in two entries.
abbrev pub IsUnique : List OrderEntry → Type 0
IsUnique [] = Unit {0}
IsUnique (e ∷ es) = (has e.product_id es ≡ false) × IsUnique es

-- What the entry of a product becomes when the product is added.
abbrev pub grown : Option OrderEntry → ℤ → ℤ → ℕ → OrderEntry
grown none product_id quantity price = record {
  product_id = product_id;
  quantity = quantity;
  price = price;
}
grown (some e) product_id quantity price = record e { quantity = add_int e.quantity quantity }

pub find-add_to :
    (es : List OrderEntry) (product_id other quantity : ℤ) (price : ℕ)
    → find other (add_to es product_id quantity price) ≡ (
        if eq_ℤ other product_id
        then some (grown (find product_id es) product_id quantity price)
        else find other es)
unfolding find add_to
find-add_to [] product_id other quantity price = refl
find-add_to (e ∷ es) product_id other quantity price = ground (
  arith,
  eq_ℤ_iff product_id e.product_id,
  eq_ℤ_iff other e.product_id,
  eq_ℤ_iff other product_id,
  find-add_to es product_id other quantity price,
)

pub has-add_to :
    (es : List OrderEntry) (product_id other quantity : ℤ) (price : ℕ)
    → has other (add_to es product_id quantity price) ≡ (eq_ℤ other product_id || has other es)
unfolding has add_to
has-add_to [] product_id other quantity price = refl
has-add_to (e ∷ es) product_id other quantity price = ground (
  arith,
  eq_ℤ_iff product_id e.product_id,
  eq_ℤ_iff other e.product_id,
  eq_ℤ_iff other product_id,
  has-add_to es product_id other quantity price,
)

pub add_to-IsUnique :
    (es : List OrderEntry) (product_id quantity : ℤ) (price : ℕ)
    → IsUnique es
    → IsUnique (add_to es product_id quantity price)
unfolding add_to has
add_to-IsUnique [] product_id quantity price h = (refl, tt)
add_to-IsUnique (e ∷ es) product_id quantity price h =
    elim (Bool-cases (eq_ℤ product_id e.product_id)) [
      | inl same ↦ rw same h
      | inr differs ↦ rw differs (
        ground (
          arith,
          has-add_to es product_id e.product_id quantity price,
          eq_ℤ_iff product_id e.product_id,
          eq_ℤ_iff e.product_id product_id,
        ),
        add_to-IsUnique es product_id quantity price h.1,
      )
    ]
