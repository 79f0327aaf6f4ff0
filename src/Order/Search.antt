-- ===== src/Order/Search.antt =====
-- What adding to a list of entries means, and where the search of `orderAdd` in common/order.c ends.
use os_tp.Base.{
  ℕ, suc, ◌+◌, ◌≡◌, refl, ap, ◌∙◌, inl, inr, Bool, true, false, ◌||◌, Option, some, List, [], ◌∷◌,
  ◌++◌, append_assoc, arith, length, length-append, ℤ, eq_ℤ, add_int, ok, bind-ok, ltb,
  if◌then◌else◌, Bool-cases,
}
use os_tp.Order.{order_max_size, OrderEntry, find_entry}
use os_tp.Order.View.{slots, slots-append, entry_at-slots}

-- Adding to a list of entries: to the entry of the product, or else as a new last entry.
unfoldable pub add_to : List OrderEntry → ℤ → ℤ → ℕ → List OrderEntry
add_to [] product_id quantity price =
    record { product_id = product_id; quantity = quantity; price = price } ∷ []
add_to (e ∷ es) product_id quantity price =
    if eq_ℤ product_id e.product_id
    then record e { quantity = add_int e.quantity quantity } ∷ es
    else e ∷ add_to es product_id quantity price

-- Whether there is an entry of the product.
unfoldable pub has : ℤ → List OrderEntry → Bool
has product_id [] = false
has product_id (e ∷ es) = eq_ℤ product_id e.product_id || has product_id es

-- Whether an order with these entries can take the product.
unfoldable pub takes : ℤ → List OrderEntry → Bool
unfolding has
takes product_id es = has product_id es || ltb (length es) order_max_size

-- Where the search of `orderAdd` ends: at the first entry of the product, or behind the last entry.
pub data Search (product_id quantity : ℤ) (price : ℕ) (es : List OrderEntry) : Type 0 where
  found :
      (pre : List OrderEntry) (e : OrderEntry) (post : List OrderEntry)
      → es ≡ pre ++ e ∷ post
      → has product_id es ≡ true
      → add_to es product_id quantity price
        ≡ pre ++ (record e { quantity = add_int e.quantity quantity }) ∷ post
      → ((before : List OrderEntry) (tail : List (Option OrderEntry))
          → find_entry (length es) (length before) (slots before ++ (slots es ++ tail)) product_id
            ≡ ok (length before + length pre))
      → Search product_id quantity price es
  missing :
      has product_id es ≡ false
      → add_to es product_id quantity price
        ≡ es ++ (record { product_id = product_id; quantity = quantity; price = price }) ∷ []
      → ((before : List OrderEntry) (tail : List (Option OrderEntry))
          → find_entry (length es) (length before) (slots before ++ (slots es ++ tail)) product_id
            ≡ ok (length before + length es))
      → Search product_id quantity price es

-- One round of the search that does not stop.
find_entry-pass :
    (product_id : ℤ) (e : OrderEntry) (es before : List OrderEntry)
    (tail : List (Option OrderEntry))
    → eq_ℤ product_id e.product_id ≡ false
    → find_entry
        (suc (length es))
        (length before)
        (slots before ++ (some e ∷ slots es ++ tail))
        product_id
      ≡ find_entry
          (length es)
          (length (before ++ e ∷ []))
          (slots (before ++ e ∷ []) ++ (slots es ++ tail))
          product_id
unfolding find_entry
find_entry-pass product_id e es before tail differs =
    bind-ok _ (entry_at-slots before e (slots es ++ tail))
      (rw differs (rw (slots-append before (e ∷ []), append_assoc, last) refl))
  where
    last : length (before ++ e ∷ []) ≡ suc (length before)
    last = omega (arith, length-append before (e ∷ []))

find_entry-stop :
    (product_id : ℤ) (e : OrderEntry) (es before : List OrderEntry)
    (tail : List (Option OrderEntry))
    → eq_ℤ product_id e.product_id ≡ true
    → find_entry
        (suc (length es))
        (length before)
        (slots before ++ (some e ∷ slots es ++ tail))
        product_id
      ≡ ok (length before)
unfolding find_entry
find_entry-stop product_id e es before tail same =
    bind-ok _ (entry_at-slots before e (slots es ++ tail)) (rw same)

Search-cons :
    (product_id quantity : ℤ) (price : ℕ) (e : OrderEntry) {es : List OrderEntry}
    → eq_ℤ product_id e.product_id ≡ false
    → Search product_id quantity price es
    → Search product_id quantity price (e ∷ es)
unfolding has add_to
Search-cons product_id quantity price e {es} differs (found pre f post splits here adds finds) =
    found (e ∷ pre) f post (ap (◌∷◌ e) splits) (rw (differs, here)) (rw (differs, adds))
      λ before tail.
        find_entry-pass product_id e es before tail differs
        ∙ finds (before ++ e ∷ []) tail
        ∙ ap ok (omega (arith, length-append before (e ∷ [])))
Search-cons product_id quantity price e {es} differs (missing here adds finds) =
    missing (rw (differs, here)) (rw (differs, adds)) λ before tail.
      find_entry-pass product_id e es before tail differs
      ∙ finds (before ++ e ∷ []) tail
      ∙ ap ok (omega (arith, length-append before (e ∷ [])))

pub Search-entries :
    (product_id quantity : ℤ) (price : ℕ) (es : List OrderEntry)
    → Search product_id quantity price es
unfolding has add_to find_entry
Search-entries product_id quantity price [] = missing refl refl λ before tail. ap ok (omega arith)
Search-entries product_id quantity price (e ∷ es) =
    elim (Bool-cases (eq_ℤ product_id e.product_id)) [
      | inl same ↦
          found [] e es refl (rw same) (rw same)
            λ before tail. find_entry-stop product_id e es before tail same ∙ ap ok (omega arith)
      | inr differs ↦
          Search-cons product_id quantity price e differs
            (Search-entries product_id quantity price es)
    ]
