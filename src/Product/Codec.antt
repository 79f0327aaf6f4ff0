-- ===== src/Product/Codec.antt =====
-- The serialized form of a product, and that it is read back.
use os_tp.Base.{
  ℕ, ◌+◌, ◌^◌, ◌<◌, ◌≡◌, refl, ap, ◌∙◌, [], ◌∷◌, ◌++◌, append_assoc, arith, Bytes, length, ℤ, pos,
  IsInt, ok, ◌>>=◌, bind-ok, ◌⊎◌, inl, inr, true, false, ◌≤ℤ◌, negsuc, false, length-append, lt→ltb,
}
use os_tp.Memory.Laws.{IsText, strlen-append, strncpy-whole, read_block-append, length-malloc}
use os_tp.Memory.Cursors.{Filled-malloc, put-then, Filled-block}
use os_tp.Strings.{IsString, length-string, strlen-string, read_block-string, IsInt-length}
use os_tp.Encoding.{int_bytes, float_bytes}
use os_tp.Encoding.Laws.{field_sizes, read_int-append, read_float-append}
use os_tp.Product.{
  Product, product_new, product_serialize, product_unserialize, product_set_stock, int_offset,
}

-- A product as the program makes them.
pub record IsProduct (p : Product) : Type 0 where
  pub id_fits : IsInt p.id
  pub name_is : IsString p.name
  pub description_is : IsString p.description
  pub price_fits : p.price < 2 ^ 32
  pub stock_fits : IsInt p.stock
  pub size_fits : length p.name + length p.description + 20 < 2 ^ 31

int_offset_lem : (n : ℕ) → n < 2 ^ 31 → int_offset n ≡ ok tt
unfolding int_offset
int_offset_lem n h = rw (lt→ltb n (2 ^ 31) h) refl

product_in_range :
    (p : Product) → IsProduct p → int_offset (length p.name + length p.description + 16) ≡ ok tt
product_in_range p h = int_offset_lem _ (omega (arith, h.size_fits))

-- The bytes of a serialized product, field by field.
abbrev pub layout : Product → Bytes
layout p =
    int_bytes p.id
    ++ (int_bytes (pos (length p.name))
        ++ (p.name
            ++ (int_bytes (pos (length p.description))
                ++ (p.description ++ (float_bytes p.price ++ int_bytes p.stock)))))

pub length-layout : (p : Product) → length (layout p) ≡ length p.name + length p.description + 20
length-layout p = omega (
  field_sizes,
  length-append (int_bytes p.id) (
      int_bytes (pos (length p.name))
      ++ (p.name
          ++ (int_bytes (pos (length p.description))
              ++ (p.description ++ (float_bytes p.price ++ int_bytes p.stock))))),
  length-append (int_bytes (pos (length p.name))) (
      p.name
      ++ (int_bytes (pos (length p.description))
          ++ (p.description ++ (float_bytes p.price ++ int_bytes p.stock)))),
  length-append p.name (
      int_bytes (pos (length p.description))
      ++ (p.description ++ (float_bytes p.price ++ int_bytes p.stock))),
  length-append (int_bytes (pos (length p.description)))
      (p.description ++ (float_bytes p.price ++ int_bytes p.stock)),
  length-append p.description (float_bytes p.price ++ int_bytes p.stock),
  length-append (float_bytes p.price) (int_bytes p.stock),
)

-- Reading a serialized product gives the product, whatever lies behind it.
pub product_unserialize-layout :
    (p : Product) (rest : Bytes) → IsProduct p → product_unserialize (layout p ++ rest) ≡ ok p
unfolding product_unserialize
product_unserialize-layout p rest h = simp (
  append_assoc,
  read_int-append,
  read_float-append,
  read_block-append,
  h.id_fits,
  h.stock_fits,
  h.price_fits,
  IsInt-length h.name_is,
  IsInt-length h.description_is,
  product_in_range p h,
)

-- Whatever the fresh block holds, `productSerialize` writes every byte of it, none outside it, and
-- leaves the fields in order.
pub product_serialize-eq-layout :
    (junk : ℕ → ℕ) (p : Product) → IsProduct p → product_serialize junk p ≡ ok (layout p)
unfolding product_serialize
product_serialize-eq-layout junk p h = bind-ok _ (strlen-string h.name_is) (
    bind-ok _ (strlen-string h.description_is) (
      bind-ok _ (read_block-string h.name_is) (
        bind-ok _ (read_block-string h.description_is) rw
          (← length-string h.name_is, ← length-string h.description_is)
          (bind-ok _ (product_in_range p h) (
            put-then (int_bytes p.id) (length p.name + length p.description + 16) _ _
              (omega field_sizes) (Filled-malloc junk _)
              λ c1 f1.
                put-then (int_bytes (pos (length p.name)))
                  (length p.name + length p.description + 12) _ _ (omega field_sizes) f1
                  λ c2 f2.
                    put-then p.name (length p.description + 12) _ _ (omega field_sizes) f2 λ c3 f3.
                      put-then (int_bytes (pos (length p.description))) (length p.description + 8) _
                        _ (omega field_sizes) f3
                        λ c4 f4. put-then p.description 8 _ _ (omega field_sizes) f4 λ c5 f5.
                          put-then (float_bytes p.price) 4 _ _ (omega field_sizes) f5 λ c6 f6.
                            put-then (int_bytes p.stock) 0 _ _ (omega field_sizes) f6
                              λ c7 f7. ap ok (Filled-block f7 ∙ simp append_assoc))))))

-- A serialized product whose texts are terminated, whose numbers fit their types and whose serialized
-- form has fewer than 2 ^ 31 bytes is read back
-- as the product that was serialized, whatever bytes follow it, and whatever fresh memory held
-- when it was serialized.
pub product_unserialize-serialize :
    (junk : ℕ → ℕ) (p : Product) (rest : Bytes)
    → IsProduct p
    → (product_serialize junk p >>= λ d. product_unserialize (d ++ rest)) ≡ ok p
product_unserialize-serialize junk p rest h =
    bind-ok _ (product_serialize-eq-layout junk p h) (product_unserialize-layout p rest h)

-- The product of these fields, whose texts are terminated.
abbrev pub product_of_texts : ℤ → Bytes → Bytes → ℕ → ℤ → Product
product_of_texts id name description price stock = record {
  id = id;
  name = name ++ 0 ∷ [];
  description = description ++ 0 ∷ [];
  price = price;
  stock = stock;
}

-- `productNew` on two strings that a block measured by an `int` has room for, an id and a stock that fit an `int` and a
-- 32-bit price makes the product with these fields and with copies of exactly the two texts, and
-- it is one that can be serialized, whatever lies behind the strings and in fresh memory.
pub product_new-IsProduct :
    (junk : ℕ → ℕ) (id : ℤ) (name more description others : Bytes) (price : ℕ) (stock : ℤ)
    → IsText name
    → IsText description
    → length name + length description + 22 < 2 ^ 31
    → IsInt id
    → IsInt stock
    → price < 2 ^ 32
    → (product_new junk id (name ++ 0 ∷ more) (description ++ 0 ∷ others) price stock
        ≡ ok (product_of_texts id name description price stock))
      × IsProduct (product_of_texts id name description price stock)
unfolding product_new
product_new-IsProduct junk id name more description others price stock hn hd fits hi hs hp = (
  bind-ok _ (strlen-append name more hn) (
      bind-ok _ (strlen-append description others hd) (
        bind-ok _ (strncpy-whole _ name more (length-malloc junk _) hn)
          (bind-ok _ (strncpy-whole _ description others (length-malloc junk _) hd) refl))),
  record {
    id_fits = hi;
    name_is = record { text = name; is_text = hn; whole = refl; fits = omega arith };
    description_is = record { text = description; is_text = hd; whole = refl; fits = omega arith };
    price_fits = hp;
    stock_fits = hs;
    size_fits = omega (arith, length-append name (0 ∷ []), length-append description (0 ∷ []));
  },
)

pub set_stock_accepts :
    (p : Product) (k : ℕ) → product_set_stock p (pos k) ≡ (true, record p { stock = pos k })
unfolding product_set_stock
set_stock_accepts p k = ground arith

set_stock_refuses : (p : Product) (k : ℕ) → product_set_stock p (negsuc k) ≡ (false, p)
unfolding product_set_stock
set_stock_refuses p k = ground arith

-- For a product whose texts are terminated and whose numbers fit their types, and a number that
-- an `int` holds: `productSetStock` sets the stock to the number if it is not negative, and
-- returns 1; else it returns 0 and the product stays as it was. Either way its texts are
-- terminated and its numbers fit their types.
pub product_set_stock-IsProduct :
    (p : Product) (n : ℤ)
    → IsInt n
    → IsProduct p
    → IsProduct (product_set_stock p n).1
      × ((pos 0 ≤ℤ n × ((product_set_stock p n).0 ≡ true) × ((product_set_stock p n).1.stock ≡ n))
          ⊎ ((¬ (pos 0 ≤ℤ n))
              × ((product_set_stock p n).0 ≡ false)
              × ((product_set_stock p n).1 ≡ p)))
product_set_stock-IsProduct p (pos k) fits h = rw (set_stock_accepts p k) (
  record {
    id_fits = h.id_fits;
    name_is = h.name_is;
    description_is = h.description_is;
    price_fits = h.price_fits;
    stock_fits = fits;
    size_fits = h.size_fits;
  },
  inl (omega arith, refl, refl),
)
product_set_stock-IsProduct p (negsuc k) fits h =
    rw (set_stock_refuses p k) (h, inr ((λ e. omega arith), refl, refl))
