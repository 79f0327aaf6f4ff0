-- ===== src/Tests/Product.antt =====
-- Products of common/product.c at concrete values.
use os_tp.Base.{ℕ, ◌≡◌, refl, [], ◌∷◌, ◌++◌, arith, Bytes, pos, to_word, ok, ◌>>=◌}
use os_tp.Memory.{malloc, memcpy, put, strlen, read_block}
use os_tp.Encoding.{int_bytes, float_bytes, to_bytes}
use os_tp.Product.{Product, product_serialize, product_unserialize}
use os_tp.Product.Codec.{IsProduct, product_unserialize-serialize}

-- "Gin" and "dry", of 30.5 pesos; 60 in stock.
abbrev pub gin : Bytes
gin = 71 ∷ 105 ∷ 110 ∷ []

abbrev pub dry : Bytes
dry = 100 ∷ 114 ∷ 121 ∷ []

abbrev pub bottle : Product
bottle = record {
  id = pos 2;
  name = gin ++ 0 ∷ [];
  description = dry ++ 0 ∷ [];
  price = 0x41f40000;
  stock = pos 60;
}

abbrev rubbish : ℕ → ℕ
rubbish i = 205

bottle-IsProduct : IsProduct bottle
bottle-IsProduct = record {
  id_fits = omega arith;
  name_is = record { text = gin; is_text = omega arith; whole = refl; fits = omega arith };
  description_is = record { text = dry; is_text = omega arith; whole = refl; fits = omega arith };
  price_fits = omega arith;
  stock_fits = omega arith;
  size_fits = omega arith;
}

serialized :
    product_serialize rubbish bottle
    ≡ ok (
        2 ∷ 0 ∷ 0 ∷ 0 ∷ 4 ∷ 0 ∷ 0 ∷ 0 ∷ 71 ∷ 105 ∷ 110 ∷ 0 ∷ 4 ∷ 0 ∷ 0 ∷ 0 ∷ 100 ∷ 114 ∷ 121 ∷ 0 ∷ 0
        ∷ 0 ∷ 244 ∷ 65 ∷ 60 ∷ 0 ∷ 0 ∷ 0 ∷ [])
unfolding product_serialize malloc memcpy put strlen read_block int_bytes float_bytes to_bytes
    to_word
serialized = refl

product_unserialize-serialize_example :
    (product_serialize rubbish bottle >>= λ d. product_unserialize (d ++ 1 ∷ 2 ∷ [])) ≡ ok bottle
product_unserialize-serialize_example =
    product_unserialize-serialize rubbish bottle (1 ∷ 2 ∷ []) bottle-IsProduct
