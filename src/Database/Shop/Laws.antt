-- ===== src/Database/Shop/Laws.antt =====
-- The invariant of the shop, and what its requests leave as it is.
use os_tp.Base.{
  ℕ, ◌<◌, ◌≡◌, refl, Bool, true, false, some, List, [], ◌∷◌, Bytes, All, arith, length, ℤ, pos,
  IsInt, Option, ◌^◌, none,
}
use os_tp.Order.{OrderEntry}
use os_tp.Product.Codec
use os_tp.Database.Shelf.{Stock, HasProduct, available, all_enough, IsAsked, IsStocked}
use os_tp.Database.Shelf.Sales.{sold-IsStocked, sold-some}
use os_tp.Database.Store.{Printing}
use os_tp.Database.Catalogue.Listing.{Line, IsLine, products_of, product_of}
use os_tp.Database.Shop.{Request, ask, buy, shelved, order_after, after, IsKnown, IsServed}

pub order_after-IsStocked :
    (enough : Bool) (stock : Stock) (es : List OrderEntry)
    → all_enough stock es ≡ enough
    → IsStocked stock
    → All IsAsked es
    → IsStocked (order_after enough stock es)
order_after-IsStocked true stock es is stocked asked = sold-IsStocked stock es stocked asked is
order_after-IsStocked false stock es is stocked asked = stocked

pub after-IsStocked :
    (N : Printing) (rounds : ℕ) (stock : Stock) (r : Request)
    → IsServed N rounds stock r
    → IsStocked stock
    → IsStocked (after stock r)
after-IsStocked N rounds stock ask h stocked = stocked
after-IsStocked N rounds stock (buy o es) h stocked =
    order_after-IsStocked (all_enough stock es) stock es refl stocked h.0.asked

order_after-some :
    (enough : Bool) (stock : Stock) (es : List OrderEntry) (id s : ℤ)
    → stock id ≡ some s
    → (s' : ℤ) × (order_after enough stock es id ≡ some s')
order_after-some true stock es id s here = sold-some stock es id s here
order_after-some false stock es id s here = (s, here)

after-some :
    (stock : Stock) (r : Request) (id s : ℤ)
    → stock id ≡ some s
    → (s' : ℤ) × (after stock r id ≡ some s')
after-some stock ask id s here = (s, here)
after-some stock (buy o es) id s here = order_after-some (all_enough stock es) stock es id s here

after-IsKnown :
    (stock : Stock) (r : Request) (es : List OrderEntry)
    → All (IsKnown stock) es
    → All (IsKnown (after stock r)) es
after-IsKnown stock r [] h = tt
after-IsKnown stock r (e ∷ es) ((s, here), h) =
    (after-some stock r e.product_id s here, after-IsKnown stock r es h)

pub after-IsServed :
    (N : Printing) (rounds : ℕ) (stock : Stock) (r : Request) (rs : List Request)
    → All (IsServed N rounds stock) rs
    → All (IsServed N rounds (after stock r)) rs
after-IsServed N rounds stock r [] h = tt
after-IsServed N rounds stock r (ask ∷ rs) h = (tt, after-IsServed N rounds stock r rs h.1)
after-IsServed N rounds stock r (buy o es ∷ rs) ((sound, known, small, enough), h) =
    ((sound, after-IsKnown stock r es known, small, enough), after-IsServed N rounds stock r rs h)

pub IsKnown-HasProduct :
    (stock : Stock) (es : List OrderEntry)
    → IsStocked stock
    → All (IsKnown stock) es
    → All (HasProduct stock) es
IsKnown-HasProduct stock [] stocked h = tt
IsKnown-HasProduct stock (e ∷ es) stocked ((s, here), h) =
    let (n, is, fits) = stocked e.product_id s here in
    ((s, here, rw is (omega arith)), IsKnown-HasProduct stock es stocked h)

option-IsInt :
    (o : Option ℤ)
    → ((s : ℤ) → o ≡ some s → (n : ℕ) × (s ≡ pos n) × (n < 2 ^ 31))
    → IsInt (elim o [ none ↦ pos 0 | some s ↦ s ])
option-IsInt none stocked = omega arith
option-IsInt (some s) stocked = let (n, is, fits) = stocked s refl in rw is (omega arith)

pub shelved-IsLine :
    (atof : Bytes → ℕ) (stock : Stock) (ls : List Line)
    → IsStocked stock
    → All (IsLine atof) ls
    → All (IsLine atof) (shelved stock ls)
shelved-IsLine atof stock [] stocked h = tt
shelved-IsLine atof stock (l ∷ ls) stocked (h, hs) = (
  record {
    name_is = h.name_is;
    description_is = h.description_is;
    texts_fit = h.texts_fit;
    id_fits = h.id_fits;
    quantity_fits = option-IsInt (stock l.id) (stocked l.id);
    price_fits = h.price_fits;
  },
  shelved-IsLine atof stock ls stocked hs,
)

pub length-shelved : (stock : Stock) (ls : List Line) → length (shelved stock ls) ≡ length ls
length-shelved stock [] = refl
length-shelved stock (l ∷ ls) = omega (arith, length-shelved stock ls)

-- A product takes as many bytes whatever its quantity.
pub shelved-fits :
    (atof : Bytes → ℕ) (rounds : ℕ) (stock : Stock) (ls : List Line)
    → All (λ p. length (Codec.layout p) < rounds) (products_of atof ls)
    → All (λ p. length (Codec.layout p) < rounds) (products_of atof (shelved stock ls))
shelved-fits atof rounds stock [] h = tt
shelved-fits atof rounds stock (l ∷ ls) (h, hs) = (
  omega (
    arith,
    h,
    Codec.length-layout (product_of atof l),
    Codec.length-layout (product_of atof (record l { quantity = available stock l.id })),
  ),
  shelved-fits atof rounds stock ls hs,
)
