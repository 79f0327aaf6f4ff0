-- ===== src/Database/Shelf.antt =====
-- The stock of a shop as a function of the product, and what an order finds in it: the abstract
-- state behind the table `products` of database/databaseServer.c.
pub mod Sales
use os_tp.Order.Entries.{find}
use os_tp.Base.{
  Bool, true, not, ◌&&◌, Option, none, some, List, [], ◌∷◌, ℤ, pos, ltb_ℤ, IsInt, ◌-ℤ◌, ◌≡◌,
  if◌then◌else◌, ℕ, ◌<◌, ◌^◌,
}
use os_tp.Order.{OrderEntry}

-- The quantity of each product, none for a product that there is not.
abbrev pub Stock : Type 0
Stock = ℤ → Option ℤ

-- There is the entry's product, with a quantity that an `int` holds.
abbrev pub HasProduct : Stock → OrderEntry → Type 0
HasProduct stock e = (s : ℤ) × (stock e.product_id ≡ some s) × IsInt s

-- The stock of a product, or 0.
abbrev pub available : Stock → ℤ → ℤ
available stock id = elim (stock id) [ none ↦ pos 0 | some s ↦ s ]

-- Whether the stock is less than what the entry asks for.
abbrev pub is_short : Stock → OrderEntry → Bool
is_short stock e = ltb_ℤ (available stock e.product_id) e.quantity

-- The largest entry that the stock allows.
abbrev pub clamp : Stock → OrderEntry → OrderEntry
clamp stock e = if is_short stock e then record e { quantity = available stock e.product_id } else e

abbrev pub clamps : Stock → List OrderEntry → List OrderEntry
clamps stock [] = []
clamps stock (e ∷ es) = clamp stock e ∷ clamps stock es

abbrev pub all_enough : Stock → List OrderEntry → Bool
all_enough stock [] = true
all_enough stock (e ∷ es) = not (is_short stock e) && all_enough stock es

-- An entry's quantity is taken off a stock.
abbrev pub take_off : Option OrderEntry → Option ℤ → Option ℤ
take_off none before = before
take_off (some e) none = none
take_off (some e) (some s) = some (s -ℤ e.quantity)

-- The stock that is left once the entries are taken off: of the product `id`, that had `before`.
abbrev pub left_over : List OrderEntry → ℤ → Option ℤ → Option ℤ
left_over es id before = take_off (find id es) before

-- The stock once an order is taken off.
abbrev pub sold : Stock → List OrderEntry → Stock
sold stock es = λ id. left_over es id (stock id)

-- An entry asks for a quantity that is not negative.
abbrev pub IsAsked : OrderEntry → Type 0
IsAsked e = (n : ℕ) × (e.quantity ≡ pos n)

-- No quantity is negative, and an `int` holds each.
abbrev pub IsStocked : Stock → Type 0
IsStocked stock = (id s : ℤ) → stock id ≡ some s → (n : ℕ) × (s ≡ pos n) × (n < 2 ^ 31)
