-- ===== src/Database/Shelf/Sales.antt =====
-- What selling an order leaves of a stock.
use os_tp.Base.{
  ℕ, ◌<◌, ◌^◌, ◌≡◌, refl, sym, subst, true, false, Bool-cases, inl, inr, Option, none, some, List,
  [], ◌∷◌, arith, All, ℤ, pos, ltb_ℤ, eq_ℤ, eq_ℤ_iff, ◌-ℤ◌, ◌-◌,
}
use os_tp.Order.{OrderEntry}
use os_tp.Order.Entries.{find}
use os_tp.Database.Shelf.{
  Stock, available, is_short, all_enough, take_off, sold, IsAsked, IsStocked,
}

-- The entry of a product in an order that the stock satisfies.
find-enough :
    (stock : Stock) (id : ℤ) (es : List OrderEntry) (e : OrderEntry)
    → find id es ≡ some e
    → All IsAsked es
    → all_enough stock es ≡ true
    → (e.product_id ≡ id) × IsAsked e × (is_short stock e ≡ false)
unfolding find
find-enough stock id [] e found asked enough = cc
find-enough stock id (e' ∷ es) e found asked enough = elim (Bool-cases (eq_ℤ id e'.product_id)) [
  | inl same ↦
      let is : e' ≡ e = ground arith in
      subst (λ x. (x.product_id ≡ id) × IsAsked x × (is_short stock x ≡ false)) is
        (sym ((eq_ℤ_iff id e'.product_id).0 same), asked.0, ground arith)
  | inr differs ↦ find-enough stock id es e (ground arith) asked.1 (ground arith)
]

sub_enough : (b q : ℤ) (n m : ℕ) → b ≡ pos n → q ≡ pos m → ltb_ℤ b q ≡ false → b -ℤ q ≡ pos (n - m)
unfolding ◌-ℤ◌
sub_enough b q n m is asks most = ground arith

-- The order takes no more than there is: what is left is not negative, and fits.
take_off-IsStocked :
    (found : Option OrderEntry) (before : Option ℤ) (s : ℤ)
    → take_off found before ≡ some s
    → ((e : OrderEntry)
        → found ≡ some e
        → IsAsked e × (ltb_ℤ (elim before [ none ↦ pos 0 | some b ↦ b ]) e.quantity ≡ false))
    → ((b : ℤ) → before ≡ some b → (n : ℕ) × (b ≡ pos n) × (n < 2 ^ 31))
    → (n : ℕ) × (s ≡ pos n) × (n < 2 ^ 31)
take_off-IsStocked none before s left enough stocked = stocked s left
take_off-IsStocked (some e) none s left enough stocked = cc
take_off-IsStocked (some e) (some b) s left enough stocked =
    let (n, is, fits) = stocked b refl in
    let ((m, asks), most) = enough e refl in
    (n - m, cc (left, sub_enough b e.quantity n m is asks most), omega arith)

-- Selling what the stock satisfies never takes a quantity below zero.
pub sold-IsStocked :
    (stock : Stock) (es : List OrderEntry)
    → IsStocked stock
    → All IsAsked es
    → all_enough stock es ≡ true
    → IsStocked (sold stock es)
sold-IsStocked stock es stocked asked enough id s left =
    take_off-IsStocked (find id es) (stock id) s left
      (λ e found.
        let (same, asks, most) = find-enough stock id es e found asked enough in
        (asks, subst (λ i. ltb_ℤ (available stock i) e.quantity ≡ false) same most))
      (stocked id)

-- The products stay the same ones.
pub sold-some :
    (stock : Stock) (es : List OrderEntry) (id s : ℤ)
    → stock id ≡ some s
    → (s' : ℤ) × (sold stock es id ≡ some s')
sold-some stock es id s here =
    elim (find id es) as (λ f. (s' : ℤ) × (take_off f (stock id) ≡ some s')) [
      | none ↦ (s, here)
      | some e ↦ (s -ℤ e.quantity, rw here refl)
    ]
