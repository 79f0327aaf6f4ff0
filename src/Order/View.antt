-- ===== src/Order/View.antt =====
-- The abstract view of an order: the list of its entries. The array holds them at its front, and
-- NULL behind them.
use os_tp.Base.{
  suc, ◌-◌, ◌≤◌, ◌≡◌, refl, ap, Option, none, some, List, [], ◌∷◌, ◌++◌, map, append_assoc, arith,
  length, replicate, get_elem?-append_length, set-append_length, length-append, pos, ok, lt→ltb,
  ltb_ℤ, le→ltb, true, false, get_elem?, ◌+◌, ℕ, ◌∙◌,
}
use os_tp.Order.{
  order_max_size, OrderEntry, Order, entry_at, set_item, order_new, order_get_entry_num, item,
}

abbrev pub slots : List OrderEntry → List (Option OrderEntry)
slots es = map some es

-- The array's contents for the entries `es`.
abbrev pub array : List OrderEntry → List (Option OrderEntry)
array es = slots es ++ replicate (order_max_size - length es) none

-- The order has these entries.
pub record Represents (o : Order) (es : List OrderEntry) : Type 0 where
  pub count_is : o.num_entries ≡ pos (length es)
  pub items_are : o.items ≡ array es
  pub within : length es ≤ order_max_size

pub length-slots : (es : List OrderEntry) → length (slots es) ≡ length es
length-slots [] = refl
length-slots (e ∷ es) = ap suc (length-slots es)

pub slots-append : (xs ys : List OrderEntry) → slots (xs ++ ys) ≡ slots xs ++ slots ys
slots-append [] ys = refl
slots-append (x ∷ xs) ys = ap (◌∷◌ (some x)) (slots-append xs ys)

-- One entry more in front.
pub slots-next :
    (before : List OrderEntry) (e : OrderEntry) (rest : List (Option OrderEntry))
    → slots (before ++ e ∷ []) ++ rest ≡ slots before ++ some e ∷ rest
slots-next before e rest = rw (slots-append before (e ∷ []), append_assoc) refl

pub length-next :
    (before : List OrderEntry) (e : OrderEntry) → length (before ++ e ∷ []) ≡ suc (length before)
length-next before e = omega (arith, length-append before (e ∷ []))

-- Following the pointer behind the first entries.
pub entry_at-slots :
    (pre : List OrderEntry) (e : OrderEntry) (rest : List (Option OrderEntry))
    → entry_at (slots pre ++ some e ∷ rest) (length pre) ≡ ok e
unfolding entry_at
entry_at-slots pre e rest =
    rw (← length-slots pre, get_elem?-append_length (slots pre) (some e) rest)

pub set_item-slots :
    (pre : List OrderEntry) (p : Option OrderEntry) (rest : List (Option OrderEntry))
    (e : OrderEntry)
    → set_item (slots pre ++ p ∷ rest) (length pre) e ≡ ok (slots pre ++ some e ∷ rest)
unfolding set_item
set_item-slots pre p rest e =
    rw
      (lt→ltb (length pre) (length (slots pre ++ p ∷ rest))
        (omega (arith, length-append (slots pre) (p ∷ rest), length-slots pre)))
      (rw (← length-slots pre, set-append_length (slots pre) p rest (some e)))

-- A new order has no entries.
pub order_new-Represents : Represents order_new []
order_new-Represents = record { count_is = refl; items_are = refl; within = omega arith }

-- Reading an entry of an order, and writing one.
pub Represents-get :
    {o : Order} (pre post : List OrderEntry) (e : OrderEntry)
    → Represents o (pre ++ e ∷ post)
    → order_get_entry_num o (pos (length pre)) ≡ ok (some e)
unfolding order_get_entry_num item
Represents-get {o} pre post e r = rw (not_negative, inside, here) refl
  where
    not_negative : ltb_ℤ (pos (length pre)) (pos 0) ≡ false
    not_negative = le→ltb (length pre + 0) (0 + 0) (omega arith)

    inside : ltb_ℤ (pos (length pre)) o.num_entries ≡ true
    inside = rw r.count_is (
        lt→ltb (length pre + 0) (length (pre ++ e ∷ post) + 0)
          (omega (arith, length-append pre (e ∷ post))))

    here : get_elem? o.items (length pre) ≡ some (some e)
    here =
        rw (r.items_are, slots-append pre (e ∷ post), append_assoc, ← length-slots pre)
          (get_elem?-append_length (slots pre) (some e) _)

pub Represents-replace :
    {o : Order} (pre post : List OrderEntry) (e e' : OrderEntry)
    → Represents o (pre ++ e ∷ post)
    → (items : List (Option OrderEntry)) × (set_item o.items (length pre) e' ≡ ok items)
      × Represents (record o { items = items }) (pre ++ e' ∷ post)
Represents-replace {o} pre post e e' r =
    let free : ℕ = order_max_size - length (pre ++ e ∷ post) in
    let tail : List (Option OrderEntry) = slots post ++ replicate free none in
    let layout : o.items ≡ slots pre ++ (some e ∷ tail) =
      r.items_are ∙ rw (slots-append pre (e ∷ post), append_assoc) refl in
    let same_count : length (pre ++ e ∷ post) ≡ length (pre ++ e' ∷ post) =
      omega (arith, length-append pre (e ∷ post), length-append pre (e' ∷ post)) in
    (
      slots pre ++ (some e' ∷ tail),
      rw layout (set_item-slots pre (some e) tail e'),
      record {
        count_is = r.count_is ∙ ap pos same_count;
        items_are =
            rw (slots-append pre (e' ∷ post), append_assoc)
              (ap (λ n. slots pre ++ (some e' ∷ slots post ++ replicate (order_max_size - n) none))
                same_count);
        within = omega (arith, same_count, r.within);
      },
    )
