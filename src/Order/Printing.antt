-- ===== src/Order/Printing.antt =====
-- `orderPrint` and `orderFree` of common/order.c. What is printed is text; `print_fixed` is `%.2f`.
use os_tp.Base.{get_elem?, get_elem?-append_length, false}
use os_tp.Order.View.{slots, length-slots}
use os_tp.Base.{
  ℕ, zero, suc, ◌≡◌, refl, sym, ap, ◌∙◌, subst, Option, none, some, List, [], ◌∷◌, ◌++◌,
  append_assoc, arith, Bytes, length, ℤ, pos, pos_part, eq_ℤ, Outcome, ok, ◌>>=◌, bind-ok,
  if◌then◌else◌,
}
use os_tp.Decimal.{codes, print_int}
use os_tp.Order.{OrderEntry, Order, Floats, item, entry_at, order_get_total}
use os_tp.Order.View.{Represents, slots-append, entry_at-slots, length-next}

-- Following the pointer behind the first entries of an order.
entry_at-Represents :
    {o : Order} (pre post : List OrderEntry) (e : OrderEntry)
    → Represents o (pre ++ e ∷ post)
    → entry_at o.items (length pre) ≡ ok e
entry_at-Represents {o} pre post e r =
    rw (r.items_are, slots-append pre (e ∷ post), append_assoc) (entry_at-slots pre e _)

abbrev pub rule : Bytes
rule = codes "-----------------------------------------------------" ++ 10 ∷ []

module _ (floats : Floats) (print_fixed : ℕ → Bytes) where
  -- The line of the i-th entry of `total`.
  abbrev pub entry_line : ℤ → ℕ → OrderEntry → Bytes
  entry_line total i e =
      print_int (pos (suc i))
      ++ (codes " of "
          ++ (print_int total
              ++ (10 ∷ 9 ∷ codes "Product #"
                  ++ (print_int e.product_id
                      ++ (codes ", unit price $"
                          ++ (print_fixed e.price
                              ++ (codes ", quantity " ++ (print_int e.quantity ++ 10 ∷ []))))))))

  -- The loop, with the entries left.
  unfoldable pub print_entries : ℕ → ℕ → Order → Outcome Bytes
  print_entries zero i o = ok []
  print_entries (suc more) i o = do
    e ← entry_at o.items i
    rest ← print_entries more (suc i) o
    ok (entry_line o.num_entries i e ++ rest)

  unfoldable pub print_body : Order → Outcome Bytes
  unfolding print_entries
  print_body o =
      if eq_ℤ o.num_entries (pos 0)
      then ok (codes "Empty order (we require more booze!)" ++ 10 ∷ [])
      else (do
        entries ← print_entries (pos_part o.num_entries) 0 o
        total ← order_get_total floats o
        ok (entries ++ (codes "GRAND TOTAL: $" ++ (print_fixed total ++ 10 ∷ []))))

  unfoldable pub order_print : Order → Outcome Bytes
  unfolding print_body
  order_print o = do body ← print_body o; ok (rule ++ (body ++ rule))

  suc-not_zero : (n : ℕ) → eq_ℤ (pos (suc n)) (pos 0) ≡ false
  suc-not_zero n = ground arith

  -- What is printed of entries, from the i-th on.
  abbrev pub entry_lines : ℤ → ℕ → List OrderEntry → Bytes
  entry_lines total i [] = []
  entry_lines total i (e ∷ es) = entry_line total i e ++ entry_lines total (suc i) es

  print_entries-Represents :
      (o : Order) (pre es : List OrderEntry)
      → Represents o (pre ++ es)
      → print_entries (length es) (length pre) o ≡ ok (entry_lines o.num_entries (length pre) es)
  unfolding print_entries
  print_entries-Represents o pre [] r = refl
  print_entries-Represents o pre (e ∷ es) r =
      let later : print_entries (length es) (suc (length pre)) o
          ≡ ok (entry_lines o.num_entries (suc (length pre)) es) =
        rw (length-next pre e) at (
          print_entries-Represents o (pre ++ e ∷ []) es
            (subst (Represents o) (sym (append_assoc pre (e ∷ []) es)) r)) in
      bind-ok _ (entry_at-Represents pre es e r) (rw later refl)

  -- An order with entries is printed one line after the other, each entry numbered from 1 and with its
  -- own product, price and quantity, and the total behind them, whatever stands in the array behind
  -- the entries; no access leaves the array.
  pub order_print-Represents :
      (o : Order) (e : OrderEntry) (es : List OrderEntry) (total : ℕ)
      → Represents o (e ∷ es)
      → order_get_total floats o ≡ ok total
      → order_print o
        ≡ ok (
            rule
            ++ ((entry_lines (pos (suc (length es))) 0 (e ∷ es)
                  ++ (codes "GRAND TOTAL: $" ++ (print_fixed total ++ 10 ∷ [])))
                ++ rule))
  unfolding order_print print_body
  order_print-Represents o e es total r sum =
      let not_empty : eq_ℤ o.num_entries (pos 0) ≡ false =
        ap (λ n. eq_ℤ n (pos 0)) r.count_is ∙ suc-not_zero (length es) in
      let lines : print_entries (pos_part o.num_entries) 0 o
          ≡ ok (entry_lines (pos (suc (length es))) 0 (e ∷ es)) =
        ap (λ n. print_entries (pos_part n) 0 o) r.count_is
        ∙ print_entries-Represents o [] (e ∷ es) r
        ∙ ap (λ n. ok (entry_lines n 0 (e ∷ es))) r.count_is in
      let body : print_body o
          ≡ ok (
              entry_lines (pos (suc (length es))) 0 (e ∷ es)
              ++ (codes "GRAND TOTAL: $" ++ (print_fixed total ++ 10 ∷ []))) =
        rw not_empty (bind-ok _ lines (bind-ok _ sum refl)) in
      bind-ok _ body refl

-- The loop of `orderFree`: the entries that are given back.
unfoldable pub free_entries : ℕ → ℕ → List (Option OrderEntry) → Outcome (List OrderEntry)
free_entries zero i items = ok []
free_entries (suc more) i items = do
  p ← item items i
  rest ← free_entries more (suc i) items
  elim p [ none ↦ ok rest | some e ↦ ok (e ∷ rest) ]

-- Then the order is given back, but neither its address nor its array.
unfoldable pub order_free : Order → Outcome (List OrderEntry)
unfolding free_entries
order_free o = free_entries (pos_part o.num_entries) 0 o.items

item-slots :
    (pre : List OrderEntry) (e : OrderEntry) (es : List OrderEntry)
    (rest : List (Option OrderEntry))
    → item (slots (pre ++ e ∷ es) ++ rest) (length pre) ≡ ok (some e)
unfolding item
item-slots pre e es rest =
    let here : get_elem? (slots (pre ++ e ∷ es) ++ rest) (length pre) ≡ some (some e) =
      rw (slots-append pre (e ∷ es), append_assoc, ← length-slots pre)
        (get_elem?-append_length (slots pre) (some e) _) in
    rw here refl

free_entries-slots :
    (pre es : List OrderEntry) (rest : List (Option OrderEntry))
    → free_entries (length es) (length pre) (slots (pre ++ es) ++ rest) ≡ ok es
unfolding free_entries
free_entries-slots pre [] rest = refl
free_entries-slots pre (e ∷ es) rest =
    let later : free_entries (length es) (suc (length pre)) (slots (pre ++ e ∷ es) ++ rest)
        ≡ ok es =
      rw (length-next pre e, append_assoc pre (e ∷ []) es) at
        (free_entries-slots (pre ++ e ∷ []) es rest) in
    bind-ok _ (item-slots pre e es rest) (bind-ok _ later refl)

-- Giving an order back gives each of its entries back, once and in the order's sequence, and nothing
-- else of its array.
pub order_free-Represents :
    (o : Order) (es : List OrderEntry) → Represents o es → order_free o ≡ ok es
unfolding order_free
order_free-Represents o es r = rw (r.count_is, r.items_are) (free_entries-slots [] es _)
