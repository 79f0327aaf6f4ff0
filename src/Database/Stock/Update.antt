-- ===== src/Database/Stock/Update.antt =====
-- What placing an order takes from the stock.
use os_tp.Base.{
  ℕ, suc, ◌≡◌, refl, sym, ap, ◌∙◌, subst, inl, inr, true, false, Option, none, some, List, [], ◌∷◌,
  ◌++◌, append_assoc, arith, length, All, ℤ, pos, eq_ℤ, eq_ℤ_iff, ◌≤ℤ◌, ◌-ℤ◌, ok, bind-ok,
  if◌then◌else◌, Bool-cases, pos_part,
}
use os_tp.Io.{lift-ok}
use os_tp.Order.{OrderEntry, Order}
use os_tp.Order.View.{Represents, length-next}
use os_tp.Order.Search.{has}
use os_tp.Order.Entries.{find, IsUnique}
use os_tp.Database.Shelf.{left_over}
use os_tp.Database.Engine.{Engine, Products, update_quantity}
use os_tp.Database.Stock.{get_entry, update_loop, update_stock}
use os_tp.Database.Stock.Verify.{get_entry-Represents}

find-none : (id : ℤ) (es : List OrderEntry) → has id es ≡ false → find id es ≡ none
unfolding has find
find-none id [] h = refl
find-none id (e ∷ es) h = ground (arith, find-none id es)

left_over-cons :
    (e : OrderEntry) (es : List OrderEntry) (j s : ℤ) (n : ℕ) (before after : Option ℤ)
    → has e.product_id es ≡ false
    → e.quantity ≡ pos n
    → (eq_ℤ j e.product_id ≡ true → before ≡ some s)
    → after ≡ (if eq_ℤ j e.product_id then some (s -ℤ pos n) else before)
    → left_over es j after ≡ left_over (e ∷ es) j before
unfolding find
left_over-cons e es j s n before after once asks here changed =
    elim (Bool-cases (eq_ℤ j e.product_id)) [
      | inl same ↦
          let absent : find j es ≡ none =
            find-none j es (rw ((eq_ℤ_iff j e.product_id).0 same) once) in
          rw (same, absent, changed, same, here same, asks) refl
      | inr differs ↦ rw (differs, changed, differs) refl
    ]

update_loop-step :
    (S : Engine) (db db' : S.Db) (o : Order) (rounds i : ℕ) (e : OrderEntry)
    → get_entry o i ≡ ok e
    → S.exec (update_quantity e.quantity e.product_id) db ≡ (true, [], db')
    → update_loop S (suc rounds) i o db ≡ update_loop S rounds (suc i) o db'
unfolding update_loop
update_loop-step S db db' o rounds i e here ran = bind-ok _ (lift-ok db here) (rw ran refl)

module _ (S : Engine) (products : Products S) where
  open S use {Db, exec}
  open products use {stock, update_law, check_law}

  -- The table has the entry's product, and as much of it as the entry asks for, which is not
  -- negative.
  abbrev pub IsCovered : Db → OrderEntry → Type 0
  IsCovered db e =
      (s : ℤ) × (n : ℕ) × (stock db e.product_id ≡ some s) × (e.quantity ≡ pos n) × (pos n ≤ℤ s)

  IsCovered-other :
      (db db' : Db) (id : ℤ) (es : List OrderEntry)
      → has id es ≡ false
      → ((j : ℤ) → eq_ℤ j id ≡ false → stock db' j ≡ stock db j)
      → All (IsCovered db) es
      → All (IsCovered db') es
  unfolding has
  IsCovered-other db db' id [] absent same h = tt
  IsCovered-other db db' id (e ∷ es) absent same ((s, n, here, asks, enough), h) = (
    (
      s,
      n,
      same e.product_id (ground (arith, eq_ℤ_iff e.product_id id, eq_ℤ_iff id e.product_id)) ∙ here,
      asks,
      enough,
    ),
    IsCovered-other db db' id es (ground arith) same h,
  )

  update_loop-stock :
      (db : Db) (o : Order) (pre es : List OrderEntry)
      → All (IsCovered db) es
      → IsUnique es
      → Represents o (pre ++ es)
      → (db' : Db) × (update_loop S (length es) (length pre) o db ≡ ok (true, db'))
        × ((j : ℤ) → stock db' j ≡ left_over es j (stock db j))
  unfolding update_loop find
  update_loop-stock db o pre [] covered unique r = (db, refl, λ j. refl)
  update_loop-stock db o pre (e ∷ es) ((s, n, here, asks, enough), covered) (once, unique) r =
      let (db1, ran1, after1) = update_law db n e.product_id s here enough in
      let (db2, ran2, after2) =
        update_loop-stock db1 o (pre ++ e ∷ []) es
          (IsCovered-other db db1 e.product_id es once (λ j differs. after1 j ∙ rw differs refl)
            covered)
          unique (subst (Represents o) (sym (append_assoc pre (e ∷ []) es)) r) in
      (
        db2,
        update_loop-step S db db1 o (length es) (length pre) e (get_entry-Represents pre es e r)
              (ap (λ q. exec (update_quantity q e.product_id) db) asks ∙ ran1)
            ∙ (rw length-next at ran2),
        λ j.
            after2 j
            ∙ left_over-cons e es j s n (stock db j) (stock db1 j) once asks
                (λ same. ap (stock db) ((eq_ℤ_iff j e.product_id).0 same) ∙ here) (after1 j),
      )

  -- For an order with at most one entry for a product, each of a product in the table and for no
  -- more than its stock, `update_stock` returns 1 and takes from the stock of each product just
  -- what the order has of it; the stock of every other product stays as it was.
  pub update_stock-left_over :
      (db : Db) (o : Order) (es : List OrderEntry)
      → All (IsCovered db) es
      → IsUnique es
      → Represents o es
      → (db' : Db) × (update_stock S o db ≡ ok (true, db'))
        × ((j : ℤ) → stock db' j ≡ left_over es j (stock db j))
  unfolding update_stock
  update_stock-left_over db o es covered unique r =
      let (db', ran, after) = update_loop-stock db o [] es covered unique r in
      (db', ap (λ n. update_loop S n 0 o db) (ap pos_part r.count_is) ∙ ran, after)
