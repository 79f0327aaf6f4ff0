-- ===== src/Order/Add.antt =====
-- `orderAdd` of common/order.c does to the list of entries what adding to an order means.
use os_tp.Base.{
  ℕ, suc, ◌+◌, ◌-◌, ◌≤◌, ◌<◌, ◌≡◌, refl, ap, ◌∙◌, subst, ◌⊎◌, inl, inr, true, false, Option, none,
  some, List, [], ◌∷◌, ◌++◌, append_assoc, arith, length, replicate, length-append, ℤ, pos, add_int,
  of_word, to_word, ok, bind-ok, ltb, lt→ltb, le→ltb, ltb→lt, pos_part, ltb_ℤ, Bool-cases,
}
use os_tp.Order.{
  order_max_size, OrderEntry, Order, find_entry, add_to_entry, append_entry, add_at, order_add,
}
use os_tp.Order.View.{slots, array, Represents, slots-append, entry_at-slots, set_item-slots}
use os_tp.Order.Search.{add_to, takes, Search, found, missing, Search-entries}

add_one_int : (n : ℕ) → n < 16 → add_int (pos n) (pos 1) ≡ pos (suc n)
unfolding add_int of_word to_word
add_one_int n h = ground arith

-- The array of a list with room has a free slot behind the entries.
free_slot :
    (es : List OrderEntry)
    → length es < order_max_size
    → array es ≡ slots es ++ none ∷ replicate (order_max_size - suc (length es)) none
free_slot es room = ap (λ n. slots es ++ replicate n none) one_more
  where
    one_more : order_max_size - length es ≡ suc (order_max_size - suc (length es))
    one_more = omega arith

add_to_entry-Represents :
    (o : Order) (pre post : List OrderEntry) (e : OrderEntry) (quantity : ℤ)
    → Represents o (pre ++ e ∷ post)
    → (o' : Order) × (add_to_entry o (length pre) quantity ≡ ok o')
      × Represents o' (pre ++ (record e { quantity = add_int e.quantity quantity }) ∷ post)
      × (o'.address ≡ o.address)
unfolding add_to_entry
add_to_entry-Represents o pre post e quantity r =
    let e' : OrderEntry = record e { quantity = add_int e.quantity quantity } in
    let tail : List (Option OrderEntry) =
      slots post ++ replicate (order_max_size - length (pre ++ e ∷ post)) none in
    let layout : o.items ≡ slots pre ++ (some e ∷ tail) =
      r.items_are ∙ rw (slots-append pre (e ∷ post), append_assoc) refl in
    let same_count : length (pre ++ e ∷ post) ≡ length (pre ++ e' ∷ post) =
      omega (arith, length-append pre (e ∷ post), length-append pre (e' ∷ post)) in
    (
      record o { items = slots pre ++ (some e' ∷ tail) },
      rw layout (
          bind-ok _ (entry_at-slots pre e tail)
            (bind-ok _ (set_item-slots pre (some e) tail e') refl)),
      record {
        count_is = r.count_is ∙ ap pos same_count;
        items_are =
            rw (slots-append pre (e' ∷ post), append_assoc)
              (ap (λ n. slots pre ++ (some e' ∷ slots post ++ replicate (order_max_size - n) none))
                same_count);
        within =
            omega (arith, length-append pre (e ∷ post), length-append pre (e' ∷ post), r.within);
      },
      refl,
    )

append_entry-Represents :
    (o : Order) (es : List OrderEntry) (e : OrderEntry)
    → length es < order_max_size
    → Represents o es
    → (o' : Order) × (append_entry o (length es) e ≡ ok o')
      × Represents o' (es ++ e ∷ [])
      × (o'.address ≡ o.address)
unfolding append_entry
append_entry-Represents o es e room r =
    let tail : List (Option OrderEntry) = replicate (order_max_size - suc (length es)) none in
    let one_more : suc (length es) ≡ length (es ++ e ∷ []) =
      omega (arith, length-append es (e ∷ [])) in
    (
      record o { num_entries = add_int o.num_entries (pos 1); items = slots es ++ (some e ∷ tail) },
      rw (r.items_are ∙ free_slot es room) (bind-ok _ (set_item-slots es none tail e) refl),
      record {
        count_is =
            ap (λ n. add_int n (pos 1)) r.count_is ∙ add_one_int (length es) room ∙ ap pos one_more;
        items_are =
            rw (slots-append es (e ∷ []), append_assoc)
              (ap (λ n. slots es ++ (some e ∷ replicate (order_max_size - n) none)) one_more);
        within = omega (arith, length-append es (e ∷ []));
      },
      refl,
    )

add_at-found :
    (o o' : Order) (n i : ℕ) (entry : OrderEntry)
    → o.num_entries ≡ pos n
    → i < n
    → add_to_entry o i entry.quantity ≡ ok o'
    → add_at o i entry ≡ ok (true, o')
unfolding add_at
add_at-found o o' n i entry count below ran = rw (inside, ran)
  where
    inside : ltb_ℤ (pos i) o.num_entries ≡ true
    inside = rw count (lt→ltb (i + 0) (n + 0) (omega arith))

not_inside : {z : ℤ} {n : ℕ} → z ≡ pos n → ltb_ℤ (pos n) z ≡ false
not_inside {n} count = rw count (le→ltb (n + 0) (n + 0) (omega arith))

add_at-append :
    (o o' : Order) (n : ℕ) (entry : OrderEntry)
    → o.num_entries ≡ pos n
    → n < order_max_size
    → append_entry o n entry ≡ ok o'
    → add_at o n entry ≡ ok (true, o')
unfolding add_at
add_at-append o o' n entry count room ran = rw (not_inside count, lt→ltb n order_max_size room, ran)

add_at-full :
    (o : Order) (n : ℕ) (entry : OrderEntry)
    → o.num_entries ≡ pos n
    → order_max_size ≤ n
    → add_at o n entry ≡ ok (false, o)
unfolding add_at
add_at-full o n entry count full = rw (not_inside count, le→ltb n order_max_size full)

-- The search on an order's own array.
find_entry-Represents :
    {o : Order} {es : List OrderEntry} (product_id : ℤ) (i : ℕ)
    → Represents o es
    → ((before : List OrderEntry) (tail : List (Option OrderEntry))
        → find_entry (length es) (length before) (slots before ++ (slots es ++ tail)) product_id
          ≡ ok (length before + i))
    → find_entry (pos_part o.num_entries) 0 o.items product_id ≡ ok i
find_entry-Represents {es} product_id i r finds =
    rw (r.count_is, r.items_are)
      (finds [] (replicate (order_max_size - length es) none) ∙ ap ok (omega arith))

-- On an order that has the entries `es`, `orderAdd` returns 0 exactly if there is an entry of the
-- product or fewer than 16 entries; the order then has the entries of `add_to`, and its address as
-- before. Else it returns -1 and the order is unchanged. No access leaves the array.
pub order_add-Represents :
    (o : Order) (es : List OrderEntry) (product_id quantity : ℤ) (price : ℕ)
    → Represents o es
    → ((takes product_id es ≡ true)
        × ((o' : Order) × (order_add o product_id quantity price ≡ ok (true, o'))
            × Represents o' (add_to es product_id quantity price)
            × (o'.address ≡ o.address)))
      ⊎ ((takes product_id es ≡ false) × (order_add o product_id quantity price ≡ ok (false, o)))
unfolding takes order_add
order_add-Represents o es product_id quantity price r =
    go (Search-entries product_id quantity price es)
  where
    entry : OrderEntry
    entry = record { product_id = product_id; quantity = quantity; price = price }

    go :
        Search product_id quantity price es
        → ((takes product_id es ≡ true)
            × ((o' : Order) × (order_add o product_id quantity price ≡ ok (true, o'))
                × Represents o' (add_to es product_id quantity price)
                × (o'.address ≡ o.address)))
          ⊎ ((takes product_id es ≡ false)
              × (order_add o product_id quantity price ≡ ok (false, o)))
    go (found pre e post splits here adds finds) =
        let (o', ran, r', kept) =
          add_to_entry-Represents o pre post e quantity (subst (Represents o) splits r) in
        inl (
          rw here refl,
          (
            o',
            bind-ok _ (find_entry-Represents product_id (length pre) r finds) (
                add_at-found o o' (length es) (length pre) entry r.count_is
                  (omega (arith, ap length splits, length-append pre (e ∷ post))) ran),
            rw adds r',
            kept,
          ),
        )
    go (missing here adds finds) = elim (Bool-cases (ltb (length es) order_max_size)) [
      | inl room ↦
          let (o', ran, r', kept) = append_entry-Represents o es entry (ltb→lt _ _ room) r in
          inl (
            rw (here, room) refl,
            (
              o',
              bind-ok _ (find_entry-Represents product_id (length es) r finds)
                  (add_at-append o o' (length es) entry r.count_is (ltb→lt _ _ room) ran),
              rw adds r',
              kept,
            ),
          )
      | inr full ↦ inr (
        rw (here, full) refl,
        bind-ok _ (find_entry-Represents product_id (length es) r finds)
            (add_at-full o (length es) entry r.count_is (ground arith)),
      )
    ]
