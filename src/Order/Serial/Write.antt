-- ===== src/Order/Serial/Write.antt =====
-- What `orderSerialize` writes.
use os_tp.Base.{
  ℕ, suc, ◌+◌, ◌*◌, ◌-◌, ◌%◌, ◌^◌, ◌<◌, ◌≡◌, refl, sym, ap, ◌∙◌, subst, Option, none, some, List,
  [], ◌∷◌, ◌++◌, append-nil, append_assoc, arith, Bytes, length, length-append, replicate, pos,
  to_size, IsInt, ok, bind-ok, All,
}
use os_tp.Memory.{Cursor}
use os_tp.Memory.Cursors.{Filled, Filled-malloc, Filled-resize, put-Filled, put-then, Filled-block}
use os_tp.Strings.{IsString, length-string, strlen-string, read_block-string}
use os_tp.Encoding.{int_bytes, float_bytes, size_bytes}
use os_tp.Encoding.Laws.{field_sizes}
use os_tp.Order.{order_max_size, OrderEntry, Order, entry_at}
use os_tp.Order.View.{slots, Represents, slots-next, length-next, entry_at-slots}
use os_tp.Order.Serial.{address_size, put_address, put_entries, order_serialize}

-- The fields of an entry fit their types.
abbrev pub EntryFits : OrderEntry → Type 0
EntryFits e = IsInt e.product_id × IsInt e.quantity × (e.price < 2 ^ 32)

abbrev pub IsAddress : Option Bytes → Type 0
IsAddress none = Unit {0}
IsAddress (some a) = IsString a

-- An order as the program makes them, with the entries `es`.
pub record IsOrder (o : Order) (es : List OrderEntry) : Type 0 where
  pub represents : Represents o es
  pub address_is : IsAddress o.address
  pub entries_fit : All EntryFits es

abbrev pub entry_bytes : OrderEntry → Bytes
entry_bytes e = int_bytes e.product_id ++ (int_bytes e.quantity ++ float_bytes e.price)

abbrev pub entries_bytes : List OrderEntry → Bytes
entries_bytes [] = []
entries_bytes (e ∷ es) = entry_bytes e ++ entries_bytes es

abbrev pub address_bytes : Option Bytes → Bytes
address_bytes none = []
address_bytes (some a) = a

-- The bytes of a serialized order.
abbrev pub layout : Option Bytes → List OrderEntry → Bytes
layout address es =
    size_bytes (length (address_bytes address))
    ++ (address_bytes address ++ (int_bytes (pos (length es)) ++ entries_bytes es))

length-entry_bytes : (e : OrderEntry) → length (entry_bytes e) ≡ 12
length-entry_bytes e = omega (
  field_sizes,
  length-append (int_bytes e.product_id) (int_bytes e.quantity ++ float_bytes e.price),
  length-append (int_bytes e.quantity) (float_bytes e.price),
)

pub length-entries_bytes : (es : List OrderEntry) → length (entries_bytes es) ≡ length es * 12
length-entries_bytes [] = refl
length-entries_bytes (e ∷ es) = omega (
  arith,
  length-append (entry_bytes e) (entries_bytes es),
  length-entry_bytes e,
  length-entries_bytes es,
)

pub length-layout :
    (a : Option Bytes) (es : List OrderEntry)
    → length (layout a es) ≡ length (address_bytes a) + 12 + length es * 12
length-layout a es = omega (
  field_sizes,
  length-append (size_bytes (length (address_bytes a)))
      (address_bytes a ++ (int_bytes (pos (length es)) ++ entries_bytes es)),
  length-append (address_bytes a) (int_bytes (pos (length es)) ++ entries_bytes es),
  length-append (int_bytes (pos (length es))) (entries_bytes es),
  length-entries_bytes es,
)

pub address_size-address :
    (a : Option Bytes) → IsAddress a → address_size a ≡ ok (length (address_bytes a))
unfolding address_size
address_size-address none h = refl
address_size-address (some a) h = bind-ok _ (strlen-string h) (ap ok (sym (length-string h)))

put_address-Filled :
    (a : Option Bytes) (n : ℕ) {m : ℕ} {pre : Bytes} {c : Cursor}
    → IsAddress a
    → m ≡ length (address_bytes a) + n
    → Filled pre m c
    → (d : Cursor) × (put_address a (length (address_bytes a)) c ≡ ok d)
      × Filled (pre ++ address_bytes a) n d
unfolding put_address
put_address-Filled none n {m} {pre} {c} h room f =
    (c, refl, rw append-nil (Filled-resize (room ∙ omega arith) f))
put_address-Filled (some a) n {m} {pre} {c} h room f =
    let (d, ran, g) = put-Filled a n (Filled-resize room f) in
    (d, rw (length-string h) (bind-ok _ (read_block-string h) ran), g)

regroup : (a b c d : Bytes) → ((a ++ b) ++ c) ++ d ≡ a ++ (b ++ (c ++ d))
regroup a b c d = simp append_assoc

-- One entry.
put_entry-Filled :
    (e : OrderEntry) (n : ℕ) (rounds i : ℕ) (items : List (Option OrderEntry)) {pre : Bytes}
    {c : Cursor}
    → entry_at items i ≡ ok e
    → Filled pre (12 + n) c
    → (d : Cursor) × (put_entries (suc rounds) i items c ≡ put_entries rounds (suc i) items d)
      × Filled (pre ++ entry_bytes e) n d
unfolding put_entries
put_entry-Filled e n rounds i items {pre} {c} at f =
    let (c1, r1, f1) =
      put-Filled (int_bytes e.product_id) (8 + n) (Filled-resize (omega field_sizes) f) in
    let (c2, r2, f2) =
      put-Filled (int_bytes e.quantity) (4 + n) (Filled-resize (omega field_sizes) f1) in
    let (c3, r3, f3) = put-Filled (float_bytes e.price) n (Filled-resize (omega field_sizes) f2) in
    (
      c3,
      bind-ok _ at (bind-ok _ r1 (bind-ok _ r2 (bind-ok _ r3 refl))),
      subst (λ b. Filled b n c3)
          (regroup pre (int_bytes e.product_id) (int_bytes e.quantity) (float_bytes e.price)) f3,
    )

put_entries-Filled :
    (es before : List OrderEntry) (tail : List (Option OrderEntry)) (n : ℕ) {pre : Bytes}
    {c : Cursor}
    → Filled pre (length es * 12 + n) c
    → (d : Cursor) × (put_entries (length es) (length before) (slots before ++ (slots es ++ tail)) c
        ≡ ok d)
      × Filled (pre ++ entries_bytes es) n d
unfolding put_entries
put_entries-Filled [] before tail n {pre} {c} f =
    (c, refl, rw append-nil (Filled-resize (omega arith) f))
put_entries-Filled (e ∷ es) before tail n {pre} {c} f =
    let (d, ran, g) =
      put_entry-Filled e (length es * 12 + n) (length es) (length before)
        (slots before ++ (some e ∷ slots es ++ tail)) (entry_at-slots before e (slots es ++ tail))
        (Filled-resize (omega arith) f) in
    let (d', later, g') = put_entries-Filled es (before ++ e ∷ []) tail n g in
    (
      d',
      ran ∙ (rw (slots-next, length-next) at later),
      subst (λ b. Filled b n d') (append_assoc pre (entry_bytes e) (entries_bytes es)) g',
    )

pub address-lt : (a : Option Bytes) → IsAddress a → length (address_bytes a) < 2 ^ 31
address-lt none h = omega arith
address-lt (some a) h = omega (arith, length-string h, h.fits)

total_room :
    (o : Order) (es : List OrderEntry)
    → IsOrder o es
    → (8 + length (address_bytes o.address) + 4 + to_size o.num_entries * 12) % 2 ^ 64
      ≡ length (size_bytes (length (address_bytes o.address)))
        + (length (address_bytes o.address) + 4 + length es * 12)
total_room o es h =
    rw h.represents.count_is
      (omega (field_sizes, address-lt o.address h.address_is, h.represents.within))

-- Whatever the fresh block holds, `orderSerialize` writes every byte of it, none outside it, and
-- leaves the address and the entries in order.
pub order_serialize-eq-layout :
    (junk : ℕ → ℕ) (o : Order) (es : List OrderEntry)
    → IsOrder o es
    → order_serialize junk o ≡ ok (layout o.address es)
unfolding order_serialize
order_serialize-eq-layout junk o es h =
    let count = h.represents.count_is in
    let a : Bytes = address_bytes o.address in
    bind-ok _ (address_size-address o.address h.address_is) (
      put-then (size_bytes (length a)) (length a + 4 + length es * 12) _ _ (total_room o es h)
        (Filled-malloc junk _)
        λ c1 f1.
          let (c2, ran2, f2) =
            put_address-Filled o.address (4 + length es * 12) h.address_is (omega arith) f1 in
          bind-ok _ ran2 (
            put-then (int_bytes o.num_entries) (length es * 12) _ _ (omega field_sizes) f2 λ c3 f3.
              let (c4, ran4, f4) =
                put_entries-Filled es [] (replicate (order_max_size - length es) none) 0
                  (Filled-resize (omega arith) f3) in
              rw (count, h.represents.items_are)
                (bind-ok _ ran4 (
                  ap ok (
                    Filled-block f4
                    ∙ rw count (
                        regroup (size_bytes (length a)) a (int_bytes (pos (length es)))
                          (entries_bytes es)))))))
