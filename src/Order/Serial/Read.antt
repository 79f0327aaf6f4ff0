-- ===== src/Order/Serial/Read.antt =====
-- What `orderUnserialize` reads, and the round trip.
use os_tp.Base.{
  ℕ, zero, suc, ◌+◌, ◌-◌, ◌<◌, ◌≡◌, refl, sym, ap, ◌∙◌, Option, none, some, List, [], ◌∷◌, ◌++◌,
  append_assoc, arith, Bytes, length, replicate, pos, ok, bind-ok, All,
}
use os_tp.Memory.{malloc, strncpy}
use os_tp.Memory.Laws.{strncpy-whole, length-malloc, read_block-append}
use os_tp.Strings.{IsString, length-string}
use os_tp.Encoding.{int_bytes, size_bytes}
use os_tp.Encoding.Laws.{read_int-append, read_float-append, read_size-append}
use os_tp.Order.{order_max_size, OrderEntry, Order, order_new}
use os_tp.Order.View.{slots, array, Represents, slots-next, length-next, set_item-slots}
use os_tp.Order.Serial.{read_address, read_entries, order_unserialize}
use os_tp.Order.Serial.Write.{
  EntryFits, IsAddress, IsOrder, entry_bytes, entries_bytes, address_bytes, layout, address-lt,
}

copy_string :
    (junk : ℕ → ℕ) {a : Bytes} (rest : Bytes) (s : IsString a)
    → strncpy (malloc junk (length a)) (a ++ rest) (length a) ≡ ok a
copy_string junk {a} rest s = rw (length-string s) (
    ap (λ b. strncpy (malloc junk (suc (length s.text))) (b ++ rest) (suc (length s.text))) s.whole
    ∙ ap (λ b. strncpy (malloc junk (suc (length s.text))) b (suc (length s.text)))
        (append_assoc s.text (0 ∷ []) rest)
    ∙ strncpy-whole _ s.text rest (length-malloc junk _) s.is_text
    ∙ ap ok (sym s.whole))

-- With at least one byte of address.
read_address-some :
    (junk : ℕ → ℕ) (a rest : Bytes) (n : ℕ)
    → n ≡ length a
    → 0 < n
    → strncpy (malloc junk (length a)) (a ++ rest) (length a) ≡ ok a
    → read_address junk n (a ++ rest) ≡ ok (some a, rest)
unfolding read_address
read_address-some junk a rest zero e some_bytes copied = elim some_bytes [ ]
read_address-some junk a rest (suc n) e some_bytes copied =
    rw e (bind-ok _ copied (bind-ok _ (read_block-append a rest) refl))

pub read_address-append :
    (junk : ℕ → ℕ) (a : Option Bytes) (rest : Bytes)
    → IsAddress a
    → read_address junk (length (address_bytes a)) (address_bytes a ++ rest) ≡ ok (a, rest)
unfolding read_address
read_address-append junk none rest h = refl
read_address-append junk (some a) rest h =
    read_address-some junk a rest (length a) refl (omega (arith, length-string h))
      (copy_string junk rest h)

-- One entry, into a free slot.
read_entry-append :
    (rounds : ℕ) (before : List OrderEntry) (tail : List (Option OrderEntry)) (e : OrderEntry)
    (rest : Bytes)
    → EntryFits e
    → read_entries
        (suc rounds)
        (length before)
        (slots before ++ none ∷ tail)
        (entry_bytes e ++ rest)
      ≡ read_entries rounds (suc (length before)) (slots before ++ some e ∷ tail) rest
unfolding read_entries
read_entry-append rounds before tail e rest h =
    simp (append_assoc, read_int-append, read_float-append, h.0, h.1, h.2, set_item-slots)

read_entries-append :
    (es before : List OrderEntry) (free : ℕ) (rest : Bytes)
    → All EntryFits es
    → read_entries
        (length es)
        (length before)
        (slots before ++ replicate (length es + free) none)
        (entries_bytes es ++ rest)
      ≡ ok (slots before ++ (slots es ++ replicate free none))
unfolding read_entries
read_entries-append [] before free rest h =
    ap (λ n. ok (slots before ++ replicate n none)) zero_free
  where
    zero_free : 0 + free ≡ free
    zero_free = omega arith
read_entries-append (e ∷ es) before free rest h =
    ap
      (λ n.
        read_entries (suc (length es)) (length before) (slots before ++ replicate n none)
          (entries_bytes (e ∷ es) ++ rest))
      one_free
    ∙ ap
        (read_entries (suc (length es)) (length before)
          (slots before ++ none ∷ replicate (length es + free) none))
        (append_assoc (entry_bytes e) (entries_bytes es) rest)
    ∙ read_entry-append (length es) before (replicate (length es + free) none) e
        (entries_bytes es ++ rest) h.0
    ∙ (rw (slots-next, slots-next, length-next) at
        (read_entries-append es (before ++ e ∷ []) free rest h.1))
  where
    one_free : suc (length es) + free ≡ suc (length es + free)
    one_free = omega arith

regrouped :
    (a : Option Bytes) (es : List OrderEntry) (rest : Bytes)
    → layout a es ++ rest
      ≡ size_bytes (length (address_bytes a))
        ++ (address_bytes a ++ (int_bytes (pos (length es)) ++ (entries_bytes es ++ rest)))
regrouped a es rest = simp append_assoc

-- The loop on a new order's array.
read_all :
    {o : Order} (es : List OrderEntry) (rest : Bytes)
    → IsOrder o es
    → read_entries (length es) 0 order_new.items (entries_bytes es ++ rest) ≡ ok (array es)
read_all es rest h =
    ap (λ n. read_entries (length es) 0 (replicate n none) (entries_bytes es ++ rest)) sixteen
    ∙ read_entries-append es [] (order_max_size - length es) rest h.entries_fit
  where
    sixteen : order_max_size ≡ length es + (order_max_size - length es)
    sixteen = omega (arith, h.represents.within)

pub same_order :
    {o : Order} {es : List OrderEntry}
    → Represents o es
    → record { address = o.address; num_entries = pos (length es); items = array es } ≡ o
same_order {o} r =
    λ i. record { address = o.address; num_entries = sym r.count_is i; items = sym r.items_are i }

-- Reading a serialized order gives the order, whatever lies behind it.
pub order_unserialize-layout :
    (junk : ℕ → ℕ) (o : Order) (es : List OrderEntry) (rest : Bytes)
    → IsOrder o es
    → order_unserialize junk (layout o.address es ++ rest) ≡ ok o
unfolding order_unserialize
order_unserialize-layout junk o es rest h =
    ap (order_unserialize junk) (regrouped o.address es rest)
    ∙ bind-ok _ (read_size-append _ _ (omega (arith, address-lt o.address h.address_is))) (
        bind-ok _ (read_address-append junk o.address _ h.address_is) (
          bind-ok _ (read_int-append (pos (length es)) _ (omega (arith, h.represents.within)))
            (bind-ok _ (read_all es rest h) (ap ok (same_order h.represents)))))
