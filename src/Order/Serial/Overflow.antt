-- ===== src/Order/Serial/Overflow.antt =====
-- `orderUnserialize` trusts the number of entries that it reads.
use os_tp.Base.{
  ℕ, zero, suc, ◌+◌, ◌^◌, ◌≤◌, ◌<◌, ◌≡◌, refl, ◌⊎◌, inl, inr, Bool-cases, Option, some, List, [],
  ◌∷◌, ◌++◌, arith, Bytes, length, set, length-set, ltb, ltb→lt, pos, Outcome, ok, fault, ◌>>=◌,
  bind-ok,
}
use os_tp.Memory.{read_block}
use os_tp.Encoding.{int_bytes, size_bytes, read_int, read_float}
use os_tp.Encoding.Laws.{read_int-append, read_size-append}
use os_tp.Order.{order_max_size, OrderEntry, set_item, order_new}
use os_tp.Order.Serial.{read_entries, order_unserialize}
use os_tp.Order.Serial.Write.{IsAddress, address_bytes, address-lt}
use os_tp.Order.Serial.Read.{read_address-append}

-- It gives a value or a fault, and does not block.
abbrev Settles {ℓ} : {A : Type ℓ} → Outcome A → Type ℓ
Settles {A = A} m = (m ≡ fault) ⊎ ((a : A) × (m ≡ ok a))

bind-fault {ℓ κ} :
    {A : Type ℓ} {B : Type κ} (m : Outcome A) (f : A → Outcome B)
    → Settles m
    → ((a : A) → f a ≡ fault)
    → (m >>= f) ≡ fault
bind-fault m f (inl e) h = rw e refl
bind-fault m f (inr (a, e)) h = rw e (h a)

Settles-bind {ℓ κ} :
    {A : Type ℓ} {B : Type κ} (m : Outcome A) (f : A → B)
    → Settles m
    → Settles (m >>= λ a. ok (f a))
Settles-bind m f (inl e) = inl (rw e refl)
Settles-bind m f (inr (a, e)) = inr (f a, rw e refl)

read_block-Settles : (n : ℕ) (p : Bytes) → Settles (read_block n p)
unfolding read_block
read_block-Settles zero p = inr (_, refl)
read_block-Settles (suc n) [] = inl refl
read_block-Settles (suc n) (x ∷ p) = Settles-bind (read_block n p) _ (read_block-Settles n p)

read_int-Settles : (p : Bytes) → Settles (read_int p)
unfolding read_int
read_int-Settles p = Settles-bind (read_block 4 p) _ (read_block-Settles 4 p)

read_float-Settles : (p : Bytes) → Settles (read_float p)
unfolding read_float
read_float-Settles p = Settles-bind (read_block 4 p) _ (read_block-Settles 4 p)

set_item-cases :
    (items : List (Option OrderEntry)) (i : ℕ) (e : OrderEntry)
    → (set_item items i e ≡ fault)
      ⊎ ((i < length items) × (set_item items i e ≡ ok (set items i (some e))))
unfolding set_item
set_item-cases items i e = elim (Bool-cases (ltb i (length items))) [
  | inl inside ↦ inr (ltb→lt _ _ inside, rw inside refl)
  | inr outside ↦ inl (rw outside refl)
]

-- Past the end of the array the loop faults, whatever it reads.
read_entries-overflow :
    (rounds i : ℕ) (items : List (Option OrderEntry)) (p : Bytes)
    → i ≤ length items
    → length items < i + rounds
    → read_entries rounds i items p ≡ fault
unfolding read_entries
read_entries-overflow zero i items p h over = absurd (omega arith)
read_entries-overflow (suc rounds) i items p h over =
    bind-fault (read_int p) _ (read_int-Settles p) λ product_id.
      bind-fault (read_int product_id.1) _ (read_int-Settles _) λ quantity.
        bind-fault (read_float quantity.1) _ (read_float-Settles _) λ price.
          store (record { product_id = product_id.0; quantity = quantity.0; price = price.0 })
            price.1 (λ items' q. read_entries-overflow rounds (suc i) items' q)
  where
    store :
        (e : OrderEntry) (q : Bytes)
        → ((items' : List (Option OrderEntry)) (q : Bytes)
            → suc i ≤ length items'
            → length items' < suc i + rounds
            → read_entries rounds (suc i) items' q ≡ fault)
        → (set_item items i e >>= λ items'. read_entries rounds (suc i) items' q) ≡ fault
    store e q later = elim (set_item-cases items i e) [
      | inl failed ↦ rw failed refl
      | inr (inside, done) ↦ bind-ok _ done (
          later (set items i (some e)) q (omega (arith, length-set items i (some e)))
            (omega (arith, length-set items i (some e))))
    ]

-- Serialized data with a terminated address or none, whose count of entries is above 16 and fits
-- an `int`, makes `orderUnserialize` write outside the array of 16 entries, or read outside the
-- data, whatever bytes follow.
pub order_unserialize-overflow :
    (junk : ℕ → ℕ) (a : Option Bytes) (n : ℕ) (rest : Bytes)
    → IsAddress a
    → order_max_size < n
    → n < 2 ^ 31
    → order_unserialize junk
        (size_bytes (length (address_bytes a)) ++ (address_bytes a ++ (int_bytes (pos n) ++ rest)))
      ≡ fault
unfolding order_unserialize
order_unserialize-overflow junk a n rest h many fits =
    bind-ok _ (read_size-append _ _ (omega (arith, address-lt a h))) (
      bind-ok _ (read_address-append junk a _ h) (
        bind-ok _ (read_int-append (pos n) _ (omega arith))
          (rw (read_entries-overflow n 0 order_new.items rest (omega arith) (omega arith)) refl)))
