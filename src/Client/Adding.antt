-- ===== src/Client/Adding.antt =====
-- What `addToOrder` of client/client.c moves from a product's stock into the order.
use os_tp.Base.{
  ℕ, zero, suc, ◌-◌, ◌≤◌, ◌<◌, ◌≡◌, refl, inl, inr, true, false, some, List, [], ◌∷◌, ◌++◌, arith,
  All, Bytes, length, get_elem?, set, pos, ◌-ℤ◌, ok, ltb_ℤ, eq_ℤ,
}
use os_tp.Decimal.{print_nat}
use os_tp.Product.{Product}
use os_tp.Product.Codec.{set_stock_accepts}
use os_tp.Order.{Order, OrderEntry}
use os_tp.Order.View.{Represents}
use os_tp.Order.Search.{add_to, takes}
use os_tp.Order.Add.{order_add-Represents}
use os_tp.Terminal.Scanning.{scan_int-print_nat}
use os_tp.Client.{Session, add_number, number_loop, add_to_order}

-- The session then: the order has taken `num` of the product, whose stock is less by as many; or
-- there is no room for one more product in the order, and nothing has changed.
pub data Moved (session : Session) (es : List OrderEntry) (index : ℕ) (p : Product) (num left : ℕ)
    : Session → Type 0 where
  moved :
      (o : Order)
      → takes p.id es ≡ true
      → Represents o (add_to es p.id (pos num) p.price)
      → Moved session es index p num left (record session {
        order = o;
        products = set session.products index (record p { stock = pos left });
      })
  full : takes p.id es ≡ false → Moved session es index p num left session

minus : (k num : ℕ) → num ≤ k → pos k -ℤ pos num ≡ pos (k - num)
unfolding ◌-ℤ◌
minus k num h = ground arith

add_number-Moved :
    (session : Session) (es : List OrderEntry) (index : ℕ) (p : Product) (k num : ℕ)
    → Represents session.order es
    → p.stock ≡ pos k
    → 0 < num
    → num ≤ k
    → (s : Session) × (add_number index p (pos num) session ≡ ok s)
      × Moved session es index p num (k - num) s
unfolding add_number
add_number-Moved session es index p k num r stock some_num fits =
    let not_zero : eq_ℤ (pos num) (pos 0) ≡ false = ground arith in
    let left : p.stock -ℤ pos num ≡ pos (k - num) = rw stock (minus k num fits) in
    elim (order_add-Represents session.order es p.id (pos num) p.price r) [
      | inl (room, (o, ran, r', kept)) ↦ (
        record session {
          order = o;
          products = set session.products index (record p { stock = pos (k - num) });
        },
        rw (not_zero, ran, left, set_stock_accepts p (k - num)) refl,
        moved o room r',
      )
      | inr (none_left, ran) ↦ (session, rw (not_zero, ran) refl, full none_left)
    ]

-- Numbers, each typed on a line.
abbrev pub typed_numbers : List ℕ → Bytes → Bytes
typed_numbers [] s = s
typed_numbers (n ∷ ns) s = print_nat n ++ 10 ∷ typed_numbers ns s

number_loop-typed :
    (ns : List ℕ) (rounds index : ℕ) (p : Product) (k num : ℕ) (session left : Session) (s : Bytes)
    → length ns < rounds
    → p.stock ≡ pos k
    → All (λ n. k < n) ns
    → num ≤ k
    → add_number index p (pos num) session ≡ ok left
    → number_loop rounds index p session (typed_numbers ns (print_nat num ++ 10 ∷ s)) ≡ ok (left, s)
unfolding number_loop
number_loop-typed ns zero index p k num session left s enough stock h fits added =
    absurd (omega arith)
number_loop-typed [] (suc rounds) index p k num session left s enough stock h fits added =
    let in_stock : ltb_ℤ p.stock (pos num) ≡ false = rw stock (ground arith) in
    let positive : ltb_ℤ (pos num) (pos 0) ≡ false = ground arith in
    rw (scan_int-print_nat num s, positive, in_stock, added) refl
number_loop-typed (n ∷ ns) (suc rounds) index p k num session left s enough stock h fits added =
    let too_many : ltb_ℤ p.stock (pos n) ≡ true = rw stock (ground (arith, h.0)) in
    let positive : ltb_ℤ (pos n) (pos 0) ≡ false = ground arith in
    let later =
      number_loop-typed ns rounds index p k num session left s (omega arith) stock h.1 fits added in
    rw (scan_int-print_nat n (typed_numbers ns (print_nat num ++ 10 ∷ s)), positive, too_many) later

pub add_to_order-Moved :
    (session : Session) (es : List OrderEntry) (index : ℕ) (p : Product) (k num rounds : ℕ)
    (ns : List ℕ) (s : Bytes)
    → get_elem? session.products index ≡ some p
    → Represents session.order es
    → p.stock ≡ pos k
    → All (λ n. k < n) ns
    → length ns < rounds
    → 0 < num
    → num ≤ k
    → (left : Session) × (add_to_order rounds index session
          (typed_numbers ns (print_nat num ++ 10 ∷ s))
        ≡ ok (left, s))
      × Moved session es index p num (k - num) left
unfolding add_to_order
add_to_order-Moved session es index p k num rounds ns s at r stock h enough some_num fits =
    let (left, added, moved_it) = add_number-Moved session es index p k num r stock some_num fits in
    (
      left,
      rw at (number_loop-typed ns rounds index p k num session left s enough stock h fits added),
      moved_it,
    )
