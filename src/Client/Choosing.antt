-- ===== src/Client/Choosing.antt =====
-- What the second choice of the client's menu does: a product and a number of it are chosen, and the
-- order that was empty has one entry.
use os_tp.Base.{
  ℕ, zero, suc, ◌-◌, ◌≤◌, ◌<◌, ◌≡◌, ap, ◌∙◌, false, some, List, [], ◌∷◌, ◌++◌, arith, All, Bytes,
  length, get_elem?, pos, ok, ltb_ℤ, eq_ℤ,
}
use os_tp.Decimal.{print_nat}
use os_tp.Product.{Product}
use os_tp.Order.{OrderEntry}
use os_tp.Order.View.{Represents}
use os_tp.Order.Search.{add_to, takes, has}
use os_tp.Terminal.Scanning.{scan_int-print_nat}
use os_tp.Client.{Session, add_to_order}
use os_tp.Client.Menu.{choose_loop, choose_product}
use os_tp.Client.Adding.{Moved, moved, full, typed_numbers, add_to_order-Moved}

get-lt {ℓ} : {A : Type ℓ} (xs : List A) (i : ℕ) (x : A) → get_elem? xs i ≡ some x → i < length xs
get-lt [] i x e = cc
get-lt (y ∷ xs) zero x e = omega arith
get-lt (y ∷ xs) (suc i) x e = omega (arith, get-lt xs i x e)

-- What the user types to add `num` of the product with this index, behind numbers that are too large.
abbrev pub choice : ℕ → List ℕ → ℕ → Bytes → Bytes
choice index ns num s = print_nat (suc index) ++ 10 ∷ typed_numbers ns (print_nat num ++ 10 ∷ s)

pub choose_product-Moved :
    (session : Session) (index : ℕ) (p : Product) (k num rounds : ℕ) (ns : List ℕ) (s : Bytes)
    → session.num_products ≡ pos (length session.products)
    → get_elem? session.products index ≡ some p
    → Represents session.order []
    → p.stock ≡ pos k
    → All (λ n. k < n) ns
    → length ns < rounds
    → 0 < num
    → num ≤ k
    → (left : Session) × (choose_product rounds session (choice index ns num s) ≡ ok (left, s))
      × Moved session [] index p num (k - num) left
unfolding choose_product choose_loop
choose_product-Moved session index p k num zero ns s many at r stock h enough some_num fits =
    absurd (omega arith)
choose_product-Moved session index p k num (suc rounds) ns s many at r stock h enough some_num
      fits =
    let (left, ran, is) =
      add_to_order-Moved session [] index p k num (suc rounds) ns s at r stock h enough some_num
        fits in
    let positive : ltb_ℤ (pos (suc index)) (pos 0) ≡ false = ground arith in
    let in_list : ltb_ℤ session.num_products (pos (suc index)) ≡ false =
      rw many (ground (arith, get-lt session.products index p at)) in
    let chosen : eq_ℤ (pos (suc index)) (pos 0) ≡ false = ground arith in
    (
      left,
      rw
          (
            scan_int-print_nat (suc index) (typed_numbers ns (print_nat num ++ 10 ∷ s)),
            positive,
            in_list,
            chosen,
          )
          (ap
              (λ j.
                add_to_order (suc rounds) j session (typed_numbers ns (print_nat num ++ 10 ∷ s)))
              (omega arith)
            ∙ ran),
      is,
    )

-- The order of one entry that was added to an empty one.
abbrev pub entry_of : Product → ℕ → OrderEntry
entry_of p num = record { product_id = p.id; quantity = pos num; price = p.price }

pub record HasOne (session : Session) (p : Product) (num : ℕ) : Type 0 where
  pub represents : Represents session.order (entry_of p num ∷ [])

pub Moved-HasOne :
    (session left : Session) (index : ℕ) (p : Product) (num after : ℕ)
    → Moved session [] index p num after left
    → HasOne left p num
unfolding add_to takes has
Moved-HasOne session left index p num after (moved o room r) = record { represents = r }
Moved-HasOne session left index p num after (full none_left) = cc
