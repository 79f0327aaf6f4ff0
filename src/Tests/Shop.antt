-- ===== src/Tests/Shop.antt =====
-- A database with one product, and a process that talks over two pipes, for the tests.
use os_tp.Base.{
  ℕ, zero, suc, ◌+◌, ◌-◌, ◌≤◌, ◌<◌, ◌≡◌, ◌≢◌, refl, sym, ap, ◌∙◌, Bool, true, false, inl, inr,
  Bool-cases, Option, none, some, List, [], ◌∷◌, ◌++◌, arith, Bytes, length, length-append, take,
  drop, take-append_length, ℤ, pos, pos_part, ◌≤ℤ◌, ◌-ℤ◌, ltb_ℤ, eq_ℤ, eq_ℤ_iff, ◌==◌,
  if◌then◌else◌, ◌*◌,
}
use os_tp.Decimal.{codes, print_int, strtol, print_nat, digits_from}
use os_tp.Decimal.Laws.{strtol-print_int}
use os_tp.Order.{Floats, OrderEntry}
use os_tp.Descriptors.{Posix}
use os_tp.Descriptors.Channel.{Channel}
use os_tp.Database.Engine.{Row, Engine, Products, select_stock, update_quantity, number_rows}
use os_tp.Database.Store.{Printing, insert_order, insert_entry}
use os_tp.Database.Store.Texts.{order_text, entry_text}
use os_tp.Database.Store.Inserts.{IsPlain, Inserts}

-- The product has the id 2; the database is its stock.
abbrev pub shop_stock : ℤ → ℤ → Option ℤ
shop_stock db id = if eq_ℤ id (pos 2) then some db else none

abbrev pub sell : ℤ → ℤ → Bool × List Row × ℤ
sell db n = if ltb_ℤ db n then (false, [], db) else (true, [], db -ℤ n)

abbrev pub shop_exec : Bytes → ℤ → Bool × List Row × ℤ
shop_exec [] db = (true, [], db)
shop_exec (c ∷ q) db =
    if c == b'S'
    then (true, number_rows (shop_stock db (strtol (drop 38 q))), db)
    else if c == b'U'
    then sell db (strtol (take (length (drop 37 q) - 11) (drop 37 q)))
    else (true, [], db)

abbrev pub shop : Engine
shop = record { Db = ℤ; exec = shop_exec }

pub shop_select :
    (db id : ℤ) → shop_exec (select_stock id) db ≡ (true, number_rows (shop_stock db id), db)
unfolding select_stock
shop_select db id = rw (strtol-print_int id) refl

front : (x y : Bytes) (k : ℕ) → length y ≡ k → take (length (x ++ y) - k) (x ++ y) ≡ x
front x y k e = ap (λ n. take n (x ++ y)) same ∙ take-append_length x y
  where
    same : length (x ++ y) - k ≡ length x
    same = omega (arith, length-append x y)

pub shop_has : (db id s : ℤ) → shop_stock db id ≡ some s → (id ≡ pos 2) × (db ≡ s)
shop_has db id s e = ground (arith, eq_ℤ_iff id (pos 2))

suffix_size : length (codes " WHERE id=" ++ print_int (pos 2)) ≡ 11
unfolding print_int print_nat digits_from
suffix_size = refl

shop_update : (db : ℤ) (n : ℕ) → shop_exec (update_quantity (pos n) (pos 2)) db ≡ sell db (pos n)
unfolding update_quantity
shop_update db n =
    ap (λ t. sell db (strtol t))
      (front (print_int (pos n)) (codes " WHERE id=" ++ print_int (pos 2)) 11 suffix_size)
    ∙ ap (sell db) (strtol-print_int (pos n))

pub shop_update_at :
    (db : ℤ) (n : ℕ) (id s : ℤ)
    → shop_stock db id ≡ some s
    → shop_exec (update_quantity (pos n) id) db ≡ sell s (pos n)
shop_update_at db n id s e =
    ap (λ i. shop_exec (update_quantity (pos n) i) db) (shop_has db id s e).0
    ∙ shop_update db n
    ∙ ap (λ d. sell d (pos n)) (shop_has db id s e).1

pub shop_sold :
    (db : ℤ) (n : ℕ) (id s : ℤ) (j : ℤ)
    → shop_stock db id ≡ some s
    → shop_stock (s -ℤ pos n) j ≡ (if eq_ℤ j id then some (s -ℤ pos n) else shop_stock db j)
shop_sold db n id s j e =
    sold j
    ∙ ap (λ i. if eq_ℤ j i then some (s -ℤ pos n) else shop_stock db j) (sym (shop_has db id s e).0)
  where
    sold :
        (j : ℤ)
        → shop_stock (s -ℤ pos n) j
          ≡ (if eq_ℤ j (pos 2) then some (s -ℤ pos n) else shop_stock db j)
    sold j = elim (Bool-cases (eq_ℤ j (pos 2))) [
      | inl same ↦ rw same refl
      | inr differs ↦ rw differs refl
    ]

pub sell_enough : (s : ℤ) (n : ℕ) → pos n ≤ℤ s → sell s (pos n) ≡ (true, [], s -ℤ pos n)
sell_enough s n h = ground arith

pub sell_short : (s : ℤ) (n : ℕ) → ¬ (pos n ≤ℤ s) → sell s (pos n) ≡ (false, [], s)
sell_short s n h = ground arith

abbrev pub gin_products : Products shop
gin_products = record {
  stock = shop_stock;
  select_law = shop_select;
  update_law = λ db n id s e h.
      (s -ℤ pos n, shop_update_at db n id s e ∙ sell_enough s n h, λ j. shop_sold db n id s j e);
  check_law = λ db n id s e h.
      shop_update_at db n id s e
      ∙ sell_short s n h
      ∙ ap (λ d. (false, [], d)) (sym (shop_has db id s e).1);
}

abbrev pub row_number : ℤ → ℤ
row_number db = pos 7

pub shop_order :
    (total address : Bytes) (timestamp db : ℤ)
    → shop_exec (order_text total address timestamp) db ≡ (true, [], db)
unfolding order_text insert_order
shop_order total address timestamp db = refl

pub shop_entry :
    (id : ℤ) (e : OrderEntry) (db : ℤ) → shop_exec (entry_text id e) db ≡ (true, [], db)
unfolding entry_text insert_entry
shop_entry id e db = refl

abbrev pub shop_inserts : Inserts shop gin_products row_number
shop_inserts = record {
  HasRoom = λ db. Unit {0};
  insert_order_law = λ db N total address timestamp room plain quoted.
      (7, db, shop_order (N.print_fixed total) address timestamp db, refl, omega arith, λ j. refl);
  insert_entry_law = λ db n e. (db, shop_entry (pos n) e db, λ j. refl);
}

-- Floats that are whole numbers.
abbrev pub whole_floats : Floats
whole_floats = record { of_int = pos_part; mul = λ a b. a * b; add = λ a b. a + b }

abbrev pub whole_prints : Printing
whole_prints = record {
  floats = whole_floats;
  print_fixed = λ t. print_int (pos t) ++ codes ".00";
  int_of_float = pos;
}

pub whole_prints-IsPlain : (t : ℕ) → IsPlain whole_prints t
whole_prints-IsPlain t = (b'0', b'0', refl, refl, refl)

-- Two pipes, that move one byte at a time: what comes, and what went.
abbrev pub pipe_read : ℕ → ℕ → Bytes × Bytes → Option Bytes × (Bytes × Bytes)
pipe_read fd n ([], gone) = (some [], ([], gone))
pipe_read fd zero (b ∷ s, gone) = (some [], (b ∷ s, gone))
pipe_read fd (suc n) (b ∷ s, gone) = (some (b ∷ []), (s, gone))

abbrev pub pipe_write : ℕ → Bytes → Bytes × Bytes → Option ℕ × (Bytes × Bytes)
pipe_write fd [] w = (some 0, w)
pipe_write fd (b ∷ d) (coming, gone) = (some 1, (coming, gone ++ b ∷ []))

abbrev pub pipes : Posix
pipes = record { World = Bytes × Bytes; read = pipe_read; write = pipe_write }

pub pipe_delivers :
    (w : Bytes × Bytes) (n : ℕ) (coming gone : Bytes)
    → w ≡ (coming, gone)
    → 0 < n
    → coming ≢ []
    → (chunk : Bytes) × (rest : Bytes) × (w' : Bytes × Bytes) × (pipe_read 0 n w ≡ (some chunk, w'))
      × (coming ≡ chunk ++ rest)
      × (0 < length chunk)
      × (length chunk ≤ n)
      × (w' ≡ (rest, gone))
pipe_delivers w n [] gone e h ne = absurd (ne refl)
pipe_delivers w zero (b ∷ s) gone e h ne = elim h [ ]
pipe_delivers w (suc n) (b ∷ s) gone e h ne =
    (b ∷ [], s, (s, gone), ap (pipe_read 0 (suc n)) e, refl, omega arith, omega arith, refl)

pub pipe_accepts :
    (w : Bytes × Bytes) (coming gone src : Bytes)
    → w ≡ (coming, gone)
    → src ≢ []
    → (count : ℕ) × (w' : Bytes × Bytes) × (pipe_write 1 src w ≡ (some count, w'))
      × (0 < count)
      × (count ≤ length src)
      × (w' ≡ (coming, gone ++ take count src))
pipe_accepts w coming gone [] e ne = absurd (ne refl)
pipe_accepts w coming gone (b ∷ src) e ne =
    (1, (coming, gone ++ b ∷ []), ap (pipe_write 1 (b ∷ src)) e, omega arith, omega arith, refl)

abbrev pub pipe_channel : Channel pipes 0 1
pipe_channel = record {
  State = λ w coming gone. w ≡ (coming, gone);
  delivers = pipe_delivers;
  accepts = pipe_accepts;
}
