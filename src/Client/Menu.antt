-- ===== src/Client/Menu.antt =====
-- The menu of client/client.c: the loop of main over an open connection.
use os_tp.Base.{
  ℕ, zero, suc, ◌+◌, ◌-◌, ◌*◌, Bool, true, false, ◌||◌, not, Option, none, some, List, [], ◌∷◌,
  ◌++◌, Bytes, length, get_elem?, set, ℤ, pos, negsuc, pos_part, ltb_ℤ, eq_ℤ, ◌-ℤ◌, Outcome, ok,
  fault, blocked, leb, ltb, ◌==◌, if◌then◌else◌, ◌&&◌,
}
use os_tp.Base
use os_tp.Io.{Io, ◌>>=◌, pure}
use os_tp.Order.{Order, order_new, order_get_num_entries}
use os_tp.Descriptors.{Posix}
use os_tp.Terminal.{scan_int}
use os_tp.Client.{
  Submitted, failed, unsatisfied, placed, Session, Link, on_wire, on_terminal, disconnect,
  request_products, submit_order, add_to_order,
}

-- The loop that asks for a product's number.
unfoldable pub choose_loop : ℕ → ℤ → Bytes → Outcome (ℤ × Bytes)
choose_loop zero num_products input = blocked
choose_loop (suc rounds) num_products input = Base.◌>>=◌ (scan_int input) (λ r.
    if ltb_ℤ r.0 (pos 0) || ltb_ℤ num_products r.0
    then choose_loop rounds num_products r.1
    else ok r)

-- The second choice of the menu.
unfoldable pub choose_product : ℕ → Session → Bytes → Outcome (Session × Bytes)
unfolding choose_loop add_to_order
choose_product rounds session input =
    Base.◌>>=◌ (choose_loop rounds session.num_products input) (λ r.
      if eq_ℤ r.0 (pos 0)
      then ok (session, r.1)
      else add_to_order rounds (pos_part r.0 - 1) session r.1)

-- What the loop of main does next: it goes on with the session, or it is done.
pub data Turn : Type 0 where
  goes_on is_done : Session → Turn

module _ (P : Posix) (rounds : ℕ) (conn : Link (P.World)) (junk : ℕ → ℕ) (slack : ℕ) where
  open P use {World}

  -- `order = ...` after `submitOrder`.
  abbrev pub after_submit : Session → Submitted × Order → Turn
  after_submit session (failed, o) = is_done (record session { order = o })
  after_submit session (unsatisfied, o) = goes_on (record session { order = o })
  after_submit session (placed, o) = is_done (record session { order = o })

  -- The fourth choice of the menu.
  unfoldable pub submit_choice : Session → Io (World × Bytes) Turn
  submit_choice session =
      if eq_ℤ (order_get_num_entries session.order) (pos 0) then pure (goes_on session) else (do
        r ← submit_order P rounds conn junk slack session.order
        pure (after_submit session r))

  unfoldable pub menu : ℤ → Session → Io (World × Bytes) Turn
  unfolding choose_product submit_choice
  menu option session =
      if eq_ℤ option (pos 0)
      then pure (is_done session)
      else if eq_ℤ option (pos 2)
      then (do
        s ← on_terminal P rounds conn junk slack (choose_product rounds session)
        pure (goes_on s))
      else if eq_ℤ option (pos 4)
      then submit_choice session
      else pure (goes_on session)

  -- `while (!done)`, with the rounds that it may run.
  unfoldable pub main_loop : ℕ → Session → Io (World × Bytes) Session
  unfolding menu
  main_loop zero session w = blocked
  main_loop (suc more) session w =
      Base.◌>>=◌
        ((do option ← on_terminal P rounds conn junk slack scan_int; menu option session) w)
        (λ r. elim r.0 [ goes_on s ↦ main_loop more s r.1 | is_done s ↦ ok (s, r.1) ])

  -- main, from the open connection on.
  unfoldable pub client_session : Io (World × Bytes) Bool
  unfolding request_products main_loop disconnect
  client_session = do
    found ← on_wire P rounds conn junk slack (request_products P rounds conn junk slack)
    left ← (elim found [
      | none ↦ pure none
      | some (num_products, products) ↦ (do
        s ←
            main_loop rounds
              (record { order = order_new; products = products; num_products = num_products })
        pure (some s))
    ])
    on_wire P rounds conn junk slack (disconnect P rounds conn junk slack)
