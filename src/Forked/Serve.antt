-- ===== src/Forked/Serve.antt =====
-- `forkedServer` of server/forkedServer.c: the loop over a client's requests. What it logs is left
-- out.
use os_tp.Base.{ℕ, zero, suc, Bool, true, false, Outcome, ok, blocked, ℤ, eq_ℤ, if◌then◌else◌}
use os_tp.Base
use os_tp.Io.{Fate, exited, Io, ◌>>=◌, pure, lift}
use os_tp.Encoding.{read_int}
use os_tp.Descriptors.{Posix}
use os_tp.Comm.{Transport, used, conn_receive, message_close}
use os_tp.Forked.{
  Ends, cmd_get_products, cmd_place_order, on_descriptors, send_products, process_order,
}

module _ (P : Posix) (rounds : ℕ) (transport : Transport) (ends : Ends) (junk : ℕ → ℕ)
    (conn_close : Io (P.World) Bool) where
  open P use {World}

  unfoldable pub shut_down : Io (World × Bool) Bool
  shut_down = on_descriptors conn_close

  -- The switch; the flag is `done`.
  unfoldable pub serve_code : ℤ → Io (World × Bool) Bool
  unfolding shut_down
  serve_code msg_code =
      if eq_ℤ msg_code cmd_get_products
      then (do sent ← send_products P rounds transport ends junk; pure false)
      else if eq_ℤ msg_code cmd_place_order
      then (do placed ← process_order P rounds transport ends junk; pure false)
      else if eq_ℤ msg_code message_close
      then (do closed ← shut_down; pure true)
      else pure false

  -- One round: a command that did not come whole is read through a pointer that was not set.
  unfoldable pub serve_request : Io (World × Bool) Bool
  unfolding serve_code
  serve_request = do
    received ← on_descriptors (conn_receive P rounds transport ends.client_in)
    client_data ← lift (used received)
    msg_code ← lift (read_int client_data)
    serve_code msg_code.0

  -- `do { ... } while (!done);`, with the rounds that it may run, and then `exit(0)`.
  unfoldable pub forked_server : ℕ → Io (World × Bool) (Fate (Unit {0}))
  unfolding serve_request
  forked_server zero w = blocked
  forked_server (suc turns) w =
      Base.◌>>=◌ (serve_request w) (λ r. if r.0 then ok (exited, r.1) else forked_server turns r.1)
