-- ===== src/Client/Main.antt =====
-- The start of main of client/client.c, from the configuration file on, and its handler of SIGINT.
use os_tp.Base.{
  ℕ, zero, suc, Bool, true, false, Option, none, some, Bytes, Outcome, fault, ℤ, pos, negsuc, eq_ℤ,
  if◌then◌else◌, Bool-cases, inl, inr,
}
use os_tp.Base
use os_tp.Io.{Io, ◌>>=◌, pure, lift}
use os_tp.Descriptors.{Posix}
use os_tp.Order.{deref}
use os_tp.Config.{Config, new_config, setup, get_server_address}
use os_tp.Config.Meaning.{lines, meaning}
use os_tp.Client.{Link, disconnect}
use os_tp.Client.Menu.{client_session}

abbrev pub sigint : ℤ
sigint = pos 2

module _ (P : Posix) (rounds : ℕ) (junk : ℕ → ℕ) (slack : ℕ) where
  open P use {World}

  -- What follows the opening of the connection, and the exit code.
  unfoldable pub after_open : Option (Link World) → Io (World × Bytes) ℤ
  unfolding client_session
  after_open none = pure (negsuc 0)
  after_open (some conn) = do left ← client_session P rounds conn junk slack; pure (pos 0)

  unfoldable pub open_session :
      (Bytes → Io World (Option (Link World))) → Bytes → Io (World × Bytes) ℤ
  unfolding after_open
  open_session conn_open address (w, input) =
      Base.◌>>=◌ (conn_open address w) (λ r. after_open r.0 (r.1, input))

  -- `main`, with what `fopen` gives of the configuration file: neither the configuration nor its
  -- address is compared with NULL.
  unfoldable pub client_main :
      Bytes → Option Bytes → (Bytes → Io World (Option (Link World))) → Io (World × Bytes) ℤ
  unfolding setup open_session
  client_main behind file conn_open = do
    setting ← lift (setup behind file)
    config ← lift (deref setting)
    address ← lift (deref (get_server_address config))
    open_session conn_open address

  -- `shutDown`: whether the process ends.
  unfoldable pub client_shut_down : Link World → ℤ → Io World Bool
  unfolding disconnect
  client_shut_down conn signo =
      if eq_ℤ signo sigint
      then (do sent ← disconnect P rounds conn junk slack; pure true)
      else pure false

-- The configuration that a file gives, if any, and its address of the server.
abbrev pub configuration : Option Bytes → Option Config
configuration none = none
configuration (some content) =
    let r = meaning false (lines content) new_config in if r.0 then some r.1 else none

abbrev pub server_of : Option Config → Option Bytes
server_of none = none
server_of (some config) = get_server_address config

abbrev pub or_fault {ℓ} : {A : Type ℓ} → Option Bytes → (Bytes → Outcome A) → Outcome A
or_fault none k = fault
or_fault (some a) k = k a
