-- ===== src/Sockets.antt =====
-- common/commWithSockets.c: opening, accepting and closing connections over TCP sockets. What it
-- prints on the terminal is left out.
pub mod Address
pub mod Ports
pub mod Octets
pub mod Hosts
pub mod Splitting
pub mod Opening
use os_tp.Base.{
  ℕ, suc, ◌+◌, ◌%◌, Bool, true, false, not, Option, none, some, [], ◌∷◌, ◌++◌, Bytes, drop, Outcome,
  ok, fault, ℤ, pos, if◌then◌else◌,
}
use os_tp.Io.{Io, ◌>>=◌, pure, lift}
use os_tp.Memory.{read_block, text_of}
use os_tp.Decimal.{strtol}
use os_tp.Encoding.{int_bytes}
use os_tp.Order.{deref}
use os_tp.Descriptors.{Posix}
use os_tp.Comm.{message_close, conn_send}
use os_tp.Sockets.Address.{search_for_colon, ip_part, to_ushort, check_port, is_valid_address}

-- An IPv4 address that a socket is connected to or bound to.
pub record Endpoint : Type 0 where
  pub address : ℕ
  pub port : ℕ

abbrev pub inaddr_any : ℕ
inaddr_any = 0

-- The system calls. `socket` and `accept` give a descriptor, or none for a negative result; the
-- others give whether they returned 0. `inet_pton` gives the address, or none for 0 and -1.
pub record Network (World : Type 0) : Type 0 where
  pub inet_pton : Bytes → Option ℕ
  pub socket : World → Option ℕ × World
  pub connect : ℕ → Endpoint → World → Bool × World
  pub bind : ℕ → Endpoint → World → Bool × World
  pub listen : ℕ → ℕ → World → Bool × World
  pub accept : ℕ → World → Option ℕ × World
  pub shutdown : ℕ → World → Bool × World

pub record Connection : Type 0 where
  pub ip : Option Bytes
  pub port : ℕ
  pub socketfd : ℕ

pub record ConnectionParams : Type 0 where
  pub port : ℕ
  pub socketfd : ℕ

module _ (P : Posix) (N : Network (P.World)) where
  open P use {World}

  unfoldable pub inet_pton_wrp : Bytes → Io World (Option ℕ)
  inet_pton_wrp src = do text ← lift (text_of src); pure (N.inet_pton text)

  unfoldable pub socket_wrp : Io World (Option ℕ)
  socket_wrp w = ok (N.socket w)

  unfoldable pub connect_wrp : ℕ → Endpoint → Io World Bool
  connect_wrp fd to w = ok (N.connect fd to w)

  unfoldable pub bind_wrp : ℕ → Endpoint → Io World Bool
  bind_wrp fd at w = ok (N.bind fd at w)

  unfoldable pub listen_wrp : ℕ → ℕ → Io World Bool
  listen_wrp fd backlog w = ok (N.listen fd backlog w)

  unfoldable pub shutdown_wrp : ℕ → Io World Bool
  shutdown_wrp fd w = ok (N.shutdown fd w)

  -- The connection with its socket, or none for -1.
  unfoldable pub create_tcp_socket_for_client : Bytes → ℕ → Io World (Option Connection)
  unfolding inet_pton_wrp socket_wrp connect_wrp
  create_tcp_socket_for_client ip port = do
    found ← inet_pton_wrp ip
    elim found [
      | none ↦ pure none
      | some address ↦ (do
        socket ← socket_wrp
        elim socket [
          | none ↦ pure none
          | some fd ↦ (do
            connected ← connect_wrp fd (record { address = address; port = port })
            pure (
                if connected
                then some (record { ip = some ip; port = port; socketfd = fd })
                else none))
        ])
    ]

  unfoldable pub initialize_client : Bytes → Io World (Option Connection)
  unfolding create_tcp_socket_for_client
  initialize_client address = do
    found ← lift (search_for_colon address)
    colon_position ← lift (deref found)
    ip ← lift (ip_part colon_position address)
    port_text ← lift (text_of (drop (colon_position + 1) address))
    create_tcp_socket_for_client ip (to_ushort (strtol port_text))

  unfoldable pub conn_open : Bytes → Io World (Option Connection)
  unfolding initialize_client
  conn_open address = do
    valid ← lift (is_valid_address address)
    if not valid then pure none else initialize_client address

  unfoldable pub create_tcp_socket_for_server : ℕ → Io World (Option ConnectionParams)
  unfolding socket_wrp bind_wrp listen_wrp
  create_tcp_socket_for_server port = do
    socket ← socket_wrp
    elim socket [
      | none ↦ pure none
      | some fd ↦ (do
        bound ← bind_wrp fd (record { address = inaddr_any; port = port })
        if not bound then pure none else do
          listens ← listen_wrp fd 10
          pure (if listens then some (record { port = port; socketfd = fd }) else none))
    ]

  unfoldable pub initialize_server : Bytes → Io World (Option ConnectionParams)
  unfolding create_tcp_socket_for_server
  initialize_server listening_address = do
    text ← lift (text_of listening_address)
    create_tcp_socket_for_server (to_ushort (strtol text))

  unfoldable pub conn_listen : Bytes → Io World (Option ConnectionParams)
  unfolding initialize_server
  conn_listen listening_address = do
    valid ← lift (check_port listening_address)
    if not valid then pure none else initialize_server listening_address

  unfoldable pub conn_accept : ConnectionParams → Io World (Option Connection)
  conn_accept params w =
      let r = N.accept params.socketfd w in
      ok (
        elim r.0 [
          | none ↦ none
          | some fd ↦ some (record { ip = none; port = params.port; socketfd = fd })
        ],
        r.1,
      )

  -- The flag is what the function returns; the connection is freed with it.
  unfoldable pub conn_close : ℕ → Connection → Io World Bool
  unfolding shutdown_wrp
  conn_close rounds connection = do
    sent ← conn_send P rounds connection.socketfd (int_bytes message_close)
    if not sent then pure false else shutdown_wrp connection.socketfd
