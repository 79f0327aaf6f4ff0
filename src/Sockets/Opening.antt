-- ===== src/Sockets/Opening.antt =====
-- Where the connections of common/commWithSockets.c go.
use os_tp.Sockets.Splitting.{
  search_for_colon-some, ip_part-append, IsHost-NoColon, IsHost-IsText, print_nat-IsText,
  drop-colon, is_valid_address-matches,
}
use os_tp.Base.{
  ℕ, ◌%◌, ◌≡◌, refl, ap, ◌∙◌, true, none, [], ◌∷◌, ◌++◌, Bytes, ok, pos, Bool, some, if◌then◌else◌,
}
use os_tp.Memory.Laws.{text_of-append}
use os_tp.Decimal.{print_nat, strtol, print_int}
use os_tp.Decimal.Laws.{strtol-print_int}
use os_tp.Descriptors.{Posix}
use os_tp.Sockets.{
  Network, create_tcp_socket_for_client, create_tcp_socket_for_server, conn_open, conn_listen,
  inet_pton_wrp, socket_wrp, connect_wrp,
}
use os_tp.Sockets.Address.{is_valid_address, to_ushort}
use os_tp.Sockets.Hosts.{IsHost, IsHost→matches}
use os_tp.Sockets.Ports.{IsPort, check_port-matches, IsPort→matches}

-- A host, a colon and a port.
pub data IsAddress (a : Bytes) : Type 0 where
  host_and_port :
      (h : Bytes) (n : ℕ)
      → IsHost h
      → IsPort (print_nat n)
      → a ≡ h ++ b':' ∷ print_nat n
      → IsAddress a

to_ushort-print_nat : (n : ℕ) → to_ushort (strtol (print_nat n)) ≡ n % 65536
unfolding print_int
to_ushort-print_nat n = ap to_ushort (strtol-print_int (pos n))

module _ (P : Posix) (N : Network (P.World)) where
  -- The host and the port of a valid address.
  conn_open-splits :
      (h : Bytes) (n : ℕ) (w : P.World)
      → IsHost h
      → IsPort (print_nat n)
      → conn_open P N (h ++ b':' ∷ (print_nat n ++ 0 ∷ [])) w
        ≡ create_tcp_socket_for_client P N (h ++ 0 ∷ []) (n % 65536) w
  unfolding conn_open
  conn_open-splits h n w is_host is_port =
      let th = IsHost-IsText h is_host in
      let tp = print_nat-IsText n in
      let k = IsHost-NoColon h is_host in
      let valid : is_valid_address (h ++ b':' ∷ (print_nat n ++ 0 ∷ [])) ≡ ok true =
        is_valid_address-matches h (print_nat n) th tp k
        ∙ rw (IsHost→matches h is_host, IsPort→matches (print_nat n) is_port) refl in
      rw
        (
          valid,
          search_for_colon-some h (print_nat n ++ 0 ∷ []) th k,
          ip_part-append h (b':' ∷ (print_nat n ++ 0 ∷ [])),
          drop-colon h (print_nat n ++ 0 ∷ []),
          text_of-append (print_nat n) [] tp,
        )
        (ap (λ port. create_tcp_socket_for_client P N (h ++ 0 ∷ []) port w) (to_ushort-print_nat n))

  -- Opening a connection to a valid address whose host the system knows connects a new socket to
  -- that host and to the port modulo 65536, which is another port than the one that is written for
  -- the ports from 65536 to 99999, and returns the connection with the socket, the host and that
  -- port, or NULL where the system refuses to connect. The host is two to four numbers up to 255 with
  -- dots between them, and the port 0 or a number from 10 to 99999.
  pub conn_open-address :
      (h : Bytes) (n address fd : ℕ) (connected : Bool) (w w1 w2 : P.World)
      → IsHost h
      → IsPort (print_nat n)
      → N.inet_pton h ≡ some address
      → N.socket w ≡ (some fd, w1)
      → N.connect fd (record { address = address; port = n % 65536 }) w1 ≡ (connected, w2)
      → conn_open P N (h ++ b':' ∷ (print_nat n ++ 0 ∷ [])) w
        ≡ ok (
          if connected
              then some (record { ip = some (h ++ 0 ∷ []); port = n % 65536; socketfd = fd })
              else none,
          w2,
        )
  unfolding create_tcp_socket_for_client inet_pton_wrp socket_wrp connect_wrp
  conn_open-address h n address fd connected w w1 w2 is_host is_port known opened tried =
      conn_open-splits h n w is_host is_port
      ∙ rw (text_of-append h [] (IsHost-IsText h is_host), known, opened, tried) refl

  -- Where the system does not know the host, as inet_pton refuses one of fewer than four numbers,
  -- nothing is connected.
  pub conn_open-unknown :
      (h : Bytes) (n : ℕ) (w : P.World)
      → IsHost h
      → IsPort (print_nat n)
      → N.inet_pton h ≡ none
      → conn_open P N (h ++ b':' ∷ (print_nat n ++ 0 ∷ [])) w ≡ ok (none, w)
  unfolding create_tcp_socket_for_client inet_pton_wrp
  conn_open-unknown h n w is_host is_port unknown =
      conn_open-splits h n w is_host is_port
      ∙ rw (text_of-append h [] (IsHost-IsText h is_host), unknown) refl

  -- `conn_listen` on the text of a port, 0 or a number from 10 to 99999, binds a socket to it modulo
  -- 65536, on all interfaces: the port that `conn_open` connects to with the same text in its address.
  pub conn_listen-port :
      (n : ℕ) (w : P.World)
      → IsPort (print_nat n)
      → conn_listen P N (print_nat n ++ 0 ∷ []) w ≡ create_tcp_socket_for_server P N (n % 65536) w
  unfolding conn_listen
  conn_listen-port n w is =
      rw
        (
          check_port-matches (print_nat n) [] (print_nat-IsText n),
          IsPort→matches (print_nat n) is,
          text_of-append (print_nat n) [] (print_nat-IsText n),
        )
        (ap (λ port. create_tcp_socket_for_server P N port w) (to_ushort-print_nat n))
