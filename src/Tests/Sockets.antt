-- ===== src/Tests/Sockets.antt =====
-- Addresses of common/commWithSockets.c, over a network that refuses every connection but one.
use os_tp.Base.{◌≡◌, refl, ◌↔◌, true, some, [], ◌∷◌, ◌++◌, arith, Bytes, ok, ◌==◌}
use os_tp.Memory.Laws.{are_nonzero-IsText}
use os_tp.Decimal.{codes, print_nat}
use os_tp.Sockets.{Network, conn_open}
use os_tp.Sockets.Address.{check_ip, check_port}
use os_tp.Sockets.Ports.{IsPort, long_port, check_port-IsPort}
use os_tp.Sockets.Hosts.{IsHost, host, dotted, check_ip-IsHost}
use os_tp.Sockets.Opening.{conn_open-address}
use os_tp.Tests.Descriptors.{trickle}

abbrev small_network : Network Bytes
small_network = record {
  inet_pton = λ text. some 1;
  socket = λ w. (some 3, w);
  connect = λ fd to w. (to.port == 8000, w);
  bind = λ fd at w. (true, w);
  listen = λ fd backlog w. (true, w);
  accept = λ fd w. (some 4, w);
  shutdown = λ fd w. (true, w);
}

abbrev local_host : Bytes
local_host = dotted (127 ∷ 0 ∷ 0 ∷ []) ++ print_nat 1

local_host-IsHost : IsHost local_host
local_host-IsHost =
    host (127 ∷ 0 ∷ 0 ∷ []) 1 (omega arith, (omega arith, (omega arith, tt))) (omega arith)
      (omega arith) (omega arith) refl

written-IsPort : IsPort (print_nat 73536)
written-IsPort = long_port 73536 (omega arith) (omega arith) refl

check_port-IsPort_example : (check_port (codes "8000" ++ 0 ∷ []) ≡ ok true) ↔ IsPort (codes "8000")
check_port-IsPort_example =
    check_port-IsPort (codes "8000") [] (are_nonzero-IsText (codes "8000") refl)

check_ip-IsHost_example :
    (check_ip (codes "127.0.0.1" ++ 0 ∷ []) ≡ ok true) ↔ IsHost (codes "127.0.0.1")
check_ip-IsHost_example =
    check_ip-IsHost (codes "127.0.0.1") [] (are_nonzero-IsText (codes "127.0.0.1") refl)

-- The port that is written is 73536; the one that is connected to is 8000.
conn_open-address_example :
    conn_open trickle small_network (local_host ++ b':' ∷ (print_nat 73536 ++ 0 ∷ [])) []
    ≡ ok (some (record { ip = some (local_host ++ 0 ∷ []); port = 8000; socketfd = 3 }), [])
conn_open-address_example =
    conn_open-address trickle small_network local_host 73536 1 3 true [] [] [] local_host-IsHost
      written-IsPort refl refl refl
