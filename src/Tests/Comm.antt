-- ===== src/Tests/Comm.antt =====
-- Messages of common/commWithSockets.c and common/commWithFIFOs.c over a pipe that moves one byte at
-- a time.
use os_tp.Base.{◌≡◌, refl, true, List, [], ◌∷◌, ◌++◌, arith, Bytes, ok, All}
use os_tp.Comm.{fifos}
use os_tp.Comm.Frames.{
  frames, send_all, receive_all, wholes, receive_all-frames, send_all-frames, IsMessage,
}
use os_tp.Tests.Descriptors.{trickle, trickle_stream, trickle_sink}

abbrev greetings : List Bytes
greetings = (7 ∷ 8 ∷ []) ∷ (9 ∷ []) ∷ []

greetings-IsMessage : All (IsMessage 20) greetings
greetings-IsMessage = (
  ((λ e. cc), omega arith, omega arith, omega arith),
  (((λ e. cc), omega arith, omega arith, omega arith), tt),
)

receive_all-frames_example :
    (w' : Bytes) × (receive_all trickle 20 fifos 0 2 (frames greetings ++ 5 ∷ [])
      ≡ ok (wholes greetings, w'))
    × (w' ≡ 5 ∷ [])
receive_all-frames_example =
    receive_all-frames trickle trickle_stream 20 fifos 0 greetings (5 ∷ [])
      (frames greetings ++ 5 ∷ []) greetings-IsMessage refl

send_all-frames_example :
    (w' : Bytes) × (send_all trickle 20 0 greetings (1 ∷ []) ≡ ok (true, w'))
    × (w' ≡ (1 ∷ []) ++ frames greetings)
send_all-frames_example =
    send_all-frames trickle trickle_sink 20 0 greetings (1 ∷ []) (1 ∷ []) greetings-IsMessage refl
