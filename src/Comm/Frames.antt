-- ===== src/Comm/Frames.antt =====
-- Messages arrive as they were sent, one by one and in order, over either kind of connection.
use os_tp.Base.{
  ℕ, zero, suc, ◌^◌, ◌<◌, ◌≡◌, ◌≢◌, refl, subst, Bool, true, false, some, List, [], ◌∷◌, ◌++◌,
  append-nil, append_assoc, arith, Bytes, length, All, ok, bind-ok, ◌==◌, if◌then◌else◌, ℤ, ap,
}
use os_tp.Io.{Io, ◌>>=◌, pure}
use os_tp.Encoding.{int_bytes, size_bytes, of_bytes}
use os_tp.Encoding.Laws.{length-int_bytes, length-size_bytes, of_bytes-to_bytes}
use os_tp.Descriptors.{Posix, ensure_read, ensure_write}
use os_tp.Descriptors.Streams.{Stream, Sink}
use os_tp.Descriptors.Read.{ensure_read-delivers}
use os_tp.Descriptors.Write.{ensure_write-accepts}
use os_tp.Comm.{Received, conn_send, Transport, sockets, fifos, conn_receive, used}

-- How a message that is not empty travels.
abbrev pub frame : Bytes → Bytes
frame message = size_bytes (length message) ++ message

abbrev pub frames : List Bytes → Bytes
frames [] = []
frames (m ∷ ms) = frame m ++ frames ms

-- A message that an `int` can count, with rounds enough to send it a byte at a time.
abbrev pub IsMessage : ℕ → Bytes → Type 0
IsMessage rounds m = (m ≢ []) × (length m < rounds) × (length m < 2 ^ 31) × (8 < rounds)

pub int_bytes-IsMessage : (rounds : ℕ) (z : ℤ) → 8 < rounds → IsMessage rounds (int_bytes z)
int_bytes-IsMessage rounds z h = (
  (λ e. omega (arith, length-int_bytes z, ap length e)),
  omega (arith, length-int_bytes z),
  omega (arith, length-int_bytes z),
  h,
)

pub of_size_bytes : (n : ℕ) → n < 2 ^ 64 → of_bytes (size_bytes n) ≡ n
unfolding size_bytes
of_size_bytes n h = of_bytes-to_bytes 8 n (omega arith)

-- The messages of a list, sent or received one after the other; the flag says that each call
-- returned 1.
module _ (P : Posix) (rounds : ℕ) where
  open P use {World}

  unfoldable pub send_all : ℕ → List Bytes → Io World Bool
  send_all fd [] = pure true
  send_all fd (m ∷ ms) = do
    sent ← conn_send P rounds fd m
    rest ← send_all fd ms
    pure (if sent then rest else false)

  unfoldable pub receive_all : Transport → ℕ → ℕ → Io World (List Received)
  receive_all transport fd zero = pure []
  receive_all transport fd (suc n) = do
    m ← conn_receive P rounds transport fd
    ms ← receive_all transport fd n
    pure (m ∷ ms)

-- A message that came whole.
abbrev pub whole : Bytes → Received
whole m = record { success = true; content = some m }

abbrev pub wholes : List Bytes → List Received
wholes [] = []
wholes (m ∷ ms) = whole m ∷ wholes ms

pub used-whole : (m : Bytes) → used (whole m) ≡ ok m
unfolding used
used-whole m = refl

module _ (P : Posix) (stream : Stream P) (rounds : ℕ) where
  open P use {World}
  open stream use {Holds}

  -- The length first.
  pub read_size-delivers :
      (fd : ℕ) (m rest : Bytes) (w : World)
      → IsMessage rounds m
      → Holds w fd (frame m ++ rest)
      → (w' : World) × (ensure_read P rounds 8 fd w ≡ ok ((true, size_bytes (length m)), w'))
        × Holds w' fd (m ++ rest)
  read_size-delivers fd m rest w h held =
      let (w', ran, left) =
        ensure_read-delivers P stream rounds fd (size_bytes (length m)) (m ++ rest) w
          (omega (arith, length-size_bytes (length m), h.3))
          (omega (arith, length-size_bytes (length m)))
          (subst (Holds w fd) (append_assoc (size_bytes (length m)) m rest) held) in
      (w', rw (length-size_bytes (length m)) at ran, left)

  pub conn_receive-frame :
      (transport : Transport) (fd : ℕ) (m rest : Bytes) (w : World)
      → IsMessage rounds m
      → Holds w fd (frame m ++ rest)
      → (w' : World) × (conn_receive P rounds transport fd w ≡ ok (whole m, w')) × Holds w' fd rest
  unfolding conn_receive
  conn_receive-frame sockets fd m rest w h held =
      let (w1, ran1, held1) = read_size-delivers fd m rest w h held in
      let (w2, ran2, held2) = ensure_read-delivers P stream rounds fd m rest w1 h.1 h.2 held1 in
      (
        w2,
        bind-ok _ ran1 (rw (of_size_bytes (length m) (omega (arith, h.2))) (bind-ok _ ran2 refl)),
        held2,
      )
  conn_receive-frame fifos fd m rest w h held =
      let (w1, ran1, held1) = read_size-delivers fd m rest w h held in
      let (w2, ran2, held2) = ensure_read-delivers P stream rounds fd m rest w1 h.1 h.2 held1 in
      (
        w2,
        bind-ok _ ran1 (rw (of_size_bytes (length m) (omega (arith, h.2))) (bind-ok _ ran2 refl)),
        held2,
      )

  -- Over sockets and over FIFOs, as many calls of `conn_receive` as there are messages in a
  -- connection return those messages whole, in the order in which they were sent, each with the
  -- result 1, and leave what lies behind them. No message is empty or has 2 ^ 31 bytes, and the
  -- rounds are enough for the longest of them.
  pub receive_all-frames :
      (transport : Transport) (fd : ℕ) (ms : List Bytes) (rest : Bytes) (w : World)
      → All (IsMessage rounds) ms
      → Holds w fd (frames ms ++ rest)
      → (w' : World) × (receive_all P rounds transport fd (length ms) w ≡ ok (wholes ms, w'))
        × Holds w' fd rest
  unfolding receive_all
  receive_all-frames transport fd [] rest w h held = (w, refl, held)
  receive_all-frames transport fd (m ∷ ms) rest w h held =
      let (w1, ran1, held1) =
        conn_receive-frame transport fd m (frames ms ++ rest) w h.0
          (subst (Holds w fd) (append_assoc (frame m) (frames ms) rest) held) in
      let (w2, ran2, held2) = receive_all-frames transport fd ms rest w1 h.1 held1 in
      (w2, bind-ok _ ran1 (bind-ok _ ran2 refl), held2)

conn_send-some :
    (P : Posix) (rounds fd : ℕ) (m : Bytes) (w w1 w2 : P.World)
    → m ≢ []
    → ensure_write P rounds (size_bytes (length m)) fd w ≡ ok (true, w1)
    → ensure_write P rounds m fd w1 ≡ ok (true, w2)
    → conn_send P rounds fd m w ≡ ok (true, w2)
unfolding conn_send
conn_send-some P rounds fd [] w w1 w2 ne size_sent sent = absurd (ne refl)
conn_send-some P rounds fd (c ∷ m) w w1 w2 ne size_sent sent =
    rw not_empty (bind-ok _ size_sent sent)
  where
    not_empty : (suc (length m) == 0) ≡ false
    not_empty = ground arith

module _ (P : Posix) (sink : Sink P) (rounds : ℕ) where
  open P use {World}
  open sink use {Wrote}

  pub conn_send-frame :
      (fd : ℕ) (m s : Bytes) (w : World)
      → IsMessage rounds m
      → Wrote w fd s
      → (w' : World) × (conn_send P rounds fd m w ≡ ok (true, w')) × Wrote w' fd (s ++ frame m)
  conn_send-frame fd m s w h wrote =
      let (w1, ran1, wrote1) =
        ensure_write-accepts P sink rounds fd (size_bytes (length m)) s w
          (omega (arith, length-size_bytes (length m), h.3))
          (omega (arith, length-size_bytes (length m))) wrote in
      let (w2, ran2, wrote2) = ensure_write-accepts P sink rounds fd m _ w1 h.1 h.2 wrote1 in
      (
        w2,
        conn_send-some P rounds fd m w w1 w2 h.0 ran1 ran2,
        subst (Wrote w2 fd) (append_assoc s (size_bytes (length m)) m) wrote2,
      )

  -- `conn_send` of each message in turn returns 1 each time, and puts the messages behind what was
  -- written before as `conn_receive` expects them: each its length and its bytes. No message is
  -- empty or has 2 ^ 31 bytes, and the rounds are enough for the longest of them.
  pub send_all-frames :
      (fd : ℕ) (ms : List Bytes) (s : Bytes) (w : World)
      → All (IsMessage rounds) ms
      → Wrote w fd s
      → (w' : World) × (send_all P rounds fd ms w ≡ ok (true, w')) × Wrote w' fd (s ++ frames ms)
  unfolding send_all
  send_all-frames fd [] s w h wrote = (w, refl, rw append-nil wrote)
  send_all-frames fd (m ∷ ms) s w h wrote =
      let (w1, ran1, wrote1) = conn_send-frame fd m s w h.0 wrote in
      let (w2, ran2, wrote2) = send_all-frames fd ms (s ++ frame m) w1 h.1 wrote1 in
      (
        w2,
        bind-ok _ ran1 (bind-ok _ ran2 refl),
        subst (Wrote w2 fd) (append_assoc s (frame m) (frames ms)) wrote2,
      )

-- An empty message is not sent at all, and yet reported as sent: whoever waits for it still waits
-- for a message.
pub conn_send-nil :
    (P : Posix) (rounds fd : ℕ) (w : P.World) → conn_send P rounds fd [] w ≡ ok (true, w)
unfolding conn_send
conn_send-nil P rounds fd w = refl
