-- ===== src/Fifos/Handshake.antt =====
-- How a client and the main server of common/commWithFIFOs.c agree on two FIFOs.
use os_tp.Base.{
  ℕ, ◌+◌, ◌<◌, ◌≡◌, ◌≢◌, refl, sym, ap, ◌∙◌, true, false, none, some, [], ◌∷◌, ◌++◌, append-nil,
  append_assoc, arith, Bytes, length, length-append, All-append, ok, ◌>>=◌, bind-ok, ℤ, eq_ℤ,
  negsuc, ◌==◌, Bool, subst, ◌||◌, lt→ltb,
}
use os_tp.Memory.{malloc, memcpy}
use os_tp.Memory.Laws.{
  IsText, length-malloc, memcpy-append, strlen-append, text_of-append, are_nonzero-IsText,
}
use os_tp.Decimal.{codes, print_int, count_digits}
use os_tp.Decimal.Laws.{count_digits-eq-length}
use os_tp.Decimal.Texts.{print_int-IsText}
use os_tp.Comm.Frames.{
  frame, IsMessage, read_size-delivers, of_size_bytes, conn_send-frame, int_bytes-IsMessage,
}
use os_tp.Descriptors.Streams.{Sink, Stream}
use os_tp.Descriptors.Read.{ensure_read-delivers}
use os_tp.Descriptors.Write.{ensure_write-accepts}
use os_tp.Encoding.Laws.{length-size_bytes}
use os_tp.Descriptors.Select.{fd_set, timeout_of, select_wrapper, Waiting}
use os_tp.Fifos.{
  Files, print_in, fifo_path, base_path, Posix, send_path, receive_path, size_bytes,
  send_fifo_paths, Waiting, conn_accept, select_wrapper, minus_one, open_accepted, int_bytes,
  message_ok,
}

pub print_in-whole :
    (junk : ℕ → ℕ) (size : ℕ) (text : Bytes)
    → size ≡ length text + 1
    → print_in junk size text ≡ ok (text ++ 0 ∷ [])
unfolding print_in
print_in-whole junk size text e =
    ap (λ b. memcpy b 0 (text ++ 0 ∷ [])) (sym (append-nil (malloc junk size)))
    ∙ memcpy-append [] (malloc junk size) (text ++ 0 ∷ []) []
        (omega (arith, e, length-malloc junk size, length-append text (0 ∷ [])))
    ∙ ap ok (append-nil (text ++ 0 ∷ []))

slash_tmp-IsText : IsText (codes "/tmp/")
slash_tmp-IsText = are_nonzero-IsText (codes "/tmp/") refl

-- The path of the FIFO of a process with this ending.
abbrev pub process_path : ℤ → Bytes → Bytes
process_path pid ending = (codes "/tmp/" ++ print_int pid) ++ ending

base_path-whole :
    (junk : ℕ → ℕ) (pid : ℤ) → base_path junk pid ≡ ok ((codes "/tmp/" ++ print_int pid) ++ 0 ∷ [])
unfolding base_path
base_path-whole junk pid =
    print_in-whole junk (5 + count_digits pid + 1) (codes "/tmp/" ++ print_int pid)
      (omega (arith, count_digits-eq-length pid))

-- The paths that `conn_open` prints for the process with any number, "/tmp/" and the number and the
-- ending that it asks for, fill their blocks just to the end: neither of the two prints leaves its
-- block, and both are terminated.
pub fifo_path-process_path :
    (junk : ℕ → ℕ) (pid : ℤ) (ending : Bytes)
    → (base_path junk pid >>= (λ base. fifo_path junk base ending))
      ≡ ok (process_path pid ending ++ 0 ∷ [])
unfolding fifo_path
fifo_path-process_path junk pid ending =
    let base = codes "/tmp/" ++ print_int pid in
    let is_text : IsText base =
      All-append (λ c. c ≢ 0) (codes "/tmp/") (print_int pid) slash_tmp-IsText
        (print_int-IsText pid) in
    bind-ok _ (base_path-whole junk pid) (
      bind-ok _ (text_of-append base [] is_text) (
        print_in-whole junk (length base + length ending + 1) (base ++ ending)
          (omega (arith, length-append base ending))))

-- What a client writes to the main server's FIFO.
abbrev pub announcement : Bytes → Bytes → Bytes
announcement out_path in_path = frame (out_path ++ 0 ∷ []) ++ frame (in_path ++ 0 ∷ [])

-- A path that the rounds suffice for.
abbrev pub IsPath : ℕ → Bytes → Type 0
IsPath rounds path = IsText path × IsMessage rounds (path ++ 0 ∷ [])

module _ (P : Posix) (sink : Sink P) (rounds : ℕ) where
  open P use {World}
  open sink use {Wrote}

  send_path-frame :
      (path s : Bytes) (fd : ℕ) (w : World)
      → IsPath rounds path
      → Wrote w fd s
      → (w' : World) × (send_path P rounds (path ++ 0 ∷ []) fd w ≡ ok (true, w'))
        × Wrote w' fd (s ++ frame (path ++ 0 ∷ []))
  unfolding send_path
  send_path-frame path s fd w h wrote =
      let p = path ++ 0 ∷ [] in
      let size : length path + 1 ≡ length p = omega (arith, length-append path (0 ∷ [])) in
      let (w1, ran1, wrote1) =
        ensure_write-accepts P sink rounds fd (size_bytes (length p)) s w
          (omega (arith, length-size_bytes (length p), h.1.3))
          (omega (arith, length-size_bytes (length p))) wrote in
      let (w2, ran2, wrote2) = ensure_write-accepts P sink rounds fd p _ w1 h.1.1 h.1.2 wrote1 in
      (
        w2,
        rw (strlen-append path [] h.0, size, ran1, ran2) refl,
        subst (Wrote w2 fd) (append_assoc s (size_bytes (length p)) p) wrote2,
      )

module _ (P : Posix) (stream : Stream P) (rounds : ℕ) where
  open P use {World}
  open stream use {Holds}

  receive_path-frame :
      (p rest : Bytes) (fd : ℕ) (w : World)
      → IsMessage rounds p
      → Holds w fd (frame p ++ rest)
      → (w' : World) × (receive_path P rounds fd w ≡ ok (some p, w')) × Holds w' fd rest
  unfolding receive_path
  receive_path-frame p rest fd w h held =
      let (w1, ran1, held1) = read_size-delivers P stream rounds fd p rest w h held in
      let (w2, ran2, held2) = ensure_read-delivers P stream rounds fd p rest w1 h.1 h.2 held1 in
      (
        w2,
        bind-ok _ ran1 (rw (of_size_bytes (length p) (omega (arith, h.2))) (bind-ok _ ran2 refl)),
        held2,
      )

module _ (P : Posix) (F : Files (P.World)) (rounds : ℕ) (junk : ℕ → ℕ) where
  open P use {World}

  -- A client that can open the main server's FIFO and lock it announces its two FIFOs there:
  -- `sendFIFOPaths` writes the path that the client will write to and then the one that it reads
  -- from, each as its length and its bytes with the terminator, unlocks the FIFO and closes it. The
  -- rounds are enough for the longer path.
  pub send_fifo_paths-announces :
      (sink : Sink P) (out_path in_path main_server_fifo s : Bytes) (fd : ℕ) (b : Bool)
      (w w1 w2 w3 : World)
      → IsPath rounds out_path
      → IsPath rounds in_path
      → F.open_write_now main_server_fifo w ≡ (fd, w1)
      → (fd == minus_one) ≡ false
      → F.set_blocking fd w1 ≡ (b, w2)
      → F.lock fd w2 ≡ (true, w3)
      → sink.Wrote w3 fd s
      → (w' : World) × (send_fifo_paths P F rounds junk
            (out_path ++ 0 ∷ [])
            (in_path ++ 0 ∷ [])
            main_server_fifo
            w
          ≡ ok (true, F.close fd (F.unlock fd w').1))
        × sink.Wrote w' fd (s ++ announcement out_path in_path)
  unfolding send_fifo_paths
  send_fifo_paths-announces sink out_path in_path main_server_fifo s fd b w w1 w2 w3 ho hi opened
        valid set locked wrote =
      let (w4, ran4, wrote4) = send_path-frame P sink rounds out_path s fd w3 ho wrote in
      let (w5, ran5, wrote5) = send_path-frame P sink rounds in_path _ fd w4 hi wrote4 in
      (
        w5,
        rw (opened, valid, set, locked, ran4, ran5) refl,
        subst (sink.Wrote w5 fd)
            (append_assoc s (frame (out_path ++ 0 ∷ [])) (frame (in_path ++ 0 ∷ []))) wrote5,
      )

  -- What `conn_accept` waits for, without an end.
  abbrev pub request_on : ℕ → Waiting
  request_on fd = record {
    max_fd = fd + 1;
    read_set = some (λ n. n == fd || false);
    write_set = none;
    err_set = none;
    timeout = none;
  }

  -- The FIFO that the client writes to, opened to read from, and then the one that it reads from,
  -- opened to write to: their descriptors, and the world then.
  abbrev pub reading_end : Bytes → World → ℕ × World
  reading_end out_path w = F.open_read_now (out_path ++ 0 ∷ []) w

  abbrev pub writing_end : Bytes → Bytes → World → ℕ × World
  writing_end out_path in_path w =
      let r = reading_end out_path w in F.open_write (in_path ++ 0 ∷ []) (F.set_blocking r.0 r.1).1

  -- The server's FIFOs are the client's the other way round: once `select` lets it, `conn_accept`
  -- takes one announcement from the FIFO and leaves those behind it, opens the path that the client
  -- writes to for reading and the one that the client reads from for writing, writes MESSAGE_OK to
  -- the latter and nothing else, and returns the connection with these paths and descriptors. The
  -- descriptor fits an `fd_set`, the FIFO that is opened for writing takes bytes, and the rounds are
  -- enough for the longer path.
  pub conn_accept-announced :
      (stream : Stream P) (sink : Sink P) (out_path in_path rest s : Bytes) (fd : ℕ) (selected : ℤ)
      (w w1 : World)
      → IsPath rounds out_path
      → IsPath rounds in_path
      → fd < 1024
      → F.select (request_on fd) w ≡ (selected, w1)
      → eq_ℤ selected (negsuc 0) ≡ false
      → stream.Holds w1 fd (announcement out_path in_path ++ rest)
      → ((v : World)
          → stream.Holds v fd rest
          → sink.Wrote (writing_end out_path in_path v).1 (writing_end out_path in_path v).0 s)
      → (v : World) × (w' : World) × stream.Holds v fd rest
        × (conn_accept P F rounds junk (record { conn_requests_fd = fd }) w
            ≡ ok (
              some (record {
                out_fifo_path = in_path ++ 0 ∷ [];
                in_fifo_path = out_path ++ 0 ∷ [];
                out_fd = (writing_end out_path in_path v).0;
                in_fd = (reading_end out_path v).0;
              }),
              w',
            ))
        × sink.Wrote w' (writing_end out_path in_path v).0 (s ++ frame (int_bytes message_ok))
  unfolding conn_accept select_wrapper fd_set timeout_of open_accepted
  conn_accept-announced stream sink out_path in_path rest s fd selected w w1 ho hi small waited good
        held takes =
      let (w2, ran2, held2) =
        receive_path-frame P stream rounds (out_path ++ 0 ∷ []) (frame (in_path ++ 0 ∷ []) ++ rest)
          fd w1 ho.1
          (subst (stream.Holds w1 fd)
            (append_assoc (frame (out_path ++ 0 ∷ [])) (frame (in_path ++ 0 ∷ [])) rest) held) in
      let (v, ran3, held3) =
        receive_path-frame P stream rounds (in_path ++ 0 ∷ []) rest fd w2 hi.1 held2 in
      let (w', sent, wrote) =
        conn_send-frame P sink rounds (writing_end out_path in_path v).0 (int_bytes message_ok) s
          (writing_end out_path in_path v).1 (int_bytes-IsMessage rounds message_ok hi.1.3)
          (takes v held3) in
      (v, w', held3, rw (lt→ltb fd 1024 small, waited, good, ran2, ran3, sent) refl, wrote)
