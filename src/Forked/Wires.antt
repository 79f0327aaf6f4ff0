-- ===== src/Forked/Wires.antt =====
-- The four descriptors of a forked server, and what one step does to them.
use os_tp.Base.{ℕ, ◌<◌, ◌≡◌, refl, ap, ◌∙◌, Bool, true, ◌++◌, Bytes, length, ok, bind-ok, ◌^◌}
use os_tp.Io.{Io}
use os_tp.Descriptors.{Posix, ensure_read, ensure_write}
use os_tp.Descriptors.Channel.{Links, channel_of, receives, sends, reading, writing}
use os_tp.Comm.{Transport, conn_receive, conn_send}
use os_tp.Comm.Frames.{IsMessage, frame, whole, conn_receive-frame, conn_send-frame}
use os_tp.Forked.{Ends, on_descriptors, send_client}

-- `State w client_coming client_gone db_coming db_gone`: of each connection, what is on its way to
-- this server and what it has written. What comes from the database server is what it will have
-- replied; a read waits for it.
pub record Wires (P : Posix) (ends : Ends) : Type 1 where
  pub State : P.World → Bytes → Bytes → Bytes → Bytes → Type 0
  pub client :
      (coming gone : Bytes)
      → Links P ends.client_in ends.client_out (λ w c g. State w c g coming gone)
  pub db : (coming gone : Bytes) → Links P ends.db_in ends.db_out (λ w c g. State w coming gone c g)

on_descriptors-ok {ℓ} :
    {W : Type 0} {A : Type ℓ} (m : Io W A) {a : A} {w w' : W} (held : Bool)
    → m w ≡ ok (a, w')
    → on_descriptors m (w, held) ≡ ok (a, (w', held))
unfolding on_descriptors
on_descriptors-ok m held e = rw e refl

module _ (P : Posix) (rounds : ℕ) (transport : Transport) (ends : Ends) (wires : Wires P ends) where
  open wires use {State}

  pub db_receives :
      (x rest cc cg dg : Bytes) (n : ℕ) (w : P.World) (held : Bool)
      → n ≡ length x
      → length x < rounds
      → length x < 2 ^ 31
      → State w cc cg (x ++ rest) dg
      → (w' : P.World) × (on_descriptors (ensure_read P rounds n ends.db_in) (w, held)
          ≡ ok ((true, x), (w', held)))
        × State w' cc cg rest dg
  db_receives x rest cc cg dg n w held size enough small here =
      let (w', ran, here') =
        receives P ends.db_in ends.db_out (channel_of (λ w c g. State w cc cg c g) (wires.db cc cg))
          rounds x rest dg w enough small here in
      (
        w',
        on_descriptors-ok (ensure_read P rounds n ends.db_in) held
            (ap (λ k. ensure_read P rounds k ends.db_in w) size ∙ ran),
        here',
      )

  pub db_sends :
      (x cc cg dc dg : Bytes) (w : P.World) (held : Bool)
      → length x < rounds
      → length x < 2 ^ 31
      → State w cc cg dc dg
      → (w' : P.World) × (on_descriptors (ensure_write P rounds x ends.db_out) (w, held)
          ≡ ok (true, (w', held)))
        × State w' cc cg dc (dg ++ x)
  db_sends x cc cg dc dg w held enough small here =
      let (w', ran, here') =
        sends P ends.db_in ends.db_out (channel_of (λ w c g. State w cc cg c g) (wires.db cc cg))
          rounds x dc dg w enough small here in
      (w', on_descriptors-ok (ensure_write P rounds x ends.db_out) held ran, here')

  pub client_receives :
      (m rest cg dc dg : Bytes) (w : P.World) (held : Bool)
      → IsMessage rounds m
      → State w (frame m ++ rest) cg dc dg
      → (w' : P.World) × (on_descriptors (conn_receive P rounds transport ends.client_in) (w, held)
          ≡ ok (whole m, (w', held)))
        × State w' rest cg dc dg
  client_receives m rest cg dc dg w held h here =
      let (w', ran, here') =
        conn_receive-frame P
          (reading P ends.client_in ends.client_out
            (channel_of (λ w c g. State w c g dc dg) (wires.client dc dg)) cg)
          rounds transport ends.client_in m rest w h (refl, here) in
      (w', on_descriptors-ok (conn_receive P rounds transport ends.client_in) held ran, here'.1)

  pub client_sends :
      (m cc cg dc dg : Bytes) (w : P.World) (held : Bool)
      → IsMessage rounds m
      → State w cc cg dc dg
      → (w' : P.World) × (send_client P rounds transport ends m (w, held) ≡ ok (tt, (w', held)))
        × State w' cc (cg ++ frame m) dc dg
  unfolding send_client
  client_sends m cc cg dc dg w held h here =
      let (w', ran, here') =
        conn_send-frame P
          (writing P ends.client_in ends.client_out
            (channel_of (λ w c g. State w c g dc dg) (wires.client dc dg)) cc)
          rounds ends.client_out m cg w h (refl, here) in
      (
        w',
        bind-ok _ (on_descriptors-ok (conn_send P rounds ends.client_out m) held ran) refl,
        here'.1,
      )
