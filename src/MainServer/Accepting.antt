-- ===== src/MainServer/Accepting.antt =====
-- The loop of main of server/mainServer.c, in the process that accepts and in those that it forks.
use os_tp.Base.{
  ℕ, zero, suc, ◌+◌, ◌<◌, ◌≡◌, refl, Bool, true, false, Option, none, some, List, [], ◌∷◌, arith,
  length, Bytes, ok, fault, ℤ, pos, negsuc, ltb_ℤ, bind-ok, ◌≢◌, ap, ◌∙◌, bind-eq-ok, Bool-cases,
  inl, sym, ok-injective, inr, if◌then◌else◌,
}
use os_tp.Base
use os_tp.Comm.{Transport}
use os_tp.Forked.{Ends}
use os_tp.Forked.Serve
use os_tp.Io.{Fate, returned, exited, Io}
use os_tp.Descriptors.{Posix}
use os_tp.Descriptors.Streams.{Sink}
use os_tp.Shared.{SharedConn, SharedMemory}
use os_tp.MainServer.{
  Processes, Started, start_db_server, create_forked_server, accept_loop, listen_and_accept,
  main_server,
}
use os_tp.MainServer.Stopping.{stop_db_server-fault}

module _ {World : Type 0} (Q : Processes World) {C : Type 0}
    (conn_accept : Io World (Option C)) where
  -- In the process that goes on, these connections are accepted one after the other, and for each of
  -- them `fork` is called, which may fail.
  pub data Accepts : World → List C → World → Type 0 where
    no_more : {w : World} → Accepts w [] w
    accepts :
        {w w1 w2 w3 : World} {c : C} {cs : List C} {pid : ℤ}
        → conn_accept w ≡ ok (some c, w1)
        → Q.fork w1 ≡ (pid, w2)
        → pid ≢ pos 0
        → Accepts w2 cs w3
        → Accepts w (c ∷ cs) w3

module _ (P : Posix) (M : SharedMemory (P.World)) (Q : Processes (P.World)) (rounds : ℕ)
    (junk : ℕ → ℕ) where
  open P use {World}

  not_failed : (n : ℕ) → ltb_ℤ (pos (suc n)) (pos 0) ≡ false
  not_failed n = ground arith

  is_parent : (n : ℕ) → ltb_ℤ (pos 0) (pos (suc n)) ≡ true
  is_parent n = ground arith

  failed : (n : ℕ) → ltb_ℤ (negsuc n) (pos 0) ≡ true
  failed n = ground arith

  create_forked_server-parent :
      {C : Type 0} (forked_server : C → Io World (Fate (Unit {0}))) (c : C) (pid : ℤ) (w w1 : World)
      → Q.fork w ≡ (pid, w1)
      → pid ≢ pos 0
      → (b : Bool) × (create_forked_server P M Q rounds junk forked_server c w
          ≡ ok (returned b, w1))
  unfolding create_forked_server
  create_forked_server-parent forked_server c (pos zero) w w1 forked parent = absurd (parent refl)
  create_forked_server-parent forked_server c (pos (suc n)) w w1 forked parent =
      (true, rw (forked, not_failed n, is_parent n) refl)
  create_forked_server-parent forked_server c (negsuc n) w w1 forked parent =
      (false, rw (forked, failed n) refl)

  accept_loop-parent :
      {C : Type 0} (turns more : ℕ) (conn_accept : Io World (Option C))
      (forked_server : C → Io World (Fate (Unit {0}))) (db_conn : Option SharedConn) (cs : List C)
      (w w' : World)
      → turns ≡ length cs + more
      → Accepts Q conn_accept w cs w'
      → accept_loop P M Q rounds junk turns conn_accept forked_server db_conn w
        ≡ accept_loop P M Q rounds junk more conn_accept forked_server db_conn w'
  unfolding accept_loop
  accept_loop-parent turns more conn_accept forked_server db_conn [] w w' e no_more =
      ap (λ n. accept_loop P M Q rounds junk n conn_accept forked_server db_conn w)
        (omega (arith, e))
  accept_loop-parent zero more conn_accept forked_server db_conn (c ∷ cs) w w' e
        (accepts accepted forked parent later) =
      absurd (omega (arith, e))
  accept_loop-parent (suc turns) more conn_accept forked_server db_conn (c ∷ cs) w w' e
        (accepts {w1 = w1} {w2 = w2} {pid = pid} accepted forked parent later) =
      let (b, ran) = create_forked_server-parent forked_server c pid w1 w2 forked parent in
      bind-ok _ accepted (
        bind-ok _ ran (
          accept_loop-parent turns more conn_accept forked_server db_conn cs w2 w'
            (omega (arith, e)) later))

  -- What `main` comes to once the database server runs and it listens.
  main_server-listens :
      {L C : Type 0} (turns : ℕ) (remove : World → World) (conn_listen : Io World (Option L))
      (conn_accept : L → Io World (Option C)) (forked_server : C → Io World (Fate (Unit {0})))
      (s : Started) (params : L) (w w1 w2 : World)
      → start_db_server P M Q rounds junk w ≡ ok (returned (some s), w1)
      → conn_listen (remove w1) ≡ ok (some params, w2)
      → main_server P M Q rounds junk turns remove conn_listen conn_accept forked_server w
        ≡ accept_loop P M Q rounds junk turns (conn_accept params) forked_server s.db_conn w2
  unfolding main_server listen_and_accept
  main_server-listens turns remove conn_listen conn_accept forked_server s params w w1 w2 started
        listens =
      bind-ok _ started (bind-ok _ listens refl)

  -- `forkedServer` does not return: it ends its process, if its loop ends.
  forked_server-exits :
      (transport : Transport) (ends : Ends) (conn_close : Io World Bool) (turns : ℕ)
      (end : Fate (Unit {0})) (w w' : World × Bool)
      → Serve.forked_server P rounds transport ends junk conn_close turns w ≡ ok (end, w')
      → end ≡ exited
  unfolding Serve.forked_server
  forked_server-exits transport ends conn_close zero end w w' ran = absurd (cc (ran))
  forked_server-exits transport ends conn_close (suc turns) end w w' ran =
      let (r, one, later) =
        bind-eq-ok (Serve.serve_request P rounds transport ends junk conn_close w)
          (λ r.
            if r.0
            then ok (exited, r.1)
            else Serve.forked_server P rounds transport ends junk conn_close turns r.1)
          ran in
      elim (Bool-cases (r.0)) [
        | inl done ↦
            sym
              (ap (λ (x : Fate (Unit {0}) × (World × Bool)). x.0) (ok-injective (rw done at later)))
        | inr goes ↦
            forked_server-exits transport ends conn_close turns end r.1 w' (rw goes at later)
      ]

  -- `forkedServer` on a connection with these descriptors, in the process that was forked for it and
  -- does not hold the mutex.
  unfoldable pub serving :
      {C : Type 0}
      → Transport
      → ℕ
      → (C → Ends)
      → (C → Io World Bool)
      → C
      → Io World (Fate (Unit {0}))
  serving transport turns ends conn_close c w =
      Base.◌>>=◌
        (Serve.forked_server P rounds transport (ends c) junk (conn_close c) turns (w, false))
        (λ r. ok (r.0, r.1.0))

  -- Once the database server is started and the main server listens, whatever connections it has
  -- accepted, and whether it could fork a server for each of them or not: in the process that it forks
  -- for the next connection, `forkedServer` serves just this one, and when its loop ends, the process
  -- ends, in the world that the serving leaves: it neither goes back to accept nor serves another.
  -- One round is enough for each connection.
  pub main_server-child :
      {L C : Type 0} (more turns : ℕ) (remove : World → World) (conn_listen : Io World (Option L))
      (conn_accept : L → Io World (Option C)) (transport : Transport) (ends : C → Ends)
      (conn_close : C → Io World Bool) (s : Started) (params : L) (cs : List C) (c : C)
      (end : Fate (Unit {0})) (held : Bool) (w w1 w2 w3 w4 w5 w6 : World)
      → start_db_server P M Q rounds junk w ≡ ok (returned (some s), w1)
      → conn_listen (remove w1) ≡ ok (some params, w2)
      → Accepts Q (conn_accept params) w2 cs w3
      → conn_accept params w3 ≡ ok (some c, w4)
      → Q.fork w4 ≡ (pos 0, w5)
      → Serve.forked_server P rounds transport (ends c) junk (conn_close c) turns (w5, false)
        ≡ ok (end, (w6, held))
      → main_server P M Q rounds junk
          (length cs + suc more)
          remove
          conn_listen
          conn_accept
          (serving transport turns ends conn_close)
          w
        ≡ ok (exited, w6)
  unfolding accept_loop create_forked_server serving
  main_server-child more turns remove conn_listen conn_accept transport ends conn_close s params cs
        c end held w w1 w2 w3 w4 w5 w6 started listens earlier accepted forked served =
      let served' =
        served
        ∙ ap (λ e. ok (e, (w6, held)))
            (forked_server-exits transport (ends c) (conn_close c) turns end (w5, false) (w6, held)
              served) in
      main_server-listens _ remove conn_listen conn_accept (serving transport turns ends conn_close)
        s params w w1 w2 started listens
      ∙ accept_loop-parent _ (suc more) (conn_accept params)
          (serving transport turns ends conn_close) s.db_conn cs w2 w3 refl earlier
      ∙ bind-ok _ accepted (rw (forked, served') refl)

  -- Once the database server is started and the main server listens, it goes on through any sequence
  -- of connections, whether it can fork a server for each of them or not, until one cannot be
  -- accepted; then it means to stop the database server and ends in a fault, where the mutex is given
  -- to it and the pipe takes MESSAGE_CLOSE. The rounds are enough for the message, and one is enough
  -- for each connection.
  pub main_server-fault :
      {L C : Type 0} (more : ℕ) (remove : World → World) (conn_listen : Io World (Option L))
      (conn_accept : L → Io World (Option C)) (forked_server : C → Io World (Fate (Unit {0})))
      (sink : Sink P) (conn : SharedConn) (db_pid : ℤ) (params : L) (cs : List C) (b : Bool)
      (written : Bytes) (w w1 w2 w3 w4 w5 : World)
      → 4 < rounds
      → start_db_server P M Q rounds junk w
        ≡ ok (returned (some (record { db_conn = some conn; db_pid = db_pid })), w1)
      → conn_listen (remove w1) ≡ ok (some params, w2)
      → Accepts Q (conn_accept params) w2 cs w3
      → conn_accept params w3 ≡ ok (none, w4)
      → M.mutex_lock w4 ≡ ok (b, w5)
      → sink.Wrote w5 conn.out_fd written
      → main_server P M Q rounds junk
          (length cs + suc more)
          remove
          conn_listen
          conn_accept
          forked_server
          w
        ≡ fault
  unfolding accept_loop
  main_server-fault more remove conn_listen conn_accept forked_server sink conn db_pid params cs b
        written w w1 w2 w3 w4 w5 enough started listens earlier refused locked wrote =
      main_server-listens _ remove conn_listen conn_accept forked_server _ params w w1 w2 started
        listens
      ∙ accept_loop-parent _ (suc more) (conn_accept params) forked_server (some conn) cs w2 w3 refl
          earlier
      ∙ bind-ok _ refused (
          rw (stop_db_server-fault P M Q rounds junk sink conn b written w4 w5 enough locked wrote)
            refl)
