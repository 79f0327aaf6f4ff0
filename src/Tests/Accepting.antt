-- ===== src/Tests/Accepting.antt =====
-- The main server over a world of bytes: accepting takes the next byte, if there is one, and
-- `fork` takes the next byte and returns it.
use os_tp.Base.{
  ℕ, ◌+◌, ◌≡◌, refl, Option, none, some, [], ◌∷◌, Bytes, arith, ok, fault, pos, true, Bool, false,
  int_count, of_word, to_word,
}
use os_tp.Memory.{read_block}
use os_tp.Comm.{used, fifos, message_close, conn_receive}
use os_tp.Comm.Frames.{frame}
use os_tp.Encoding.{int_bytes, size_bytes, to_bytes, of_bytes, read_int, int_of_bytes}
use os_tp.Forked.{Ends, on_descriptors}
use os_tp.Forked.Serve
use os_tp.Descriptors.{ensure_read, read_loop}
use os_tp.Io.{Io, returned, exited}
use os_tp.MainServer.{Processes, Started, share_and_fork, start_db_server, main_server}
use os_tp.MainServer.Accepting.{no_more, accepts, serving, main_server-child, main_server-fault}
use os_tp.Shared.{SharedConn, SharedMemory, mapped, sh_conn_create, write_fields}
use os_tp.Tests.Descriptors.{trickle, trickle_sink}

abbrev memory : SharedMemory Bytes
memory = record {
  shm_open = λ w. (some 9, w);
  ftruncate = λ fd w. (true, w);
  mmap = λ fd w. (mapped, w);
  mutex_init = λ w. w;
  mutex_lock = λ w. ok (true, w);
  close = λ fd w. (true, w);
  shm_unlink = λ w. (true, w);
}

abbrev forking : Processes Bytes
forking = record {
  pipe = λ w. (some (4, 5), w);
  fork = λ w. elim w [ [] ↦ (pos 0, []) | n ∷ rest ↦ (pos n, rest) ];
  execve = λ args w. (true, w);
  kill_main = λ w. w;
}

abbrev accepting : ℕ → Io Bytes (Option ℕ)
accepting params [] = ok (none, [])
accepting params (c ∷ rest) = ok (some c, rest)

abbrev listening : Io Bytes (Option ℕ)
listening w = ok (some 3, w)

abbrev closing : ℕ → Io Bytes Bool
closing c w = ok (true, w)

abbrev ends_of : ℕ → Ends
ends_of c = record { client_in = c; client_out = c; db_in = 4; db_out = 5 }

abbrev shared : SharedConn
shared = record { out_fd = 5; in_fd = 4 }

abbrev started : ℕ → Started
started pid = record { db_conn = some shared; db_pid = pos pid }

-- The process numbers, the connections, and what the last of the clients sends.
abbrev leaving : Bytes
leaving = frame (int_bytes message_close)

starts_5 :
    start_db_server trickle memory forking 20 (λ i. 7) (5 ∷ 9 ∷ 6 ∷ 7 ∷ 0 ∷ leaving)
    ≡ ok (returned (some (started 5)), 9 ∷ 6 ∷ 7 ∷ 0 ∷ leaving)
unfolding start_db_server share_and_fork sh_conn_create write_fields
starts_5 = refl

starts_9 :
    start_db_server trickle memory forking 20 (λ i. 7) (9 ∷ 3 ∷ 1 ∷ [])
    ≡ ok (returned (some (started 9)), 3 ∷ 1 ∷ [])
unfolding start_db_server share_and_fork sh_conn_create write_fields
starts_9 = refl

serves_7 :
    Serve.forked_server trickle 20 fifos (ends_of 7) (λ i. 7) (closing 7) 2 (leaving, false)
    ≡ ok (exited, ([], false))
unfolding Serve.forked_server conn_receive ensure_read read_loop on_descriptors int_count of_word
    size_bytes to_bytes of_bytes int_bytes used read_int read_block int_of_bytes to_word
serves_7 = refl

main_server-child_example :
    main_server trickle memory forking 20
      (λ i. 7)
      (1 + 1)
      (λ w. w)
      listening
      accepting
      (serving trickle memory forking 20 (λ i. 7) fifos 2 ends_of closing)
      (5 ∷ 9 ∷ 6 ∷ 7 ∷ 0 ∷ leaving)
    ≡ ok (exited, [])
main_server-child_example =
    main_server-child trickle memory forking 20 (λ i. 7) 0 2 (λ w. w) listening accepting fifos
      ends_of closing (started 5) 3 (9 ∷ []) 7 exited false (5 ∷ 9 ∷ 6 ∷ 7 ∷ 0 ∷ leaving)
      (9 ∷ 6 ∷ 7 ∷ 0 ∷ leaving) (9 ∷ 6 ∷ 7 ∷ 0 ∷ leaving) (7 ∷ 0 ∷ leaving) (0 ∷ leaving) leaving []
      starts_5 refl (accepts refl refl (λ e. cc) no_more) refl refl serves_7

main_server-fault_example :
    main_server trickle memory forking 20
      (λ i. 7)
      (1 + 1)
      (λ w. w)
      listening
      accepting
      (serving trickle memory forking 20 (λ i. 7) fifos 2 ends_of closing)
      (9 ∷ 3 ∷ 1 ∷ [])
    ≡ fault
main_server-fault_example =
    main_server-fault trickle memory forking 20 (λ i. 7) 0 (λ w. w) listening accepting
      (serving trickle memory forking 20 (λ i. 7) fifos 2 ends_of closing) trickle_sink shared
      (pos 9) 3 (3 ∷ []) true [] (9 ∷ 3 ∷ 1 ∷ []) (3 ∷ 1 ∷ []) (3 ∷ 1 ∷ []) [] [] [] (omega arith)
      starts_9 refl (accepts refl refl (λ e. cc) no_more) refl refl refl
