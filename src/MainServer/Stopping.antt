-- ===== src/MainServer/Stopping.antt =====
-- How server/mainServer.c stops the database server.
use os_tp.Base.{ℕ, ◌<◌, ◌≡◌, refl, true, Bool, some, Bytes, arith, ok, fault}
use os_tp.Encoding.{int_bytes}
use os_tp.Encoding.Laws.{length-int_bytes}
use os_tp.Descriptors.{Posix}
use os_tp.Descriptors.Streams.{Sink}
use os_tp.Descriptors.Write.{ensure_write-accepts}
use os_tp.Comm.{message_close}
use os_tp.Shared.{
  SharedConn, SharedMemory, map_failed, write_fields, sh_conn_create, sh_conn_destroy, sh_conn_lock,
  sh_conn_get_out_fd,
}
use os_tp.MainServer.{Processes, stop_db_server}

-- `mmap` says by MAP_FAILED that it failed, and `sh_conn_create` then writes through it.
pub sh_conn_create-fault :
    {World : Type 0} (M : SharedMemory World) (out_fd in_fd fd : ℕ) (w w1 w2 w3 : World)
    → M.shm_open w ≡ (some fd, w1)
    → M.ftruncate fd w1 ≡ (true, w2)
    → M.mmap fd w2 ≡ (map_failed, w3)
    → sh_conn_create M out_fd in_fd w ≡ fault
unfolding sh_conn_create write_fields
sh_conn_create-fault M out_fd in_fd fd w w1 w2 w3 opened sized failed =
    rw (opened, sized, failed) refl

-- `stopDBServer` never ends well where it succeeds: once it holds the mutex and has sent
-- MESSAGE_CLOSE to the database server, it sets its pointer to the shared connection to NULL and
-- then destroys the connection through it. The rounds are enough for the message.
pub stop_db_server-fault :
    (P : Posix) (M : SharedMemory (P.World)) (Q : Processes (P.World)) (rounds : ℕ) (junk : ℕ → ℕ)
    (sink : Sink P) (conn : SharedConn) (b : Bool) (s : Bytes) (w w1 : P.World)
    → 4 < rounds
    → M.mutex_lock w ≡ ok (b, w1)
    → sink.Wrote w1 conn.out_fd s
    → stop_db_server P M Q rounds junk (some conn) w ≡ fault
unfolding stop_db_server sh_conn_lock sh_conn_get_out_fd sh_conn_destroy
stop_db_server-fault P M Q rounds junk sink conn b s w w1 enough locked wrote =
    let (w2, ran, wrote2) =
      ensure_write-accepts P sink rounds conn.out_fd (int_bytes message_close) s w1
        (omega (arith, length-int_bytes message_close))
        (omega (arith, length-int_bytes message_close)) wrote in
    rw (locked, ran) refl
