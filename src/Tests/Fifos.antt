-- ===== src/Tests/Fifos.antt =====
-- The handshake of common/commWithFIFOs.c over a FIFO that moves one byte at a time.
use os_tp.Database.Place.{message_ok}
use os_tp.Encoding.{int_bytes}
use os_tp.Comm.Frames.{frame}
use os_tp.Base.{◌≡◌, refl, true, [], ◌∷◌, ◌++◌, arith, Bytes, ok, pos, some}
use os_tp.Memory.Laws.{are_nonzero-IsText}
use os_tp.Decimal.{codes}
use os_tp.Fifos.{Files, send_fifo_paths, conn_accept}
use os_tp.Fifos.Handshake.{announcement, IsPath, send_fifo_paths-announces, conn_accept-announced}
use os_tp.Tests.Descriptors.{trickle, trickle_stream, trickle_sink}

abbrev fifo_files : Files Bytes
fifo_files = record {
  getpid = λ w. pos 12;
  mkfifo = λ path w. (true, w);
  open_read_now = λ path w. (4, w);
  open_write_now = λ path w. (5, w);
  open_write = λ path w. (6, w);
  set_blocking = λ fd w. (true, w);
  lock = λ fd w. (true, w);
  unlock = λ fd w. (true, w);
  close = λ fd w. w;
  remove = λ path w. w;
  select = λ waiting w. (pos 1, w);
}

abbrev out_path : Bytes
out_path = codes "/tmp/12-out"

abbrev in_path : Bytes
in_path = codes "/tmp/12-in"

out_path-IsPath : IsPath 20 out_path
out_path-IsPath =
    (are_nonzero-IsText out_path refl, ((λ e. cc), omega arith, omega arith, omega arith))

in_path-IsPath : IsPath 20 in_path
in_path-IsPath =
    (are_nonzero-IsText in_path refl, ((λ e. cc), omega arith, omega arith, omega arith))

send_fifo_paths-announces_example :
    (w' : Bytes) × (send_fifo_paths trickle fifo_files 20
        (λ i. 7)
        (out_path ++ 0 ∷ [])
        (in_path ++ 0 ∷ [])
        []
        []
      ≡ ok (true, w'))
    × (w' ≡ [] ++ announcement out_path in_path)
send_fifo_paths-announces_example =
    send_fifo_paths-announces trickle fifo_files 20 (λ i. 7) trickle_sink out_path in_path [] [] 5
      true [] [] [] [] out_path-IsPath in_path-IsPath refl refl refl refl refl

conn_accept-announced_example :
    (v : Bytes) × (w' : Bytes) × (v ≡ [])
    × (conn_accept trickle fifo_files 20
          (λ i. 7)
          (record { conn_requests_fd = 3 })
          (announcement out_path in_path ++ [])
        ≡ ok (
          some (record {
            out_fifo_path = in_path ++ 0 ∷ [];
            in_fifo_path = out_path ++ 0 ∷ [];
            out_fd = 6;
            in_fd = 4;
          }),
          w',
        ))
    × (w' ≡ [] ++ frame (int_bytes message_ok))
conn_accept-announced_example =
    conn_accept-announced trickle fifo_files 20 (λ i. 7) trickle_stream trickle_sink out_path
      in_path [] [] 3 (pos 1) (announcement out_path in_path ++ [])
      (announcement out_path in_path ++ []) out_path-IsPath in_path-IsPath (omega arith) refl refl
      refl (λ v held. held)
