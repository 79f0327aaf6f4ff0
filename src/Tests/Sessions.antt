-- ===== src/Tests/Sessions.antt =====
-- The loop of server/forkedServer.c over a client that asks for the products, orders twice and asks
-- again.
use os_tp.Forked.{on_descriptors}
use os_tp.Base.{◌≡◌, true, false, [], ◌++◌, arith, Bytes, pos, refl}
use os_tp.Io.{◌>>=◌, pure, exited}
use os_tp.Encoding.{int_bytes}
use os_tp.Comm.{fifos, message_close}
use os_tp.Comm.Frames.{frame}
use os_tp.Database.Shop.{all_bytes, replies}
use os_tp.Forked.Serve.{forked_server}
use os_tp.Forked.Frames.{all_frames, all_reply_frames}
use os_tp.Forked.Requests.{forked_server-replies}
use os_tp.Tests.Wires.{Four, four, ends, wires}
use os_tp.Tests.Shop.{shop_stock, whole_prints}
use os_tp.Tests.Catalogue.{gin_line, gin_line-IsLine, gin_sizes, any_price, old}
use os_tp.Tests.Store.{gin_rows, evening, evening-IsServed, three-IsStocked}

abbrev typed : Bytes
typed = all_frames evening ++ (frame (int_bytes message_close) ++ [])

abbrev answered : Bytes
answered = replies any_price gin_rows (shop_stock (pos 3)) evening

forked_server-replies_example :
    (w' : Four) × (forked_server four 100 fifos ends old
        (pure true)
        5
        ((typed, [], answered ++ [], []), false)
      ≡ (on_descriptors (pure true) >>= λ closed. pure exited) (w', false))
    × (w' ≡ (
      [],
      [] ++ all_reply_frames any_price gin_rows (shop_stock (pos 3)) evening,
      [],
      [] ++ all_bytes evening,
    ))
forked_server-replies_example =
    forked_server-replies four 100 fifos ends wires old (pure true) any_price gin_line []
      whole_prints (shop_stock (pos 3)) evening 5 [] [] [] [] (typed, [], answered ++ [], [])
      (omega arith) (omega arith) (omega arith) (gin_line-IsLine, tt)
      (omega (arith, gin_sizes.0), tt) evening-IsServed three-IsStocked refl
