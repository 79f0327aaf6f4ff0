-- ===== src/Tests/MainServer.antt =====
-- What server/mainServer.c passes to the database server.
use os_tp.Base.{◌≡◌, some, arith, ok}
use os_tp.Base
use os_tp.Database.Main.{read_args}
use os_tp.Database.Main.Arguments.{read_args-db_args}
use os_tp.MainServer.{db_args}

read_args-db_args_example : Base.◌>>=◌ (db_args (λ i. 7) 3 12) read_args ≡ ok (some (3, 12))
read_args-db_args_example = read_args-db_args (λ i. 7) 3 12 (omega arith) (omega arith)
