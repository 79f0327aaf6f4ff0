-- ===== src/Database/Main/Arguments.antt =====
-- The descriptors that server/mainServer.c gives to database/databaseServer.c by its arguments.
use os_tp.Base.{
  ℕ, zero, suc, ◌+◌, ◌<◌, ◌^◌, ◌≡◌, refl, ap, ◌∙◌, List, [], ◌∷◌, ◌++◌, arith, Bytes, pos, Outcome,
  ok, Option, some, bind-ok, to_word,
}
use os_tp.Base
use os_tp.Decimal.{print_int, count_digits}
use os_tp.Decimal.Laws.{count_digits-eq-length, strtol-print_int}
use os_tp.Decimal.Texts.{print_int-IsText}
use os_tp.Memory.Laws.{text_of-append}
use os_tp.Fifos.{print_in}
use os_tp.Fifos.Handshake.{print_in-whole}
use os_tp.MainServer.{db_args}
use os_tp.Database.Main.{read_descriptor, read_args}

abbrev printed : ℕ → Bytes
printed fd = print_int (pos fd) ++ 0 ∷ []

print_in-fits :
    (junk : ℕ → ℕ) (fd : ℕ)
    → print_in junk (count_digits (pos fd) + 1) (print_int (pos fd)) ≡ ok (printed fd)
print_in-fits junk fd =
    print_in-whole junk (count_digits (pos fd) + 1) (print_int (pos fd))
      (omega (arith, count_digits-eq-length (pos fd)))

to_word-small : (n : ℕ) → n < 2 ^ 31 → to_word (pos n) ≡ n
unfolding to_word
to_word-small n k = omega arith

read_descriptor-printed : (fd : ℕ) → fd < 2 ^ 31 → read_descriptor (printed fd) ≡ ok fd
unfolding read_descriptor
read_descriptor-printed fd h =
    bind-ok _ (text_of-append (print_int (pos fd)) [] (print_int-IsText (pos fd)))
      (rw (strtol-print_int (pos fd)) (ap ok (to_word-small fd h)))

-- The main server prints the two descriptors of the database server, which are less than 2^31, as
-- its arguments, in buffers that they fill just to the end, and the database server reads the same
-- two from them, in the same order.
pub read_args-db_args :
    (junk : ℕ → ℕ) (read_fd write_fd : ℕ)
    → read_fd < 2 ^ 31
    → write_fd < 2 ^ 31
    → Base.◌>>=◌ (db_args junk read_fd write_fd) read_args ≡ ok (some (read_fd, write_fd))
unfolding db_args read_args
read_args-db_args junk read_fd write_fd small small' =
    rw
      (
        print_in-fits junk read_fd,
        print_in-fits junk write_fd,
        read_descriptor-printed read_fd small,
        read_descriptor-printed write_fd small',
      )
      refl
