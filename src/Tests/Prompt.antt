-- ===== src/Tests/Prompt.antt =====
-- The prompt of database/dbCommandLine.c.
use os_tp.Base.{◌≡◌, refl, [], ◌∷◌, arith, Bytes, ok, pos}
use os_tp.Decimal.{codes}
use os_tp.Memory.Laws.{are_nonzero-IsText}
use os_tp.Database.CommandLine.{command_loop}
use os_tp.Database.CommandLine.Queries.{IsQuery, lines_of, run_all, command_loop-queries}
use os_tp.Tests.Shop.{shop}

abbrev vacuum : Bytes
vacuum = codes "VACUUM"

vacuum-IsQuery : IsQuery vacuum
vacuum-IsQuery = record {
  is_text = are_nonzero-IsText vacuum refl;
  is_line = omega arith;
  fits = omega arith;
  not_quit = refl;
}

command_loop-queries_example :
    command_loop shop 3 (lines_of (vacuum ∷ vacuum ∷ []) (b'q' ∷ 10 ∷ 9 ∷ [])) (pos 30)
    ≡ ok (9 ∷ [], run_all shop (vacuum ∷ vacuum ∷ []) (pos 30))
command_loop-queries_example =
    command_loop-queries shop 3 (vacuum ∷ vacuum ∷ []) (9 ∷ []) (pos 30) (omega arith)
      (vacuum-IsQuery, (vacuum-IsQuery, tt))
