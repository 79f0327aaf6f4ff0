-- ===== src/Database/CommandLine.antt =====
-- database/dbCommandLine.c: the prompt for queries. What it prints is left out.
pub mod Queries
use os_tp.Base.{
  ℕ, zero, suc, Bool, true, false, List, [], ◌∷◌, ◌++◌, Bytes, ℤ, pos, Outcome, ok, blocked, ◌==◌,
  if◌then◌else◌,
}
use os_tp.Base
use os_tp.Memory.{text_of}
use os_tp.Database.Engine.{Engine}

-- `sizeof(query) - 1`.
abbrev pub query_room : ℕ
query_room = 1023

-- The inner loop, with the room that is left: what it stores and what is left of the input. At the end
-- of the input `getchar` gives EOF, which is stored as the byte 255.
unfoldable pub read_query : ℕ → Bytes → Bytes × Bytes
read_query zero input = ([], input)
read_query (suc room) [] = let (query, rest) = read_query room [] in (255 ∷ query, rest)
read_query (suc room) (c ∷ input) =
    let (query, rest) = read_query room input in if c == 10 then ([], input) else (c ∷ query, rest)

-- `strcmp(query, "q") == 0`.
abbrev pub is_quit : Bytes → Bool
is_quit [] = false
is_quit (c ∷ []) = c == b'q'
is_quit (c ∷ d ∷ query) = false

-- `while(1)`, with the rounds that it may run.
unfoldable pub command_loop : (S : Engine) → ℕ → Bytes → S.Db → Outcome (Bytes × S.Db)
unfolding read_query
command_loop S zero input db = blocked
command_loop S (suc turns) input db =
    let (chars, rest) = read_query query_room input in
    Base.◌>>=◌ (text_of (chars ++ 0 ∷ [])) (λ query.
      let again = command_loop S turns rest (S.exec query db).2 in
      if is_quit query then ok (rest, db) else again)
