-- ===== src/Database/CommandLine/Queries.antt =====
-- The queries that are typed at the prompt are carried out in order.
use os_tp.Base.{
  ℕ, zero, suc, ◌<◌, ◌≡◌, ◌≢◌, refl, ap, ◌∙◌, false, List, [], ◌∷◌, ◌++◌, arith, All, Bytes, length,
  ok, blocked, bind-ok, replicate,
}
use os_tp.Memory.{text_of}
use os_tp.Memory.Laws.{IsText, text_of-append}
use os_tp.Database.Engine.{Engine}
use os_tp.Database.CommandLine.{query_room, read_query, is_quit, command_loop}

-- A line that fits the buffer, and does not ask to leave.
pub record IsQuery (q : Bytes) : Type 0 where
  pub is_text : IsText q
  pub is_line : All (λ c. c ≢ 10) q
  pub fits : length q < query_room
  pub not_quit : is_quit q ≡ false

abbrev pub lines_of : List Bytes → Bytes → Bytes
lines_of [] rest = rest
lines_of (q ∷ qs) rest = q ++ (10 ∷ lines_of qs rest)

-- The database once all queries have run, whether they fail or not.
abbrev pub run_all : (S : Engine) → List Bytes → S.Db → S.Db
run_all S [] db = db
run_all S (q ∷ qs) db = run_all S qs (S.exec q db).2

read_query-line :
    (room : ℕ) (q rest : Bytes)
    → All (λ c. c ≢ 10) q
    → length q < room
    → read_query room (q ++ (10 ∷ rest)) ≡ (q, rest)
unfolding read_query
read_query-line zero q rest h fits = absurd (omega arith)
read_query-line (suc room) [] rest h fits = refl
read_query-line (suc room) (c ∷ q) rest h fits =
    ground (arith, read_query-line room q rest h.1, h.0)

module _ (S : Engine) where
  command_loop-line :
      (turns : ℕ) (q rest : Bytes) (db : S.Db)
      → IsQuery q
      → command_loop S (suc turns) (q ++ (10 ∷ rest)) db ≡ command_loop S turns rest (S.exec q db).2
  unfolding command_loop
  command_loop-line turns q rest db h =
      let read = read_query-line query_room q rest h.is_line h.fits in
      bind-ok _ (ap (λ r. text_of (r.0 ++ 0 ∷ [])) read ∙ text_of-append q [] h.is_text)
        (rw h.not_quit (ap (λ r. command_loop S turns r.1 (S.exec q db).2) read))

  -- The prompt carries out the lines that are typed, in order and each once, as queries, whether they
  -- fail or not, and leaves at the line "q" with what is typed behind it unread. No line is longer than
  -- 1022 bytes or holds a zero byte, and the rounds of the loop are more than the lines.
  pub command_loop-queries :
      (turns : ℕ) (qs : List Bytes) (rest : Bytes) (db : S.Db)
      → length qs < turns
      → All IsQuery qs
      → command_loop S turns (lines_of qs (b'q' ∷ 10 ∷ rest)) db ≡ ok (rest, run_all S qs db)
  unfolding command_loop
  command_loop-queries zero qs rest db enough h = absurd (omega arith)
  command_loop-queries (suc turns) [] rest db enough h =
      let read =
        read_query-line query_room (b'q' ∷ []) rest ((λ e. absurd (omega arith)), tt)
          (omega arith) in
      bind-ok _
        (ap (λ r. text_of (r.0 ++ 0 ∷ [])) read ∙ text_of-append (b'q' ∷ []) [] (omega arith))
        (ap (λ r. ok (r.1, db)) read)
  command_loop-queries (suc turns) (q ∷ qs) rest db enough h =
      command_loop-line turns q (lines_of qs (b'q' ∷ 10 ∷ rest)) db h.0
      ∙ command_loop-queries turns qs rest (S.exec q db).2 (omega arith) h.1

all_ones : ℕ → Bytes
all_ones n = replicate n 255

read_query_end : (room : ℕ) → read_query room [] ≡ (all_ones room, [])
unfolding read_query all_ones
read_query_end zero = refl
read_query_end (suc room) = rw (read_query_end room) refl

all_ones-IsText : (n : ℕ) → IsText (all_ones n)
unfolding all_ones
all_ones-IsText zero = tt
all_ones-IsText (suc n) = ((λ e. absurd (omega arith)), all_ones-IsText n)

all_ones_not_quit : (n : ℕ) → is_quit (all_ones (suc (suc n))) ≡ false
unfolding all_ones
all_ones_not_quit n = refl

-- At the end of the input the prompt never leaves: in each round it fills its buffer with the byte 255,
-- has SQLite run that, and goes on, however many rounds it has.
pub command_loop_end_of_file :
    (S : Engine) (turns : ℕ) (db : S.Db) → command_loop S turns [] db ≡ blocked
unfolding command_loop
command_loop_end_of_file S zero db = refl
command_loop_end_of_file S (suc turns) db =
    let read = read_query_end query_room in
    bind-ok _
      (ap (λ r. text_of (r.0 ++ 0 ∷ [])) read
        ∙ text_of-append (all_ones query_room) [] (all_ones-IsText query_room))
      (rw (all_ones_not_quit 1021) (
        ap (λ r. command_loop S turns r.1 (S.exec (all_ones query_room) db).2) read
        ∙ command_loop_end_of_file S turns (S.exec (all_ones query_room) db).2))
