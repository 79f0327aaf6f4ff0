-- ===== src/Tests/Sharing.antt =====
-- Two forked servers that share the database connection.
use os_tp.Base.{ℕ, suc, ◌+◌, ◌≡◌, ◌≢◌, refl, Bool, true, [], ◌∷◌, ◌++◌, ◌==◌}
use os_tp.Sharing.{
  idle, entered, asked, heard, System, update, open_conn, ask, serve, hear, Steps, none_yet,
  then_one, fresh, leave_locked,
}
use os_tp.Sharing.Safety.{Steps-exclusive, Steps-starved}

-- The database counts its requests; a reply of 0 is an error.
abbrev count_requests : ℕ → ℕ → ℕ × ℕ
count_requests q d = (q + d, suc d)

abbrev is_error : ℕ → ℕ → Bool
is_error q r = r == 0

-- What fails for a request of 0 makes its process return.
abbrev gives_up : ℕ → Bool
gives_up q = q == 0

abbrev start : System ℕ ℕ ℕ
start = fresh 0

abbrev opened : System ℕ ℕ ℕ
opened = record start { phases = update start.phases 1 entered; locked = true }

abbrev sent : ℕ → System ℕ ℕ ℕ
sent q = record opened { phases = update opened.phases 1 (asked q); to_db = [] ++ q ∷ [] }

abbrev served : ℕ → System ℕ ℕ ℕ
served q = record (sent q) { to_db = []; from_db = [] ++ (q + 0) ∷ []; db = 1 }

abbrev answered : ℕ → System ℕ ℕ ℕ
answered q = record (served q) {
  phases = update (served q).phases 1 (heard q (q + 0));
  from_db = [];
}

asks : (q : ℕ) → Steps count_requests is_error gives_up start (answered q)
unfolding update
asks q =
    then_one
      (then_one (then_one (then_one none_yet (open_conn start 1 refl refl)) (ask opened 1 q refl))
        (serve (sent q) q [] refl))
      (hear (served q) 1 q (q + 0) [] refl refl)

has_heard : (q : ℕ) → (answered q).phases 1 ≡ heard q (q + 0)
unfolding update
has_heard q = refl

not_idle : (q : ℕ) → (answered q).phases 1 ≢ idle
unfolding update
not_idle q e = cc

abbrev first : ℕ
first = 1

Steps-exclusive_example : first ≡ first
Steps-exclusive_example =
    Steps-exclusive count_requests is_error gives_up 0 (answered 7) 1 1 (asks 7) (not_idle 7)
      (not_idle 7)

is_idle : update (answered 0).phases 1 idle 1 ≡ idle
unfolding update
is_idle = refl

Steps-starved_example : update (answered 0).phases 1 idle 2 ≡ idle
Steps-starved_example =
    Steps-starved count_requests is_error gives_up 0 (answered 0)
      (record (answered 0) { phases = update (answered 0).phases 1 idle })
      (record (answered 0) { phases = update (answered 0).phases 1 idle }) 1 2 (asks 0) (not_idle 0)
      (leave_locked (answered 0) 1 0 0 (has_heard 0) refl) is_idle refl none_yet
