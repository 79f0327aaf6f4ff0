-- ===== src/Sharing.antt =====
-- The forked servers (server/forkedServer.c) and the database server, which talk over one pair of
-- pipes: the mutex of server/dbConn.c, and how the processes interleave. A process is in a phase of
-- processOrder or getProducts; the database server answers one request at a time.
pub mod Invariant
pub mod Safety
use os_tp.Base.{ℕ, ◌≡◌, Bool, true, false, List, [], ◌∷◌, ◌++◌, ◌==◌, if◌then◌else◌}

-- `idle` outside sh_conn_open and sh_conn_close; `entered` once the mutex is locked; `asked` once
-- the request is written; `heard` once the reply is read.
pub data Phase (Q R : Type 0) : Type 0 where
  idle entered : Phase Q R
  asked : Q → Phase Q R
  heard : Q → R → Phase Q R

pub record System (Q R D : Type 0) : Type 0 where
  pub phases : ℕ → Phase Q R
  pub locked : Bool
  pub to_db : List Q
  pub from_db : List R
  pub db : D

unfoldable pub update : {A : Type 0} → (ℕ → A) → ℕ → A → ℕ → A
update f i a j = if j == i then a else f j

-- `answer` is the reply to a request and the database then; `keeps_lock` says after which replies
-- the code returns without sh_conn_close, as getProducts does after MESSAGE_ERROR. `returns_locked`
-- says of which requests a failed write or read makes the code return without sh_conn_close, as in
-- getProducts; processOrder does not look at the results and goes on. What fails leaves the pipes as
-- they were: the request is not written, or the reply is not taken.
module _ {Q R D : Type 0} (answer : Q → D → R × D) (keeps_lock : Q → R → Bool)
    (returns_locked : Q → Bool) where
  pub data Step : System Q R D → System Q R D → Type 0 where
    open_conn :
        (s : System Q R D) (i : ℕ)
        → s.phases i ≡ idle
        → s.locked ≡ false
        → Step s (record s { phases = update s.phases i entered; locked = true })
    ask :
        (s : System Q R D) (i : ℕ) (q : Q)
        → s.phases i ≡ entered
        → Step s (record s { phases = update s.phases i (asked q); to_db = s.to_db ++ q ∷ [] })
    write_fails :
        (s : System Q R D) (i : ℕ) (q : Q)
        → s.phases i ≡ entered
        → returns_locked q ≡ true
        → Step s (record s { phases = update s.phases i idle })
    write_ignored :
        (s : System Q R D) (i : ℕ) (q : Q)
        → s.phases i ≡ entered
        → returns_locked q ≡ false
        → Step s (record s { phases = update s.phases i (asked q) })
    serve :
        (s : System Q R D) (q : Q) (rest : List Q)
        → s.to_db ≡ q ∷ rest
        → Step s (record s {
          to_db = rest;
          from_db = s.from_db ++ (answer q s.db).0 ∷ [];
          db = (answer q s.db).1;
        })
    hear :
        (s : System Q R D) (i : ℕ) (q : Q) (r : R) (rest : List R)
        → s.phases i ≡ asked q
        → s.from_db ≡ r ∷ rest
        → Step s (record s { phases = update s.phases i (heard q r); from_db = rest })
    read_fails :
        (s : System Q R D) (i : ℕ) (q : Q)
        → s.phases i ≡ asked q
        → returns_locked q ≡ true
        → Step s (record s { phases = update s.phases i idle })
    read_ignored :
        (s : System Q R D) (i : ℕ) (q : Q)
        → s.phases i ≡ asked q
        → returns_locked q ≡ false
        → Step s (record s { phases = update s.phases i idle; locked = false })
    close_conn :
        (s : System Q R D) (i : ℕ) (q : Q) (r : R)
        → s.phases i ≡ heard q r
        → keeps_lock q r ≡ false
        → Step s (record s { phases = update s.phases i idle; locked = false })
    leave_locked :
        (s : System Q R D) (i : ℕ) (q : Q) (r : R)
        → s.phases i ≡ heard q r
        → keeps_lock q r ≡ true
        → Step s (record s { phases = update s.phases i idle })

  pub data Steps (s : System Q R D) : System Q R D → Type 0 where
    none_yet : Steps s s
    then_one : {t u : System Q R D} → Steps s t → Step t u → Steps s u

-- No process has started, and the mutex is free.
abbrev pub fresh : {Q R D : Type 0} → D → System Q R D
fresh db = record { phases = λ i. idle; locked = false; to_db = []; from_db = []; db = db }
