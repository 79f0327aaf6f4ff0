-- ===== src/Config.antt =====
-- common/config.c: the configuration file and the automaton that reads it.
-- `behind` is what lies behind the block that `getParam` allocates, as far as a read past the block
-- does not fault. A field of the configuration that was not set is none: the code leaves it as
-- `malloc` gave it.
pub mod Lines
pub mod Syntax
pub mod Meaning
pub mod Reading
pub mod Settings
pub mod Sections
pub mod Steps
pub mod Storing
pub mod Refinement
pub mod Printing
pub mod Unterminated
use os_tp.Base.{
  ℕ, zero, suc, ◌+◌, ◌-◌, ◌*◌, ◌%◌, Bool, true, false, ◌&&◌, ◌||◌, not, Option, none, some, List,
  [], ◌∷◌, ◌++◌, map, Bytes, length, take, drop, get_elem?, replicate, Outcome, ok, fault, blocked,
  ◌>>=◌, ltb, leb, ◌==◌, if◌then◌else◌,
}
use os_tp.Memory.{strlen, read_block, text_of}
use os_tp.Decimal.{codes, is_digit}
use os_tp.Order.{deref}
use os_tp.Regex.{Regex, class, seq, star, byte, letter, matches}
use os_tp.Config.Syntax.{same_text, is_param, is_section_tag, get_param, get_value}
use os_tp.Config.Lines.{File, read_line, leading_trim}

-- The fields of `addresses`.
pub record Config : Type 0 where
  pub server : Option Bytes
  pub listening_port : Option Bytes
  pub database : Option Bytes
  pub logging : Option Bytes

abbrev pub new_config : Config
new_config = record { server = none; listening_port = none; database = none; logging = none }

-- The states of the automaton, by what `createAutomaton` calls them.
pub data State : Type 0 where
  q0 q1 q2 q3 q4 q5 : State

abbrev pub name : State → Bytes
name q0 = codes "q0" ++ 0 ∷ []
name q1 = codes "q1" ++ 0 ∷ []
name q2 = codes "q2" ++ 0 ∷ []
name q3 = codes "q3" ++ 0 ∷ []
name q4 = codes "q4" ++ 0 ∷ []
name q5 = codes "q5" ++ 0 ∷ []

pub record Arc : Type 0 where
  pub tag : Bytes
  pub next : State

abbrev pub create_arc : Bytes → State → Arc
create_arc tag next = record { tag = tag; next = next }

-- `while (i < quantity) state->arcs[i++] = ...;` from the number of arcs that there are: the array
-- has room for as many more as are given, and is filled up to the number that is given.
unfoldable pub add_arcs : List (Option Arc) → List Arc → List (Option Arc)
add_arcs arcs given =
    let n = length given - length arcs in
    arcs ++ (map some (take n given) ++ replicate (length given - n) none)

-- The arcs of each state, as `createAutomaton` adds them.
unfoldable pub arcs : State → List (Option Arc)
unfolding add_arcs
arcs q0 = add_arcs [] (create_arc (codes "[addresses]" ++ 0 ∷ []) q1 ∷ [])
arcs q1 = add_arcs [] (
    create_arc (codes "server" ++ 0 ∷ []) q2
    ∷ create_arc (codes "listening port" ++ 0 ∷ []) q3
    ∷ create_arc (codes "database" ++ 0 ∷ []) q4
    ∷ create_arc (codes "logging" ++ 0 ∷ []) q5
    ∷ create_arc (codes "end" ++ 0 ∷ []) q0
    ∷ [])
arcs _ = add_arcs [] (create_arc (0 ∷ []) q1 ∷ [])

abbrev pub states_quantity : ℕ
states_quantity = 6

-- `moveTo`, from the i-th of the arcs on: it reads as many arcs as there are states. None for -1.
unfoldable pub move_loop : ℕ → ℕ → List (Option Arc) → Bytes → Outcome (Option State)
unfolding same_text
move_loop zero i arcs target = ok none
move_loop (suc rounds) i arcs target =
    let rest = move_loop rounds (suc i) arcs target in
    (do
      p ← deref (get_elem? arcs i)
      arc ← deref p
      same ← same_text target (name arc.next)
      if same then ok (some arc.next) else rest)

-- The state of the parser then; the result of `moveTo` is not used.
unfoldable pub move_to : State → Bytes → Outcome State
unfolding arcs move_loop
move_to actual target = do
  found ← move_loop states_quantity 0 (arcs actual) target
  ok (elim found [ none ↦ actual | some next ↦ next ])

-- The loops over the arcs of q0Action and q1Action: the arc with the tag `line`.
unfoldable pub find_arc : List (Option Arc) → Bytes → Outcome (Option Arc)
unfolding same_text
find_arc [] line = ok none
find_arc (p ∷ arcs) line =
    let rest = find_arc arcs line in
    (do arc ← deref p; same ← same_text line arc.tag; if same then ok (some arc) else rest)

-- What an action does: it returns (true for 0), or calls the action of the actual state with a line.
pub data Next : Type 0 where
  returns : Bool → Config → Next
  calls : State → Option Bytes → File → Config → Next

-- What follows the search of q0Action.
unfoldable pub q0_found : Option Arc → File → Config → Outcome Next
q0_found none fp config = ok (returns false config)
q0_found (some arc) fp config = do next ← move_to q0 (name arc.next); ok (calls next none fp config)

unfoldable pub q0_action : File → Config → Outcome Next
unfolding is_section_tag find_arc arcs q0_found
q0_action fp config = if fp.at_end then ok (returns true config) else (do
  (line, fp') ← read_line fp
  text ← text_of line
  if is_section_tag text
      then (do found ← find_arc (arcs q0) line; q0_found found fp' config)
      else (do
        blank ← same_text line (0 ∷ [])
        ok (if blank then calls q0 none fp' config else returns false config)))

-- What follows the search of q1Action.
unfoldable pub q1_found : Option Arc → Bytes → File → Config → Outcome Next
q1_found none line fp config = ok (calls q1 none fp config)
q1_found (some arc) line fp config = do
  value ← get_value line
  next ← move_to q1 (name arc.next)
  ok (calls next (some value) fp config)

unfoldable pub q1_action : Bytes → File → Config → Outcome Next
unfolding is_param find_arc arcs q1_found get_param
q1_action behind fp config = if fp.at_end then ok (returns false config) else (do
  (line, fp') ← read_line fp
  text ← text_of line
  is_end ← same_text line (codes "end" ++ 0 ∷ [])
  if is_end
      then (do next ← move_to q1 (name q0); ok (calls next none fp' config))
      else if is_param text
      then (do
        param ← get_param line
        found ← find_arc (arcs q1) (param ++ behind)
        q1_found found line fp' config)
      else (do
        blank ← same_text line (0 ∷ [])
        ok (if blank then calls q1 none fp' config else returns false config)))

abbrev pub store : State → Bytes → Config → Config
store q2 line config = record config { server = some line }
store q3 line config = record config { listening_port = some line }
store q4 line config = record config { database = some line }
store q5 line config = record config { logging = some line }
store _ line config = config

-- q2Action to q5Action.
unfoldable pub store_action : State → Option Bytes → File → Config → Outcome Next
store_action actual line fp config = do
  l ← deref line
  trimmed ← leading_trim l
  next ← move_to actual (name q1)
  ok (calls next none fp (store actual trimmed config))

unfoldable pub action : Bytes → State → Option Bytes → File → Config → Outcome Next
unfolding q0_action q1_action store_action
action behind q0 line fp config = q0_action fp config
action behind q1 line fp config = q1_action behind fp config
action behind actual line fp config = store_action actual line fp config

-- The actions call one another, with the calls that they may make.
unfoldable pub run : ℕ → Bytes → Next → Outcome (Bool × Config)
run rounds behind (returns success config) = ok (success, config)
run zero behind (calls actual line fp config) = blocked
run (suc rounds) behind (calls actual line fp config) = do
  next ← action behind actual line fp config
  run rounds behind next

-- A file has no more lines than bytes and one more, and each line takes two calls at most.
unfoldable pub parse : Bytes → Bytes → Config → Outcome (Bool × Config)
unfolding run
parse behind content config =
    run (2 * length content + 4) behind
      (calls q0 none (record { content = content; at_end = false }) config)

-- `setup`, with what `fopen` gives of the file; none for NULL.
unfoldable pub setup : Bytes → Option Bytes → Outcome (Option Config)
setup behind none = ok none
setup behind (some content) = do
  r ← parse behind content new_config
  ok (if r.0 then some r.1 else none)

abbrev pub get_server_address : Config → Option Bytes
get_server_address config = config.server

abbrev pub get_listening_port : Config → Option Bytes
get_listening_port config = config.listening_port

abbrev pub get_database_address : Config → Option Bytes
get_database_address config = config.database

abbrev pub get_logging_address : Config → Option Bytes
get_logging_address config = config.logging
