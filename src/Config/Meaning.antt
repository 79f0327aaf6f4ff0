-- ===== src/Config/Meaning.antt =====
-- What the file of common/config.c means: an account of `parse` that has neither buffers nor arcs.
use os_tp.Base.{
  ℕ, Bool, true, false, ◌&&◌, not, Option, some, List, [], ◌∷◌, ◌++◌, Bytes, ◌==◌, if◌then◌else◌,
}
use os_tp.Decimal.{codes}
use os_tp.Config.Lines.{File, ends_line, is_blank}
use os_tp.Config.{Config}
use os_tp.Config.Syntax.{is_param}

abbrev pub equal : Bytes → Bytes → Bool
equal [] [] = true
equal [] (d ∷ t) = false
equal (c ∷ s) [] = false
equal (c ∷ s) (d ∷ t) = c == d && equal s t

-- The bytes before the first zero.
unfoldable pub up_to_zero : Bytes → Bytes
up_to_zero [] = []
up_to_zero (c ∷ s) = if c == 0 then [] else c ∷ up_to_zero s

unfoldable pub trim : Bytes → Bytes
trim [] = []
trim (c ∷ s) = if is_blank c then trim s else c ∷ s

-- The first line, and what is left of the file behind it.
unfoldable pub first_line : Bytes → Bytes × File
first_line [] = ([], record { content = []; at_end = true })
first_line (c ∷ s) =
    if ends_line c
    then ([], record { content = s; at_end = false })
    else (c ∷ (first_line s).0, (first_line s).1)

abbrev pub cons_first : ℕ → List Bytes → List Bytes
cons_first c [] = (c ∷ []) ∷ []
cons_first c (l ∷ ls) = (c ∷ l) ∷ ls

-- The lines of a file: one more than there are bytes that end one.
unfoldable pub lines : Bytes → List Bytes
lines [] = [] ∷ []
lines (c ∷ s) = if ends_line c then [] ∷ lines s else cons_first c (lines s)

-- What `readLine` gives of a line.
abbrev pub cleaned : Bytes → Bytes
cleaned l = trim (up_to_zero l)

unfoldable pub key_of : Bytes → Bytes
key_of [] = []
key_of (c ∷ s) = if c == b'=' then [] else c ∷ key_of s

unfoldable pub value_of : Bytes → Bytes
value_of [] = []
value_of (c ∷ s) = if c == b'=' then s else value_of s

-- A value as a C string.
abbrev pub stored : Bytes → Option Bytes
stored line = some (trim (value_of line) ++ 0 ∷ [])

-- The setting of a line that has an equals sign; a key that is not known sets nothing.
unfoldable pub set_key : Bytes → Config → Config
set_key line config =
    if equal (key_of line) (codes "server")
    then record config { server = stored line }
    else if equal (key_of line) (codes "listening port")
    then record config { listening_port = stored line }
    else if equal (key_of line) (codes "database")
    then record config { database = stored line }
    else if equal (key_of line) (codes "logging")
    then record config { logging = stored line }
    else config

-- Whether the lines are a configuration, outside its section or inside it, and the settings that
-- were made up to the first line that is none of its lines.
unfoldable pub meaning : Bool → List Bytes → Config → Bool × Config
meaning inside [] config = (not inside, config)
meaning false (l ∷ ls) config =
    let enters = meaning true ls config in
    let stays = meaning false ls config in
    if equal (cleaned l) (codes "[addresses]")
    then enters
    else if equal (cleaned l) []
    then stays
    else (false, config)
meaning true (l ∷ ls) config =
    let leaves = meaning false ls config in
    let stays = meaning true ls config in
    let sets = meaning true ls (set_key (cleaned l) config) in
    if equal (cleaned l) (codes "end")
    then leaves
    else if is_param (cleaned l)
    then (if equal (key_of (cleaned l)) (codes "end") then leaves else sets)
    else if equal (cleaned l) []
    then stays
    else (false, config)
