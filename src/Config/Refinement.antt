-- ===== src/Config/Refinement.antt =====
-- The whole of `parse` of common/config.c, against the meaning of the file.
use os_tp.Base.{Bool, true, false, List, [], Bytes, if◌then◌else◌}
use os_tp.Config.Lines.{File}
use os_tp.Config.Meaning.{lines}
use os_tp.Config.{Config, State, q0, q1}

-- The lines that are left of a file.
unfoldable pub left_of : File → List Bytes
left_of fp = if fp.at_end then [] else lines fp.content

abbrev state_of : Bool → State
state_of false = q0
state_of true = q1
