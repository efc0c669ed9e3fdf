-- ===== src/Types/ProgramPhase.antt =====
-- The program phase of crates/plc-types/src/mode.rs.
use my_soft_plc.Prelude.{ℕ, Option, none, some, List, if◌then◌else◌}
use my_soft_plc.Types.Ascii.{bytes, eq_ignore_ascii_case}

pub data ProgramPhase : Type 0 where
  idle validating armed swapping : ProgramPhase

unfoldable pub as_str : ProgramPhase → List ℕ
as_str idle = bytes "idle"
as_str validating = bytes "validating"
as_str armed = bytes "armed"
as_str swapping = bytes "swapping"

unfoldable pub parse : List ℕ → Option ProgramPhase
parse s =
    if eq_ignore_ascii_case s (bytes "idle")
    then some idle
    else if eq_ignore_ascii_case s (bytes "validating")
    then some validating
    else if eq_ignore_ascii_case s (bytes "armed")
    then some armed
    else if eq_ignore_ascii_case s (bytes "swapping")
    then some swapping
    else none
