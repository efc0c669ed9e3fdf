-- ===== src/Types/OperatingMode.antt =====
-- The operating mode of crates/plc-types/src/mode.rs.
pub mod Names
use my_soft_plc.Prelude.{
  ℕ, ◌≡◌, refl, Bool, true, false, Option, none, some, List, arith, if◌then◌else◌,
}
use my_soft_plc.Types.Ascii.{bytes, eq_ignore_ascii_case}

pub data OperatingMode : Type 0 where
  stop run fault sim : OperatingMode

unfoldable pub as_str : OperatingMode → List ℕ
as_str stop = bytes "STOP"
as_str run = bytes "RUN"
as_str fault = bytes "FAULT"
as_str sim = bytes "SIM"

unfoldable pub parse : List ℕ → Option OperatingMode
parse s =
    if eq_ignore_ascii_case s (bytes "STOP")
    then some stop
    else if eq_ignore_ascii_case s (bytes "RUN")
    then some run
    else if eq_ignore_ascii_case s (bytes "FAULT")
    then some fault
    else if eq_ignore_ascii_case s (bytes "SIM")
    then some sim
    else none

unfoldable pub executes_logic : OperatingMode → Bool
executes_logic run = true
executes_logic sim = true
executes_logic _ = false
