-- ===== src/Io/FieldGate.antt =====
-- The mirror of the mode for field workers (crates/plc-io/src/field_gate.rs).
use my_soft_plc.Prelude.{ℕ, ◌≡◌, arith, ◌==◌, if◌then◌else◌}
use my_soft_plc.Types.OperatingMode.{OperatingMode, stop, run, fault, sim}

unfoldable pub mode_code : OperatingMode → ℕ
mode_code stop = 0
mode_code run = 1
mode_code fault = 2
mode_code sim = 3

unfoldable pub mode_from : ℕ → OperatingMode
mode_from code =
    if code == 1 then run else if code == 2 then fault else if code == 3 then sim else stop

pub record FieldGate : Type 0 where
  pub raw_mode : ℕ  -- u8

abbrev pub new : FieldGate
new = record { raw_mode = 0 }

unfoldable pub set_mode : FieldGate → OperatingMode → FieldGate
unfolding mode_code
set_mode g m = record { raw_mode = mode_code m }

unfoldable pub mode : FieldGate → OperatingMode
unfolding mode_from
mode g = mode_from g.raw_mode

-- A worker reads the mode that the scan published last.
pub mode-set_mode : (g : FieldGate) (m : OperatingMode) → mode (set_mode g m) ≡ m
unfolding mode set_mode
mode-set_mode g m = ground arith
