-- ===== src/Scan/Engine/Requests.antt =====
-- Requests to the scan engine: the mode, and arming and activating a program
-- (crates/plc-scan/src/engine.rs).
use my_soft_plc.Prelude.{
  ℕ, Bool, true, false, not, ◌&&◌, Option, none, some, List, Result, ok, err, length, ◌==◌,
  if◌then◌else◌,
}
use my_soft_plc.Ir.Table.{bytes_eq}
use my_soft_plc.Types.OperatingMode.{OperatingMode}
use my_soft_plc.Types.ProgramPhase.{ProgramPhase}
use my_soft_plc.Io.Force
use my_soft_plc.Io.Force.{ForceTable, BadQualityPolicy}
use my_soft_plc.Scan.ModeCell
use my_soft_plc.Scan.ModeCell.{ModeCell, apply_pending, reject_pending, mode, set_mode}
use my_soft_plc.Scan.EpochHooks.{phase, set_phase, set_activate_requested}
use my_soft_plc.Vm.State.{cold_reset_non_retain}
use my_soft_plc.Scan.Engine.State.{
  ScanEngine, ArmedProgram, ActivateRequest, pending, no_op, ScanError, invalid_state, config,
  image_mismatch, Devices, is_swapping,
}

abbrev same_text : Option (List ℕ) → List ℕ → Bool
same_text none b = false
same_text (some a) b = bytes_eq a b

module _ {ℓ} {F D K : Type ℓ} where
  -- What a request that was taken leaves.
  after_request :
      ScanEngine F D K
      → ModeCell × Result (OperatingMode × Bool) ModeCell.Rejection
      → ScanEngine F D K
  unfolding Force.clear_all
  after_request e (modes, ok (m, true)) = record e {
    modes = modes;
    io = record e.io { forces = Force.clear_all e.io.forces };
  }
  after_request e (modes, ok (m, false)) = record e { modes = modes }
  after_request e (modes, err r) = record e { modes = modes }

  unfoldable pub apply_mode_boundary : ScanEngine F D K → ScanEngine F D K
  unfolding phase reject_pending apply_pending after_request
  apply_mode_boundary e =
      if is_swapping (phase e.hooks)
      then record e { modes = reject_pending e.modes }
      else after_request e (apply_pending e.modes)

  unfoldable pub disarm : ScanEngine F D K → Result (ScanEngine F D K) ScanError
  unfolding phase set_phase set_activate_requested
  disarm e =
      if is_swapping (phase e.hooks)
      then err invalid_state
      else ok (record e {
        armed = none;
        hooks = set_phase (set_activate_requested e.hooks false) ProgramPhase.idle;
      })

  -- The request for a program that is armed.
  activate_armed : ScanEngine F D K → ArmedProgram F → ScanEngine F D K × ActivateRequest
  unfolding set_phase set_activate_requested
  activate_armed e a =
      if same_text e.current_id a.program_id && same_text e.current_hash a.compatibility_hash
      then (
        record e {
          armed = none;
          hooks = set_phase (set_activate_requested e.hooks false) ProgramPhase.idle;
        },
        no_op,
      )
      else (record e { hooks = set_activate_requested e.hooks true }, pending)

  unfoldable pub request_activate :
      ScanEngine F D K → Result (ScanEngine F D K × ActivateRequest) ScanError
  unfolding phase activate_armed
  request_activate e =
      if is_swapping (phase e.hooks)
      then err invalid_state
      else elim e.armed [ none ↦ err invalid_state | some a ↦ ok (activate_armed e a) ]

module _ {ℓ} {F D K : Type ℓ} (dev : Devices F D K) where
  -- The program is reset when it is armed; its retained values stay.
  unfoldable pub arm : ScanEngine F D K → ArmedProgram F → Result (ScanEngine F D K) ScanError
  unfolding phase set_phase set_activate_requested cold_reset_non_retain
  arm e program =
      if is_swapping (phase e.hooks)
      then err invalid_state
      else if not (length program.task_entries == length e.plan.tasks)
      then err config
      else if not (length program.vm.inputs.values == length e.io.image.inputs)
      then err image_mismatch
      else if not (length program.vm.outputs.values == length e.io.image.outputs)
      then err image_mismatch
      else ok (record e {
        armed = some (record program { vm = cold_reset_non_retain dev.floats program.vm });
        hooks = set_activate_requested (set_phase e.hooks ProgramPhase.armed) false;
      })
