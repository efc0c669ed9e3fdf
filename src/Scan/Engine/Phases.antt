-- ===== src/Scan/Engine/Phases.antt =====
-- The phases of an invocation: inputs, logic and outputs (crates/plc-scan/src/engine.rs).
use my_soft_plc.Prelude.{
  ℕ, zero, suc, ◌+◌, Bool, true, false, not, ◌&&◌, ◌||◌, Option, none, some, List, [], ◌∷◌, Result,
  ok, err, length, get_or, replicate, if◌then◌else◌,
}
use my_soft_plc.Types.OperatingMode.{OperatingMode, stop}
use my_soft_plc.Types.Quality.{Quality, good, uncertain, bad, is_good, is_bad}
use my_soft_plc.Io.Value.{PlcValue, bool}
use my_soft_plc.Io.Image.{
  TypedSlot, ProcessImage, InputUpdate, OutputModuleState, set_input, set_output,
}
use my_soft_plc.Io.Force.{get, is_fault, resolve_effective_output}
use my_soft_plc.Io.FieldGate
use my_soft_plc.Scan.EpochHooks.{first_scan}
use my_soft_plc.Scan.RetainSignal.{bump, mark}
use my_soft_plc.Scan.Convert.{plc_to_vm, vm_to_plc}
use my_soft_plc.Vm.Memory
use my_soft_plc.Vm.Memory.{SlotImage, set_slot, set_quality_good, is_written}
use my_soft_plc.Vm.State.{Vm, set_first_scan, clear_retain_dirty}
use my_soft_plc.Vm.Operators.{Fault, error, panic}
use my_soft_plc.Vm.Exec.{ExecResult, run_entry}
use my_soft_plc.Scan.Engine.State.{
  StopOutputPolicy, safe, hold, ScanEngine, Devices, no_task, current_mode, enter_fault,
}

-- A result whose error is ignored, `let _ = …`.
abbrev pub or_keep {ℓ κ} : {A : Type ℓ} {E : Type κ} → A → Result A E → A
or_keep a (ok b) = b
or_keep a (err e) = a

abbrev is_stop : OperatingMode → Bool
is_stop stop = true
is_stop _ = false

abbrev is_safe_policy : StopOutputPolicy → Bool
is_safe_policy safe = true
is_safe_policy hold = false

module _ {ℓ} {F : Type ℓ} where
  abbrev no_slot : TypedSlot F
  no_slot = record { value = bool false; quality = good; written = false }

  -- The inputs of the image from the `i`-th on, as the double buffer gives them.
  unfoldable pub take_remote : List (PlcValue F × Quality) → ℕ → ProcessImage F → ProcessImage F
  unfolding set_input
  take_remote [] i image = image
  take_remote ((v, q) ∷ rest) i image =
      take_remote rest (i + 1) (or_keep image (set_input image i v q))

  -- `n` inputs of the image from the `i`-th on, as the driver gives them.
  unfoldable pub take_polled : ℕ → InputUpdate F → ℕ → ProcessImage F → ProcessImage F
  unfolding set_input
  take_polled zero update i image = image
  take_polled (suc n) update i image =
      let v = get_or update.values i (bool false) in
      let q = get_or update.quality i good in
      take_polled n update (i + 1) (or_keep image (set_input image i v q))

  -- The worst quality; the loop ends at the first that is bad.
  unfoldable pub worst_quality : Quality → List (TypedSlot F) → Quality
  worst_quality worst [] = worst
  worst_quality worst (slot ∷ rest) = elim slot.quality [
    | bad ↦ bad
    | uncertain ↦ worst_quality uncertain rest
    | good ↦ worst_quality worst rest
  ]

  -- The inputs of the machine from the `i`-th on.
  unfoldable pub give_inputs : List (TypedSlot F) → ℕ → SlotImage F → SlotImage F
  unfolding set_slot set_quality_good plc_to_vm
  give_inputs [] i inputs = inputs
  give_inputs (slot ∷ rest) i inputs =
      let valued = or_keep inputs (set_slot inputs i (plc_to_vm slot.value) 0) in
      give_inputs rest (i + 1) (or_keep valued (set_quality_good valued i (is_good slot.quality) 0))

  -- `n` outputs of the image from the `i`-th on; where `hold` is set, those that the run has not
  -- written stay.
  unfoldable pub take_outputs : ℕ → Bool → SlotImage F → ℕ → ProcessImage F → ProcessImage F
  unfolding Memory.get is_written set_output vm_to_plc
  take_outputs zero holds outputs i image = image
  take_outputs (suc n) holds outputs i image =
      let written : ProcessImage F = elim (Memory.get outputs i 0) [
        | err e ↦ image
        | ok v ↦ or_keep image (set_output image i (vm_to_plc v))
      ] in
      take_outputs n holds outputs (i + 1)
        (if holds && not (is_written outputs i) then image else written)

module _ {ℓ} {F D K : Type ℓ} where
  -- The mode for the field workers.
  unfoldable pub publish_field_mode : ScanEngine F D K → ScanEngine F D K
  unfolding current_mode FieldGate.set_mode
  publish_field_mode e = elim e.io.field_gate [
    | none ↦ e
    | some gate ↦ record e {
      io = record e.io { field_gate = some (FieldGate.set_mode gate (current_mode e)) };
    }
  ]

  unfoldable pub bad_module : ScanEngine F D K → ScanEngine F D K
  unfolding enter_fault
  bad_module e =
      let degraded = record e { io = record e.io { module_quality = bad } } in
      if e.plan.fault_on_module_bad then enter_fault degraded else degraded

  -- `if let Some(db) = …`, and the poll of the driver.
  unfoldable pub sample_remote : ScanEngine F D K → ScanEngine F D K
  unfolding take_remote
  sample_remote e = elim e.io.remote_inputs [
    | none ↦ e
    | some snap ↦ record e { io = record e.io { image = take_remote snap 0 e.io.image } }
  ]

  unfoldable pub note_quality : ScanEngine F D K → ScanEngine F D K
  unfolding worst_quality enter_fault
  note_quality e =
      let worst = worst_quality good e.io.image.inputs in
      let noted = record e { io = record e.io { module_quality = worst } } in
      if is_bad worst && e.plan.fault_on_module_bad then enter_fault noted else noted

  unfoldable pub give_vm : ScanEngine F D K → ScanEngine F D K
  unfolding give_inputs
  give_vm e = elim e.vm [
    | none ↦ e
    | some vm ↦ record e {
      vm = some (record vm { inputs = give_inputs e.io.image.inputs 0 vm.inputs });
    }
  ]

  -- The end of a run that went well.
  unfoldable pub after_logic : ScanEngine F D K → Vm F → ScanEngine F D K
  unfolding bump mark clear_retain_dirty take_outputs
  after_logic e vm =
      let image = take_outputs (length vm.outputs.values) e.bumpless_hold vm.outputs 0 e.io.image in
      record e {
        retain = if vm.retain_dirty then mark (bump e.retain) else e.retain;
        vm = some (if vm.retain_dirty then clear_retain_dirty vm else vm);
        io = record e.io { image = image };
      }

  -- What a run leaves, and whether it went well; `none` is a panic, which ends the thread.
  after_run : ScanEngine F D K → Vm F → Result ExecResult Fault → Option (ScanEngine F D K × Bool)
  unfolding after_logic
  after_run e ran (ok x) = some (after_logic e ran, true)
  after_run e ran (err (error x)) = some (record e { vm = some ran }, false)
  after_run e ran (err panic) = none

  -- Whether all outputs are driven to their safe states.
  unfoldable pub global_force_safe : ScanEngine F D K → Bool → Bool
  unfolding current_mode
  global_force_safe e ran_logic_ok =
      is_fault (current_mode e)
      || (is_stop (current_mode e) && is_safe_policy e.plan.stop_output_policy)
      || (not e.first_run_complete && not ran_logic_ok)

  -- The effective output of a slot, with the quality and the policy of its module.
  unfoldable pub effective_output :
      ScanEngine F D K → Bool → Bool → List OutputModuleState → ℕ → PlcValue F
  unfolding current_mode get resolve_effective_output
  effective_output e all_safe per_slot states i =
      let slot = get_or e.io.image.outputs i no_slot in
      let aggregate : OutputModuleState = record {
        quality = e.io.module_quality;
        on_bad_quality = e.io.on_bad_quality;
      } in
      let state = if per_slot then get_or states i aggregate else aggregate in
      let (v, _) = resolve_effective_output (record {
        mode = current_mode e;
        global_force_safe = all_safe;
        module_quality = state.quality;
        on_bad_quality = state.on_bad_quality;
        force = get e.io.forces i;
        program_value = slot.value;
        program_written = slot.written;
        safe_state = get_or e.io.image.output_safe i (bool false);
      }) in
      v

  -- `n` effective outputs from the `i`-th on.
  unfoldable pub effective_outputs :
      ScanEngine F D K → Bool → Bool → List OutputModuleState → ℕ → ℕ → List (PlcValue F)
  unfolding effective_output
  effective_outputs e all_safe per_slot states zero i = []
  effective_outputs e all_safe per_slot states (suc n) i =
      effective_output e all_safe per_slot states i
      ∷ effective_outputs e all_safe per_slot states n (i + 1)

module _ {ℓ} {F D K : Type ℓ} (dev : Devices F D K) where
  unfoldable pub sample_driver : ScanEngine F D K → ScanEngine F D K
  unfolding take_polled bad_module
  sample_driver e =
      let (driver, update, went_well) = dev.poll_inputs e.io.driver e.input_scratch in
      let polled = record e { io = record e.io { driver = driver }; input_scratch = update } in
      let image = take_polled (length e.io.image.inputs) update 0 e.io.image in
      if went_well
      then record polled { io = record polled.io { image = image } }
      else bad_module polled

  unfoldable pub sample_inputs : ScanEngine F D K → ScanEngine F D K
  unfolding publish_field_mode sample_remote sample_driver note_quality give_vm
  sample_inputs e = give_vm (note_quality (sample_driver (sample_remote (publish_field_mode e))))

  unfoldable pub run_logic : ScanEngine F D K → ℕ → ℕ → Option (ScanEngine F D K × Bool)
  unfolding set_first_scan first_scan run_entry after_run
  run_logic e task now_ms = elim e.vm [
    | none ↦ some (e, false)
    | some vm ↦
        let entry = (get_or e.plan.tasks task no_task).entry in
        let (ran, r) =
          run_entry dev.floats entry now_ms (set_first_scan (first_scan e.hooks task) vm) in
        after_run e ran r
  ]

  -- The image for the driver: the states of the modules start as the aggregate.
  unfoldable pub resolve_outputs : ScanEngine F D K → Bool → ScanEngine F D K
  unfolding effective_outputs global_force_safe
  resolve_outputs e ran_logic_ok =
      let n_q = length e.io.image.outputs in
      let (states, per_slot) = dev.fill_output_module_state e.io.driver (
        replicate n_q
          (record { quality = e.io.module_quality; on_bad_quality = e.io.on_bad_quality })) in
      let all_safe = global_force_safe e ran_logic_ok in
      record e {
        output_slot_state = states;
        output_image = record {
          values = effective_outputs e all_safe per_slot states n_q 0;
          force_safe = all_safe;
        };
      }

  unfoldable pub drive_outputs : ScanEngine F D K → ScanEngine F D K
  unfolding bad_module
  drive_outputs e =
      let (driver, went_well) = dev.drive e.io.driver e.output_image in
      let driven = record e { io = record e.io { driver = driver } } in
      if went_well then driven else bad_module driven

  unfoldable pub apply_outputs : ScanEngine F D K → Bool → ScanEngine F D K
  unfolding publish_field_mode resolve_outputs drive_outputs
  apply_outputs e ran_logic_ok = drive_outputs (resolve_outputs (publish_field_mode e) ran_logic_ok)
