-- ===== src/Scan/Engine/FailSafe.antt =====
-- The outputs in FAULT (crates/plc-scan/src/engine.rs).
pub mod Invocations
use my_soft_plc.Prelude.{
  ℕ, zero, suc, ◌+◌, ◌-◌, ◌*◌, ◌/◌, ◌%◌, ◌^◌, ◌<◌, ◌≡◌, refl, ap, sym, subst, subst, ◌∙◌, arith,
  Bool, true, false, ◌||◌, ◌&&◌, not, Option, none, some, List, [], ◌∷◌, length, get_elem?, get_or,
  set, replicate, max, Bool-cases, inl, inr, if◌then◌else◌,
}
use my_soft_plc.Types.OperatingMode.{OperatingMode, fault, executes_logic}
use my_soft_plc.Types.Quality.{bad}
use my_soft_plc.Types.Quality.{bad}
use my_soft_plc.Io.Value.{PlcValue, bool}
use my_soft_plc.Io.Image.{OutputModuleState, OutputImage, ProcessImage}
use my_soft_plc.Io.Force
use my_soft_plc.Io.Force.{resolve_effective_output}
use my_soft_plc.Io.FieldGate
use my_soft_plc.Scan.ModeCell
use my_soft_plc.Scan.EpochHooks.{set_in_invocation}
use my_soft_plc.Scan.Watchdog.{note}
use my_soft_plc.Scan.Engine.State.{
  ScanEngine, Devices, current_mode, enter_fault, read_clock, runtime_of, period_of,
}
use my_soft_plc.Scan.Engine.Phases.{
  sample_inputs, run_logic, apply_outputs, publish_field_mode, resolve_outputs, drive_outputs,
  bad_module, global_force_safe, effective_output, effective_outputs,
}
use my_soft_plc.Scan.Engine.Cycle.{
  invoke, begun, elapsed_us, logic_phase, logic_result, complete_logic, complete, completed, watch,
  count_overrun, record_duration, finish, with_runtime,
}

module _ {ℓ} {F D K : Type ℓ} where
  -- FAULT, and no forces.
  pub record IsFaulted (e : ScanEngine F D K) : Type ℓ where
    pub faulted : ModeCell.mode e.modes ≡ fault
    pub unforced : e.io.forces.forces ≡ []

  -- The mode, the forces and the image are as they were.
  pub record IsQuiet (e e' : ScanEngine F D K) : Type ℓ where
    pub modes : e'.modes ≡ e.modes
    pub forces : e'.io.forces ≡ e.io.forces
    pub image : e'.io.image ≡ e.io.image

  pub quiet-IsFaulted : {e e' : ScanEngine F D K} → IsQuiet e e' → IsFaulted e → IsFaulted e'
  quiet-IsFaulted q f = record {
    faulted = ap ModeCell.mode q.modes ∙ f.faulted;
    unforced = ap (λ (t : Force.ForceTable (PlcValue F)). t.forces) q.forces ∙ f.unforced;
  }

  pub enter_fault-IsFaulted : (e : ScanEngine F D K) → IsFaulted (enter_fault e)
  unfolding enter_fault ModeCell.set_mode ModeCell.mode Force.clear_all
  enter_fault-IsFaulted e = record { faulted = refl; unforced = refl }

  -- A FAULT that may come on top changes nothing.
  pub fault_again :
      (b : Bool) (e : ScanEngine F D K) → IsFaulted e → IsFaulted (if b then enter_fault e else e)
  fault_again true e f = enter_fault-IsFaulted e
  fault_again false e f = f

  publish-IsQuiet : (e : ScanEngine F D K) → IsQuiet e (publish_field_mode e)
  unfolding publish_field_mode
  publish-IsQuiet e = record { modes = ground arith; forces = ground arith; image = ground arith }

  -- Every output of the image for the driver is the safe state of its slot.
  pub record IsSafeImage (e : ScanEngine F D K) : Type ℓ where
    pub all_safe : e.output_image.force_safe ≡ true
    pub each :
        (i : ℕ)
        → i < length e.io.image.outputs
        → get_elem? e.output_image.values i ≡ some (get_or e.io.image.output_safe i (bool false))

  effective_output-safe :
      (e : ScanEngine F D K) (per_slot : Bool) (states : List OutputModuleState) (i : ℕ)
      → effective_output e true per_slot states i ≡ get_or e.io.image.output_safe i (bool false)
  unfolding effective_output resolve_effective_output
  effective_output-safe e per_slot states i = refl

  effective_outputs-safe :
      (e : ScanEngine F D K) (per_slot : Bool) (states : List OutputModuleState) (n i j : ℕ)
      → j < n
      → get_elem? (effective_outputs e true per_slot states n i) j
        ≡ some (get_or e.io.image.output_safe (i + j) (bool false))
  unfolding effective_outputs
  effective_outputs-safe e per_slot states zero i j h = absurd (omega arith)
  effective_outputs-safe e per_slot states (suc n) i zero h = ap some (
      effective_output-safe e per_slot states i
      ∙ ap (λ k. get_or e.io.image.output_safe k (bool false)) (omega arith))
  effective_outputs-safe e per_slot states (suc n) i (suc j) h =
      effective_outputs-safe e per_slot states n (i + 1) j (omega arith)
      ∙ ap (λ k. some (get_or e.io.image.output_safe k (bool false))) (omega arith)

  force_safe_in_fault :
      (e : ScanEngine F D K) (ok : Bool) → IsFaulted e → global_force_safe e ok ≡ true
  unfolding global_force_safe current_mode
  force_safe_in_fault e ok f = rw (f.faulted) refl

  -- What is left of a scan that fails: FAULT, no forces, and every output at its safe state.
  pub record IsFailSafe (e : ScanEngine F D K) : Type ℓ where
    pub faulted : IsFaulted e
    pub image : IsSafeImage e
    pub quiet : e.hooks.in_invocation ≡ false

module _ {ℓ} {F D K : Type ℓ} (dev : Devices F D K) where
  abbrev resolved_states : ScanEngine F D K → List OutputModuleState × Bool
  resolved_states e = dev.fill_output_module_state e.io.driver (
      replicate (length e.io.image.outputs)
        (record { quality = e.io.module_quality; on_bad_quality = e.io.on_bad_quality }))

  resolve-IsSafeImage :
      (e : ScanEngine F D K) (ok : Bool)
      → global_force_safe e ok ≡ true
      → IsSafeImage (resolve_outputs dev e ok)
  unfolding resolve_outputs
  resolve-IsSafeImage e ok g = record {
    all_safe = g;
    each = λ i h.
        let states = resolved_states e in
        ap
          (λ b. get_elem? (effective_outputs e b states.1 states.0 (length e.io.image.outputs) 0) i)
          g
        ∙ effective_outputs-safe e states.1 states.0 (length e.io.image.outputs) 0 i h
        ∙ ap (λ k. some (get_or e.io.image.output_safe k (bool false))) (omega arith);
  }

  -- The driver is given the image that was resolved.
  record IsDriven (e e' : ScanEngine F D K) : Type ℓ where
    resolved : e'.output_image ≡ e.output_image
    image : e'.io.image ≡ e.io.image

  drive-IsDriven : (e : ScanEngine F D K) → IsDriven e (drive_outputs dev e)
  unfolding drive_outputs bad_module enter_fault
  drive-IsDriven e = record { resolved = ground arith; image = ground arith }

  driven-IsSafeImage : {e e' : ScanEngine F D K} → IsDriven e e' → IsSafeImage e → IsSafeImage e'
  driven-IsSafeImage d s = record {
    all_safe = ap (λ (o : OutputImage F). o.force_safe) d.resolved ∙ s.all_safe;
    each = λ i h.
        ap (λ (o : OutputImage F). get_elem? o.values i) d.resolved
        ∙ s.each i (subst (λ (m : ProcessImage F). i < length m.outputs) d.image h)
        ∙ ap (λ (m : ProcessImage F). some (get_or m.output_safe i (bool false))) (sym d.image);
  }

  driven_bad :
      (went_well : Bool) (e : ScanEngine F D K)
      → IsFaulted e
      → IsFaulted (if went_well then e else bad_module e)
  unfolding bad_module
  driven_bad true e f = f
  driven_bad false e f =
      fault_again e.plan.fault_on_module_bad
        (record e { io = record e.io { module_quality = bad } })
        (record { faulted = f.faulted; unforced = f.unforced })

  drive-IsFaulted : (e : ScanEngine F D K) → IsFaulted e → IsFaulted (drive_outputs dev e)
  unfolding drive_outputs
  drive-IsFaulted e f =
      let r = dev.drive e.io.driver e.output_image in
      driven_bad r.1 (record e { io = record e.io { driver = r.0 } })
        (record { faulted = f.faulted; unforced = f.unforced })

  -- The outputs of a scan in FAULT.
  pub apply-faulted :
      (e : ScanEngine F D K) (ok : Bool)
      → IsFaulted e
      → IsFaulted (apply_outputs dev e ok) × IsSafeImage (apply_outputs dev e ok)
  unfolding apply_outputs
  apply-faulted e ok f =
      let published = publish_field_mode e in
      let resolved = resolve_outputs dev published ok in
      let g = quiet-IsFaulted (publish-IsQuiet e) f in
      let safe_image = resolve-IsSafeImage published ok (force_safe_in_fault published ok g) in
      (
        drive-IsFaulted resolved
            (unfold resolve_outputs in (record { faulted = g.faulted; unforced = g.unforced })),
        driven-IsSafeImage (drive-IsDriven resolved) safe_image,
      )
