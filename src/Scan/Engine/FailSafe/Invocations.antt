-- ===== src/Scan/Engine/FailSafe/Invocations.antt =====
-- An invocation that fails (crates/plc-scan/src/engine.rs).
use my_soft_plc.Prelude.{
  ℕ, ◌/◌, ◌≡◌, refl, ap, sym, subst, subst, ◌∙◌, arith, Bool, true, false, Option, none, some,
  if◌then◌else◌,
}
use my_soft_plc.Types.OperatingMode.{OperatingMode, executes_logic}
use my_soft_plc.Scan.EpochHooks.{set_in_invocation}
use my_soft_plc.Scan.Watchdog.{note}
use my_soft_plc.Scan.Engine.State.{
  ScanEngine, Devices, current_mode, enter_fault, read_clock, runtime_of, period_of,
}
use my_soft_plc.Scan.Engine.Phases.{run_logic}
use my_soft_plc.Scan.Engine.Cycle.{
  invoke, begun, elapsed_us, logic_phase, logic_result, complete_logic, complete, completed, watch,
  count_overrun, record_duration, finish, with_runtime,
}
use my_soft_plc.Scan.Engine.FailSafe.{
  IsFaulted, IsQuiet, IsFailSafe, quiet-IsFaulted, enter_fault-IsFaulted, fault_again,
  apply-faulted,
}

module _ {ℓ} {F D K : Type ℓ} where
  count_overrun-IsQuiet : (e : ScanEngine F D K) (task us : ℕ) → IsQuiet e (count_overrun e task us)
  unfolding count_overrun
  count_overrun-IsQuiet e task us = record {
    modes = ground arith;
    forces = ground arith;
    image = ground arith;
  }

  watch-IsFaulted : (e : ScanEngine F D K) (task us : ℕ) → IsFaulted e → IsFaulted (watch e task us)
  unfolding watch
  watch-IsFaulted e task us f =
      let noted = note e.sw_wd task us (period_of e task) in
      let watched = record e { sw_wd = noted.0 } in
      fault_again noted.1 (count_overrun watched task us) (
        quiet-IsFaulted (count_overrun-IsQuiet watched task us)
          (record { faulted = f.faulted; unforced = f.unforced }))

module _ {ℓ} {F D K : Type ℓ} (dev : Devices F D K) where
  completed-IsFailSafe :
      (watched : ScanEngine F D K) (task us : ℕ) (ok : Bool)
      → IsFaulted watched
      → IsFailSafe (completed dev watched task us ok)
  unfolding completed finish
  completed-IsFailSafe watched task us ok f =
      let recorded = with_runtime watched task (record_duration (runtime_of watched task) us) in
      let (g, s) =
        apply-faulted dev recorded ok (record { faulted = f.faulted; unforced = f.unforced }) in
      record {
        faulted = record { faulted = g.faulted; unforced = g.unforced };
        image = record { all_safe = s.all_safe; each = s.each };
        quiet = unfold set_in_invocation in refl;
      }

  -- The logic phase fails, or the watchdog trips on what it took.
  pub data Fails (ran : ScanEngine F D K × Bool) (task t0 : ℕ) : Type ℓ where
    logic : ran.1 ≡ false → Fails ran task t0
    overrun :
        (note ran.0.sw_wd task (elapsed_us dev ran.0 task t0) (period_of ran.0 task)).1 ≡ true
        → Fails ran task t0

  logic_result-IsFaulted :
      (o : Option (ScanEngine F D K × Bool)) (e : ScanEngine F D K) (ok : Bool)
      → logic_result o ≡ some (e, ok)
      → ok ≡ false
      → IsFaulted e
  unfolding logic_result
  logic_result-IsFaulted none e ok h k = cc
  logic_result-IsFaulted (some (e, true)) e' ok h k = ground arith
  logic_result-IsFaulted (some (e, false)) e' ok h k =
      let same : enter_fault e ≡ e' = ground arith in
      subst (λ x. IsFaulted x) same (enter_fault-IsFaulted e)

  watch-trips :
      (e : ScanEngine F D K) (task us : ℕ)
      → (note e.sw_wd task us (period_of e task)).1 ≡ true
      → IsFaulted (watch e task us)
  unfolding watch
  watch-trips e task us trip = rw trip (
      enter_fault-IsFaulted
        (count_overrun (record e { sw_wd = (note e.sw_wd task us (period_of e task)).0 }) task us))

  fails-IsFaulted :
      (e : ScanEngine F D K) (ok : Bool) (task t0 : ℕ)
      → (ok ≡ false → IsFaulted e)
      → Fails (e, ok) task t0
      → IsFaulted (watch (read_clock dev e).0 task (elapsed_us dev e task t0))
  unfolding read_clock
  fails-IsFaulted e ok task t0 k (logic failed) =
      let f = k failed in
      watch-IsFaulted (record e { clock = (dev.now_ns e.clock).0 }) task (elapsed_us dev e task t0)
        (record { faulted = f.faulted; unforced = f.unforced })
  fails-IsFaulted e ok task t0 k (overrun trip) =
      watch-trips (record e { clock = (dev.now_ns e.clock).0 }) task (elapsed_us dev e task t0) trip

  complete-IsFailSafe :
      (e : ScanEngine F D K) (ok : Bool) (mode : OperatingMode) (task t0 : ℕ)
      → executes_logic mode ≡ true
      → (ok ≡ false → IsFaulted e)
      → Fails (e, ok) task t0
      → IsFailSafe (complete dev e task mode t0 ok).0
  unfolding complete
  complete-IsFailSafe e ok mode task t0 x k f = rw x (
      completed-IsFailSafe (watch (read_clock dev e).0 task (elapsed_us dev e task t0)) task
        (elapsed_us dev e task t0) ok (fails-IsFaulted e ok task t0 k f))

  phase-IsFaulted :
      (sampled s : ScanEngine F D K) (ok : Bool) (task now_ms : ℕ)
      → executes_logic (current_mode sampled) ≡ true
      → logic_phase dev sampled task now_ms ≡ some (s, ok)
      → ok ≡ false
      → IsFaulted s
  unfolding logic_phase
  phase-IsFaulted sampled s ok task now_ms x h k =
      logic_result-IsFaulted (run_logic dev sampled task now_ms) s ok
        (ap
            (λ b.
              if b then logic_result (run_logic dev sampled task now_ms) else some (sampled, false))
            (sym x)
          ∙ h)
        k

  -- If the mode executes logic after the inputs are taken, and the logic of the task fails (an error
  -- of the machine, or no program) or the watchdog of overruns trips on the time that it took, then
  -- the invocation of the task ends in FAULT, with no maintenance force left, and in the image that
  -- it gives to the driver every output is at the safe state of its slot.
  pub invoke-IsFailSafe :
      (e : ScanEngine F D K) (task : ℕ) (ran : ScanEngine F D K × Bool)
      → executes_logic (current_mode (begun dev e).0) ≡ true
      → logic_phase dev (begun dev e).0 task ((begun dev e).1 / 1000000) ≡ some ran
      → Fails ran task (begun dev e).1
      → (r : ScanEngine F D K × ℕ) × (invoke dev e task ≡ some r) × IsFailSafe r.0
  unfolding invoke
  invoke-IsFailSafe e task (s, ok) x h f =
      let (sampled, t0) = begun dev e in
      let mode = current_mode sampled in
      let k = phase-IsFaulted sampled s ok task (t0 / 1000000) x h in
      (
        complete dev s task mode t0 ok,
        ap (complete_logic dev mode task t0) h ∙ (unfold complete_logic in refl),
        complete-IsFailSafe s ok mode task t0 x k f,
      )
