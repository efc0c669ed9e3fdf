-- ===== src/Scan/Engine/Cycle.antt =====
-- Invocations and the loop over the tasks that are due (crates/plc-scan/src/engine.rs, status.rs).
use my_soft_plc.Prelude.{
  ℕ, ◌+◌, ◌-◌, ◌/◌, ◌%◌, ◌^◌, Bool, true, false, ◌&&◌, ◌||◌, Option, none, some, List, [], ◌∷◌, leb,
  get_or, set, max, min, if◌then◌else◌,
}
use my_soft_plc.Types.OperatingMode.{OperatingMode, executes_logic}
use my_soft_plc.Scan.EpochHooks.{set_in_invocation, first_scan, clear_first_scan}
use my_soft_plc.Scan.Watchdog.{note, saturating_suc}
use my_soft_plc.Scan.Engine.State.{
  TaskRuntime, ScanEngine, Devices, saturating_add_u64, saturating_mul_1000, period_of, runtime_of,
  current_mode, enter_fault, pick_due, read_clock,
}
use my_soft_plc.Scan.Engine.Requests.{apply_mode_boundary}
use my_soft_plc.Scan.Engine.Install.{try_epoch_install}
use my_soft_plc.Scan.Engine.Phases.{sample_inputs, run_logic, apply_outputs}

abbrev bucket_bounds : List ℕ
bucket_bounds = 100 ∷ 500 ∷ 1000 ∷ 2000 ∷ 5000 ∷ 10000 ∷ 20000 ∷ 50000 ∷ 100000 ∷ []

abbrev bucket_from : List ℕ → ℕ → ℕ
bucket_from [] us = 0
bucket_from (bound ∷ rest) us =
    let later = bucket_from rest us in if leb us bound then 0 else later + 1

unfoldable pub duration_bucket : ℕ → ℕ
duration_bucket us = bucket_from bucket_bounds us

-- The statistics of a task after an invocation.
unfoldable pub record_duration : TaskRuntime → ℕ → TaskRuntime
unfolding duration_bucket
record_duration t duration_us =
    let bucket = duration_bucket duration_us in
    record t {
      last_us = duration_us;
      max_us = max t.max_us duration_us;
      sum_us = saturating_add_u64 t.sum_us duration_us;
      samples = saturating_add_u64 t.samples 1;
      duration_buckets =
          set t.duration_buckets bucket (saturating_add_u64 (get_or t.duration_buckets bucket 0) 1);
    }

pub data StepOutcome : Type 0 where
  idle : (next_due_ms : ℕ) → StepOutcome
  ran : (task duration_us : ℕ) → StepOutcome

abbrev earliest : List TaskRuntime → ℕ
earliest [] = 0
earliest (t ∷ []) = t.next_due_ms
earliest (t ∷ u ∷ rest) = min t.next_due_ms (earliest (u ∷ rest))

module _ {ℓ} {F D K : Type ℓ} where
  unfoldable pub next_wakeup_ms : ScanEngine F D K → ℕ
  next_wakeup_ms e = earliest e.tasks

  abbrev pub with_runtime : ScanEngine F D K → ℕ → TaskRuntime → ScanEngine F D K
  with_runtime e task t = record e { tasks = set e.tasks task t }

  -- The logic where the mode executes it, and FAULT where it fails.
  unfoldable pub logic_result : Option (ScanEngine F D K × Bool) → Option (ScanEngine F D K × Bool)
  unfolding enter_fault
  logic_result none = none
  logic_result (some (e, true)) = some (e, true)
  logic_result (some (e, false)) = some (enter_fault e, false)

  -- The overruns of an invocation that executed logic.
  unfoldable pub count_overrun : ScanEngine F D K → ℕ → ℕ → ScanEngine F D K
  count_overrun e task duration_us =
      let t = runtime_of e task in
      if leb (saturating_mul_1000 (period_of e task)) duration_us
      then record e {
        tasks = set e.tasks task (record t { overruns = saturating_suc t.overruns });
        overruns_total = (e.overruns_total + 1) % 2 ^ 64;
      }
      else e

  unfoldable pub watch : ScanEngine F D K → ℕ → ℕ → ScanEngine F D K
  unfolding note count_overrun enter_fault
  watch e task duration_us =
      let (sw_wd, trip) = note e.sw_wd task duration_us (period_of e task) in
      let counted = count_overrun (record e { sw_wd = sw_wd }) task duration_us in
      if trip then enter_fault counted else counted

  -- What follows the outputs: the watchdog, the first scan, and the next time of the task.
  unfoldable pub finish : ScanEngine F D K → ℕ → Bool → ScanEngine F D K
  unfolding first_scan clear_first_scan set_in_invocation
  finish e task ran_logic_ok =
      let t = runtime_of e task in
      let hooks =
        if ran_logic_ok && first_scan e.hooks task
        then clear_first_scan e.hooks task
        else e.hooks in
      record e {
        hw_strokes = e.hw_strokes + 1;
        hooks = set_in_invocation hooks false;
        tasks =
            set e.tasks task
              (record t { next_due_ms = saturating_add_u64 t.next_due_ms (period_of e task) });
        last_ran = some task;
      }

module _ {ℓ} {F D K : Type ℓ} (dev : Devices F D K) where
  unfoldable pub logic_phase : ScanEngine F D K → ℕ → ℕ → Option (ScanEngine F D K × Bool)
  unfolding current_mode executes_logic run_logic logic_result
  logic_phase e task now_ms =
      let ran = logic_result (run_logic dev e task now_ms) in
      if executes_logic (current_mode e) then ran else some (e, false)

  -- The duration of an invocation, with the least one that a test may set.
  unfoldable pub elapsed_us : ScanEngine F D K → ℕ → ℕ → ℕ
  unfolding read_clock
  elapsed_us e task t0 = max (get_or e.min_duration_us task 0) (((read_clock dev e).1 - t0) / 1000)

  -- From the statistics on.
  unfoldable pub completed : ScanEngine F D K → ℕ → ℕ → Bool → ScanEngine F D K
  unfolding record_duration apply_outputs finish
  completed e task duration_us ran_logic_ok =
      let recorded = with_runtime e task (record_duration (runtime_of e task) duration_us) in
      let driven = apply_outputs dev recorded ran_logic_ok in
      finish (record driven { first_run_complete = driven.first_run_complete || ran_logic_ok }) task
        ran_logic_ok

  -- From the duration on; `mode` is the one of the logic phase.
  unfoldable pub complete : ScanEngine F D K → ℕ → OperatingMode → ℕ → Bool → ScanEngine F D K × ℕ
  unfolding read_clock elapsed_us executes_logic watch completed
  complete e task mode t0 ran_logic_ok =
      let timed = (read_clock dev e).0 in
      let duration_us = elapsed_us e task t0 in
      let watched = if executes_logic mode then watch timed task duration_us else timed in
      (completed watched task duration_us ran_logic_ok, duration_us)

  unfoldable pub complete_logic :
      OperatingMode → ℕ → ℕ → Option (ScanEngine F D K × Bool) → Option (ScanEngine F D K × ℕ)
  unfolding complete
  complete_logic mode task t0 none = none
  complete_logic mode task t0 (some (e, ran_logic_ok)) = some (complete e task mode t0 ran_logic_ok)

  -- The engine after the inputs of an invocation, and the time of its start.
  unfoldable pub begun : ScanEngine F D K → ScanEngine F D K × ℕ
  unfolding set_in_invocation read_clock sample_inputs
  begun e =
      let (started, t0) = read_clock dev (record e { hooks = set_in_invocation e.hooks true }) in
      (sample_inputs dev started, t0)

  -- One invocation of a task, and its duration.
  unfoldable pub invoke : ScanEngine F D K → ℕ → Option (ScanEngine F D K × ℕ)
  unfolding begun current_mode logic_phase complete_logic
  invoke e task =
      let (sampled, t0) = begun e in
      complete_logic (current_mode sampled) task t0 (logic_phase sampled task (t0 / 1000000))

  -- `some` of a task and its duration, or `none` where no task was due.
  unfoldable pub invoke_due :
      ScanEngine F D K → Option ℕ → Option (ScanEngine F D K × Option (ℕ × ℕ))
  unfolding invoke
  invoke_due e none = some (e, none)
  invoke_due e (some task) = elim (invoke e task) [
    | none ↦ none
    | some (e', duration_us) ↦ some (e', some (task, duration_us))
  ]

  -- An attempt to install, and then the task that is due.
  unfoldable pub due_turn : ScanEngine F D K → Option (ScanEngine F D K × Option (ℕ × ℕ))
  unfolding try_epoch_install read_clock pick_due invoke_due
  due_turn e =
      let (installed, outcome) = try_epoch_install dev e in
      let (timed, now_ns) = read_clock dev installed in
      invoke_due timed (pick_due timed (now_ns / 1000000))

  step_outcome :
      Option (ScanEngine F D K × Option (ℕ × ℕ)) → Option (ScanEngine F D K × StepOutcome)
  unfolding next_wakeup_ms
  step_outcome none = none
  step_outcome (some (e, none)) = some (e, idle (next_wakeup_ms e))
  step_outcome (some (e, some (task, duration_us))) = some (e, ran task duration_us)

  unfoldable pub step : ScanEngine F D K → Option (ScanEngine F D K × StepOutcome)
  unfolding apply_mode_boundary due_turn step_outcome
  step e = step_outcome (due_turn (apply_mode_boundary e))
