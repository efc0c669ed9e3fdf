-- ===== src/Scan/Engine/Install.antt =====
-- The installation of an armed program between two invocations (`try_epoch_install` of
-- crates/plc-scan/src/engine.rs).
use my_soft_plc.Prelude.{
  ℕ, ◌+◌, ◌-◌, ◌/◌, Bool, true, false, not, ◌&&◌, ◌||◌, Option, none, some, List, [], ◌∷◌, Result,
  ok, err, leb, get_or, get_elem?, min, max, ◌==◌, if◌then◌else◌,
}
use my_soft_plc.Types.ProgramPhase
use my_soft_plc.Io.Value.{PlcValue, ValueType, bool_type, bool}
use my_soft_plc.Io.Image.{SlotMeta, TypedSlot, zero_slot}
use my_soft_plc.Scan.EpochHooks.{
  set_phase, activate_requested, set_activate_requested, is_quiet, set_first_scan_all,
}
use my_soft_plc.Vm.Operators.{Fault}
use my_soft_plc.Vm.State.{Vm, blit_retain_from}
use my_soft_plc.Scan.Engine.State.{
  TaskPlan, TaskRuntime, RetainCopy, OutputRestartPolicy, safe_reset, bumpless, InstallOutcome,
  idle, installed, deferred, faulted, ArmedProgram, ScanIo, ScanEngine, Devices, no_task,
  saturating_add_u64, saturating_mul_1000, enter_fault, pick_due, read_clock,
}

abbrev pub is_bumpless : OutputRestartPolicy → Bool
is_bumpless bumpless = true
is_bumpless safe_reset = false

-- `min_task_period_us`: the least period, one millisecond if there is no task.
abbrev pub min_period : List TaskPlan → ℕ
min_period [] = 1
min_period (t ∷ []) = t.period_ms
min_period (t ∷ u ∷ rest) = min t.period_ms (min_period (u ∷ rest))

-- `plan.tasks[i].entry = entry` for the entries that have a task.
abbrev pub with_entries : List TaskPlan → List (List ℕ) → List TaskPlan
with_entries [] entries = []
with_entries (t ∷ tasks) [] = t ∷ tasks
with_entries (t ∷ tasks) (entry ∷ entries) = record t { entry = entry } ∷ with_entries tasks entries

-- The tasks from the `i`-th on: those that are due, but for the highest, wait for a period.
unfoldable pub postpone : List TaskPlan → ℕ → ℕ → ℕ → List TaskRuntime → List TaskRuntime
postpone plans highest now i [] = []
postpone plans highest now i (t ∷ rest) =
    let period = (get_or plans i no_task).period_ms in
    let later = record t { next_due_ms = saturating_add_u64 t.next_due_ms period } in
    (if not (i == highest) && leb t.next_due_ms now then later else t)
    ∷ postpone plans highest now (i + 1) rest

module _ {ℓ} {F : Type ℓ} where
  -- The kept values, copied one by one; an error leaves what was copied before it.
  unfoldable pub blit_copies : List RetainCopy → Vm F → Vm F → Vm F × Result (Unit {0}) Fault
  unfolding blit_retain_from
  blit_copies [] current vm = (vm, ok tt)
  blit_copies (c ∷ rest) current vm =
      let (vm', r) = blit_retain_from c.dst_offset current c.src_offset c.len vm in
      elim r [ err e ↦ (vm', err e) | ok done ↦ blit_copies rest current vm' ]

  unfoldable pub blit_retain_into : ArmedProgram F → Option (Vm F) → ArmedProgram F × Bool
  unfolding blit_copies
  blit_retain_into armed none = (armed, true)
  blit_retain_into armed (some current) =
      let (vm, r) = blit_copies armed.retain_copies current armed.vm in
      (record armed { vm = vm }, elim r [ ok done ↦ true | err e ↦ false ])

  -- The memory slots from the `i`-th on, zero of their types.
  unfoldable pub cold_memory : F → List SlotMeta → ℕ → List (TypedSlot F) → List (TypedSlot F)
  unfolding zero_slot
  cold_memory real_zero meta i [] = []
  cold_memory real_zero meta i (slot ∷ rest) =
      let ty : ValueType = elim (get_elem? meta i) [ none ↦ bool_type | some m ↦ m.ty ] in
      zero_slot real_zero ty ∷ cold_memory real_zero meta (i + 1) rest

  -- The outputs from the `i`-th on, at their safe states.
  unfoldable pub safe_outputs : List (PlcValue F) → ℕ → List (TypedSlot F) → List (TypedSlot F)
  safe_outputs safe i [] = []
  safe_outputs safe i (slot ∷ rest) =
      record slot { value = get_or safe i (bool false); written = true }
      ∷ safe_outputs safe (i + 1) rest

module _ {ℓ} {F D : Type ℓ} where
  unfoldable pub apply_safe_reset_outputs : ScanIo F D → ScanIo F D
  unfolding safe_outputs
  apply_safe_reset_outputs io = record io {
    image = record io.image { outputs = safe_outputs io.image.output_safe 0 io.image.outputs };
  }

module _ {ℓ} {F D K : Type ℓ} (dev : Devices F D K) where
  abbrev real_zero : F
  real_zero = dev.floats.conversions.floats.zero

  unfoldable pub cold_init_memory : ScanIo F D → ScanIo F D
  unfolding cold_memory
  cold_init_memory io = record io {
    image = record io.image {
      memory = cold_memory real_zero io.image.memory_meta 0 io.image.memory;
    };
  }

  -- `now` is a reading in milliseconds.
  unfoldable pub commit_install : ScanEngine F D K → ArmedProgram F → ℕ → ScanEngine F D K
  unfolding set_first_scan_all set_activate_requested set_phase cold_init_memory
      apply_safe_reset_outputs postpone
  commit_install e program now =
      let highest = get_or e.schedule_order 0 0 in
      let io = cold_init_memory e.io in
      record e {
        tasks = postpone e.plan.tasks highest now 0 e.tasks;
        plan = record e.plan { tasks = with_entries e.plan.tasks program.task_entries };
        current_id = some program.program_id;
        current_hash = some program.compatibility_hash;
        bumpless_hold = is_bumpless program.restart_policy;
        vm = some program.vm;
        hooks =
            set_phase (set_activate_requested (set_first_scan_all e.hooks true) false)
              ProgramPhase.idle;
        last_activate_deferred = false;
        io = if is_bumpless program.restart_policy then io else apply_safe_reset_outputs io;
      }

  -- What the preparation leads to: the program that it has changed, whether it went well, and its
  -- duration.
  unfoldable pub finish_install :
      ScanEngine F D K → ArmedProgram F → Bool → ℕ → ScanEngine F D K × InstallOutcome
  unfolding enter_fault set_activate_requested set_phase commit_install read_clock
  finish_install e program false duration_us =
      let failed = enter_fault (record e { armed = some program }) in
      (
        record failed {
          hooks = set_phase (set_activate_requested failed.hooks false) ProgramPhase.idle;
        },
        faulted,
      )
  finish_install e program true duration_us =
      let (ready, now_ns) = read_clock dev e in
      let deadline_us = saturating_mul_1000 (min_period e.plan.tasks) in
      if leb deadline_us duration_us
      then (
        record e {
          armed = some program;
          hooks = set_activate_requested (set_phase e.hooks ProgramPhase.armed) false;
          last_activate_deferred = true;
          activate_deferred_count = saturating_add_u64 e.activate_deferred_count 1;
        },
        deferred,
      )
      else (commit_install (record ready { armed = none }) program (now_ns / 1000000), installed)

  -- The critical section, from the phase `swapping` on.
  unfoldable pub install : ScanEngine F D K → ArmedProgram F → ScanEngine F D K × InstallOutcome
  unfolding set_phase read_clock blit_retain_into finish_install
  install e armed =
      let swapping = record e { hooks = set_phase e.hooks ProgramPhase.swapping } in
      let (started, t0) = read_clock dev swapping in
      let (program, went_well) = blit_retain_into armed e.vm in
      let (ended, t1) = read_clock dev started in
      finish_install ended program went_well (max e.install_min_duration_us ((t1 - t0) / 1000))

  -- Only the task of the highest priority opens the section, when it is due.
  unfoldable pub at_boundary :
      ScanEngine F D K → ArmedProgram F → Option ℕ → ScanEngine F D K × InstallOutcome
  unfolding install
  at_boundary e armed none = (e, idle)
  at_boundary e armed (some due) =
      let tried = install e armed in if due == get_or e.schedule_order 0 0 then tried else (e, idle)

  -- The guards, with the program that is armed.
  unfoldable pub attempt :
      ScanEngine F D K → Option (ArmedProgram F) → ScanEngine F D K × InstallOutcome
  unfolding activate_requested is_quiet read_clock pick_due at_boundary
  attempt e none = (e, idle)
  attempt e (some armed) =
      let (timed, now_ns) = read_clock dev e in
      let tried = at_boundary timed armed (pick_due timed (now_ns / 1000000)) in
      if not (activate_requested e.hooks) || not (is_quiet e.hooks) then (e, idle) else tried

  unfoldable pub try_epoch_install : ScanEngine F D K → ScanEngine F D K × InstallOutcome
  unfolding attempt
  try_epoch_install e = attempt e e.armed
