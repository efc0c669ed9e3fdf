-- ===== src/Scan/Engine/State.antt =====
-- The state of the scan engine and its requests (crates/plc-scan/src/engine.rs, epoch.rs). The
-- driver and the clock are parameters: each call takes their state and gives the next.
use my_soft_plc.Prelude.{
  ℕ, ◌+◌, ◌-◌, ◌*◌, ◌^◌, Bool, true, false, Option, none, some, List, [], ◌∷◌, leb, get_or, min,
  if◌then◌else◌,
}
use my_soft_plc.Types.OperatingMode.{OperatingMode, fault}
use my_soft_plc.Types.ProgramPhase.{ProgramPhase, swapping}
use my_soft_plc.Types.Quality.{Quality}
use my_soft_plc.Io.Value.{PlcValue}
use my_soft_plc.Io.Image.{ProcessImage, InputUpdate, OutputImage, OutputModuleState}
use my_soft_plc.Io.Force
use my_soft_plc.Io.Force.{ForceTable, BadQualityPolicy}
use my_soft_plc.Io.FieldGate.{FieldGate}
use my_soft_plc.Scan.ModeCell.{ModeCell, mode, set_mode}
use my_soft_plc.Scan.EpochHooks.{EpochHooks}
use my_soft_plc.Scan.Watchdog.{SoftwareWatchdog}
use my_soft_plc.Scan.RetainSignal.{RetainDirtySignal}
use my_soft_plc.Vm.Value.{FloatOps}
use my_soft_plc.Vm.State.{Vm}

pub record TaskPlan : Type 0 where
  pub name : List ℕ
  pub period_ms : ℕ  -- u32
  pub entry : List ℕ
  pub priority : ℕ  -- u8

pub data StopOutputPolicy : Type 0 where
  safe hold : StopOutputPolicy

-- The fields for the telemetry are left out.
pub record ScanPlan : Type 0 where
  pub tasks : List TaskPlan
  pub overrun_limit : ℕ
  pub stop_output_policy : StopOutputPolicy
  pub fault_on_module_bad : Bool

pub record TaskRuntime : Type 0 where
  pub next_due_ms : ℕ  -- u64, as the times and sums
  pub last_us : ℕ
  pub max_us : ℕ
  pub sum_us : ℕ
  pub samples : ℕ
  pub duration_buckets : List ℕ
  pub overruns : ℕ  -- u32

pub data OutputRestartPolicy : Type 0 where
  safe_reset bumpless : OutputRestartPolicy

pub record RetainCopy : Type 0 where
  pub src_offset : ℕ
  pub dst_offset : ℕ
  pub len : ℕ

pub data ActivateRequest : Type 0 where
  pending no_op : ActivateRequest

pub data InstallOutcome : Type 0 where
  idle installed deferred faulted : InstallOutcome

-- The errors of `arm`, `disarm` and `request_activate`; the texts are left out.
pub data ScanError : Type 0 where
  invalid_state config image_mismatch : ScanError

module _ {ℓ} where
  pub record ArmedProgram (F : Type ℓ) : Type ℓ where
    pub vm : Vm F
    pub program_id : List ℕ
    pub compatibility_hash : List ℕ
    pub task_entries : List (List ℕ)
    pub restart_policy : OutputRestartPolicy
    pub retain_copies : List RetainCopy

  -- `remote_inputs` is the snapshot that the double buffer gives.
  pub record ScanIo (F D : Type ℓ) : Type ℓ where
    pub image : ProcessImage F
    pub driver : D
    pub remote_inputs : Option (List (PlcValue F × Quality))
    pub forces : ForceTable (PlcValue F)
    pub module_quality : Quality
    pub on_bad_quality : BadQualityPolicy
    pub field_gate : Option FieldGate

  -- `hw_strokes` counts the calls of the hardware watchdog.
  pub record ScanEngine (F D K : Type ℓ) : Type ℓ where
    pub plan : ScanPlan
    pub io : ScanIo F D
    pub vm : Option (Vm F)
    pub clock : K
    pub modes : ModeCell
    pub overruns_total : ℕ  -- u64
    pub sw_wd : SoftwareWatchdog
    pub hw_strokes : ℕ
    pub retain : RetainDirtySignal
    pub hooks : EpochHooks
    pub tasks : List TaskRuntime
    pub schedule_order : List ℕ
    pub input_scratch : InputUpdate F
    pub output_image : OutputImage F
    pub output_slot_state : List OutputModuleState
    pub first_run_complete : Bool
    pub min_duration_us : List ℕ
    pub last_ran : Option ℕ
    pub armed : Option (ArmedProgram F)
    pub current_id : Option (List ℕ)
    pub current_hash : Option (List ℕ)
    pub bumpless_hold : Bool
    pub install_min_duration_us : ℕ
    pub activate_deferred_count : ℕ  -- u64
    pub last_activate_deferred : Bool

  -- The floats, a driver and a clock: `true` stands for `Ok`, and an error of a driver has no more.
  pub record Devices (F D K : Type ℓ) : Type ℓ where
    pub floats : FloatOps F
    pub poll_inputs : D → InputUpdate F → D × InputUpdate F × Bool
    pub fill_output_module_state : D → List OutputModuleState → List OutputModuleState × Bool
    pub drive : D → OutputImage F → D × Bool
    pub now_ns : K → K × ℕ

-- A task that the plan does not have; the tasks are taken from the order of the plan.
abbrev pub no_task : TaskPlan
no_task = record { name = []; period_ms = 0; entry = []; priority = 0 }

abbrev pub no_runtime : TaskRuntime
no_runtime = record {
  next_due_ms = 0;
  last_us = 0;
  max_us = 0;
  sum_us = 0;
  samples = 0;
  duration_buckets = [];
  overruns = 0;
}

abbrev pub saturating_add_u64 : ℕ → ℕ → ℕ
saturating_add_u64 a b = min (a + b) (2 ^ 64 - 1)

-- `saturating_mul(1000)` of a `u64`.
abbrev pub saturating_mul_1000 : ℕ → ℕ
saturating_mul_1000 n = min (n * 1000) (2 ^ 64 - 1)

abbrev pub is_swapping : ProgramPhase → Bool
is_swapping swapping = true
is_swapping _ = false

-- The first task of an order that is due.
unfoldable pub first_due : List TaskRuntime → List ℕ → ℕ → Option ℕ
first_due tasks [] now_ms = none
first_due tasks (i ∷ rest) now_ms =
    let later = first_due tasks rest now_ms in
    if leb (get_or tasks i no_runtime).next_due_ms now_ms then some i else later

module _ {ℓ} {F D K : Type ℓ} where
  abbrev pub period_of : ScanEngine F D K → ℕ → ℕ
  period_of e task = (get_or e.plan.tasks task no_task).period_ms

  abbrev pub runtime_of : ScanEngine F D K → ℕ → TaskRuntime
  runtime_of e task = get_or e.tasks task no_runtime

  unfoldable pub current_mode : ScanEngine F D K → OperatingMode
  unfolding mode
  current_mode e = mode e.modes

  unfoldable pub enter_fault : ScanEngine F D K → ScanEngine F D K
  unfolding set_mode Force.clear_all
  enter_fault e = record e {
    modes = set_mode e.modes fault;
    io = record e.io { forces = Force.clear_all e.io.forces };
  }

  unfoldable pub pick_due : ScanEngine F D K → ℕ → Option ℕ
  unfolding first_due
  pick_due e now_ms = first_due e.tasks e.schedule_order now_ms

module _ {ℓ} {F D K : Type ℓ} (dev : Devices F D K) where
  -- A reading of the clock, in nanoseconds; `now_ms` divides one.
  unfoldable pub read_clock : ScanEngine F D K → ScanEngine F D K × ℕ
  read_clock e = let (clock, now) = dev.now_ns e.clock in (record e { clock = clock }, now)
