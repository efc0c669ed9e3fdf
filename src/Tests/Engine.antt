-- ===== src/Tests/Engine.antt =====
-- Runs of the scan engine (crates/plc-scan/src/engine.rs).
use my_soft_plc.Prelude.{ℕ, ◌+◌, ◌/◌, ◌≡◌, refl, Bool, true, false, none, some, [], ◌∷◌}
use my_soft_plc.Types.Ascii.{bytes}
use my_soft_plc.Types.OperatingMode.{executes_logic}
use my_soft_plc.Types.Quality.{good}
use my_soft_plc.Io.Value.{bool}
use my_soft_plc.Io.Image.{ProcessImage}
use my_soft_plc.Io.Force.{force_safe}
use my_soft_plc.Scan.Engine.State.{
  ScanEngine, Devices, safe, current_mode, enter_fault, no_runtime, safe_reset, installed,
}
use my_soft_plc.Scan.Engine.Cycle.{begun, invoke, logic_phase}
use my_soft_plc.Scan.Engine.Install.{try_epoch_install}
use my_soft_plc.Scan.Engine.FailSafe.{IsFailSafe}
use my_soft_plc.Scan.Engine.FailSafe.Invocations.{invoke-IsFailSafe, logic}
use my_soft_plc.Scan.Engine.Atomic.{Installs, try_epoch_install-Installs}
use my_soft_plc.Vm.State
use my_soft_plc.Vm.State.{Vm, default_config}
use my_soft_plc.Tests.Bytecode.{program, looping}
use my_soft_plc.Tests.Machine.{machine}

-- A driver without inputs that takes every image, and a clock that goes on by a millisecond at each
-- reading.
abbrev devices : Devices ℕ ℕ ℕ
devices = record {
  floats = machine;
  poll_inputs = λ d update. (d, update, true);
  fill_output_module_state = λ d states. (states, false);
  drive = λ d image. (d, true);
  now_ns = λ k. (k + 1000000, k);
}

abbrev image : ProcessImage ℕ
image = record {
  inputs = [];
  outputs = record { value = bool true; quality = good; written = true } ∷ [];
  memory = [];
  input_meta = [];
  output_meta = [];
  memory_meta = [];
  output_safe = bool false ∷ [];
}

-- In RUN, with a program that has no entry of the name in the plan, and a force on the output.
abbrev engine : ScanEngine ℕ ℕ ℕ
engine = record {
  plan = record {
    tasks = record { name = bytes "main"; period_ms = 10; entry = bytes "lost"; priority = 1 } ∷ [];
    overrun_limit = 2;
    stop_output_policy = safe;
    fault_on_module_bad = false;
  };
  io = record {
    image = image;
    driver = 0;
    remote_inputs = none;
    forces = record { forces = (0, bool true) ∷ [] };
    module_quality = good;
    on_bad_quality = force_safe;
    field_gate = none;
  };
  vm = some (State.armed machine (program looping) default_config);
  clock = 0;
  modes = record { raw_mode = 1; pending = 0; rejections = 0 };
  overruns_total = 0;
  sw_wd = record { overrun_limit = 2; counts = 0 ∷ [] };
  hw_strokes = 0;
  retain = record { dirty = false; seq = 0 };
  hooks = record {
    raw_phase = 0;
    requested = false;
    first_scans = false ∷ [];
    in_invocation = false;
  };
  tasks = no_runtime ∷ [];
  schedule_order = 0 ∷ [];
  input_scratch = record { values = []; quality = []; seq = 0 };
  output_image = record { values = []; force_safe = true };
  output_slot_state = [];
  first_run_complete = true;
  min_duration_us = 0 ∷ [];
  last_ran = none;
  armed = none;
  current_id = none;
  current_hash = none;
  bumpless_hold = false;
  install_min_duration_us = 0;
  activate_deferred_count = 0;
  last_activate_deferred = false;
}

abbrev sampled : ScanEngine ℕ ℕ ℕ
sampled = (begun devices engine).0

-- The machine gets the first-scan bit, and its run fails on the name.
abbrev lost : ScanEngine ℕ ℕ ℕ × Bool
lost = (
  enter_fault (record sampled {
    vm =
        some (record (State.armed machine (program looping) default_config) { first_scan = false });
  }),
  false,
)

in_run : executes_logic (current_mode sampled) ≡ true
unfolding begun executes_logic current_mode
in_run = refl

run_fails : logic_phase devices sampled 0 ((begun devices engine).1 / 1000000) ≡ some lost
unfolding logic_phase begun State.armed default_config
run_fails = refl

invoke-IsFailSafe_example :
    (r : ScanEngine ℕ ℕ ℕ × ℕ) × (invoke devices engine 0 ≡ some r) × IsFailSafe r.0
invoke-IsFailSafe_example = invoke-IsFailSafe devices engine 0 lost in_run run_fails (logic refl)

-- A program that is armed, and an activation that is requested.
abbrev ready : ScanEngine ℕ ℕ ℕ
ready = record engine {
  hooks = record {
    raw_phase = 2;
    requested = true;
    first_scans = false ∷ [];
    in_invocation = false;
  };
  armed = some (record {
    vm = State.armed machine (program looping) default_config;
    program_id = bytes "next";
    compatibility_hash = bytes "0";
    task_entries = bytes "task.main" ∷ [];
    restart_policy = safe_reset;
    retain_copies = [];
  });
}

is_installed : (try_epoch_install devices ready).1 ≡ installed
unfolding try_epoch_install
is_installed = refl

try_epoch_install-Installs_example :
    Installs ready (try_epoch_install devices ready).0 (try_epoch_install devices ready).1
try_epoch_install-Installs_example = try_epoch_install-Installs devices ready
