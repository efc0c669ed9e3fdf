-- ===== src/Tests/Outputs.antt =====
-- Runs of the process image (crates/plc-io).
use my_soft_plc.Prelude.{ℕ, ◌≡◌, ◌≢◌, ◌↔◌, refl, true, false, none, List, [], ◌∷◌}
use my_soft_plc.Types.OperatingMode.{run}
use my_soft_plc.Types.Quality.{bad}
use my_soft_plc.Io.Value.{dint_type, time_type, dint, value_type, default_of}
use my_soft_plc.Prelude.Int.{pos}
use my_soft_plc.Io.Force.{
  force_safe, EffectiveSource, program, module_safe, EffectiveOutputInput, resolve_effective_output,
  get, is_empty,
}
use my_soft_plc.Io.Force.Priority.{IsLive, IsForced, resolve_effective_output_lem}
use my_soft_plc.Io.Force.Overlay.{ForceOp, sets, clears, latest, get-run-latest}
use my_soft_plc.Io.Force.Overlay.{run as run_forces}
use my_soft_plc.Io.DoubleBuffer.{Event, publishes, writer_moves, reads, reader_moves}
use my_soft_plc.Io.DoubleBuffer.Publications.{newest, IsSound, run-IsPublished}
use my_soft_plc.Io.DoubleBuffer.Publications.{run as run_buffer}

abbrev gate : EffectiveOutputInput ℕ
gate = record {
  mode = run;
  global_force_safe = false;
  module_quality = bad;
  on_bad_quality = force_safe;
  force = none;
  program_value = 1;
  program_written = true;
  safe_state = 0;
}

module_bad : resolve_effective_output gate ≡ (0, module_safe)
unfolding resolve_effective_output
module_bad = refl

resolve_effective_output_lem_example :
    ((resolve_effective_output gate ≡ (1, program)) ↔ IsLive gate)
    × ((v : ℕ) → (resolve_effective_output gate ≡ (v, EffectiveSource.force)) ↔ IsForced gate v)
    × ((resolve_effective_output gate).1 ≢ program
        → (resolve_effective_output gate).1 ≢ EffectiveSource.force
        → (resolve_effective_output gate).0 ≡ 0)
resolve_effective_output_lem_example = resolve_effective_output_lem gate

abbrev session : List (ForceOp ℕ)
session = clears 1 ∷ sets 1 8 ∷ sets 0 7 ∷ []

get-run-latest_example :
    ((slot : ℕ) → get (run_forces session) slot ≡ latest session slot)
    × ((is_empty (run_forces session) ≡ true) ↔ ((slot : ℕ) → latest session slot ≡ none))
get-run-latest_example = get-run-latest session

abbrev zero_real : ℕ
zero_real = 0

-- The default of TIME has another type.
default_of_time :
    (default_of zero_real time_type ≡ dint (pos 0))
    × (value_type (default_of zero_real time_type) ≡ dint_type)
unfolding default_of value_type
default_of_time = (refl, refl)

-- A reader copies the front between two publications of which the second is not complete.
abbrev interleaved : List (Event ℕ)
interleaved =
    reader_moves
    ∷ writer_moves
    ∷ writer_moves
    ∷ publishes 9
    ∷ reader_moves
    ∷ reader_moves
    ∷ writer_moves
    ∷ writer_moves
    ∷ writer_moves
    ∷ publishes 8
    ∷ reads
    ∷ []

run-IsPublished_example :
    ((run_buffer 0 4 interleaved).system.buffer.front
      ≡ newest 0 (run_buffer 0 4 interleaved).history)
    × IsSound 0 (run_buffer 0 4 interleaved).history (run_buffer 0 4 interleaved).system.reader
run-IsPublished_example = run-IsPublished 0 4 interleaved
