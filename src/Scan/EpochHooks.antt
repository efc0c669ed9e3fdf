-- ===== src/Scan/EpochHooks.antt =====
-- The epoch cell of crates/plc-scan/src/hooks.rs. The atomics are read and written singly; a vector
-- of flags is a list.
pub mod FirstScan
use my_soft_plc.Prelude.{
  ℕ, ◌+◌, Bool, true, false, not, Option, none, some, List, [], ◌∷◌, map, get_or, set, replicate,
  ◌==◌, if◌then◌else◌,
}
use my_soft_plc.Types.ProgramPhase.{ProgramPhase, idle, validating, armed, swapping}

unfoldable pub encode_phase : ProgramPhase → ℕ
encode_phase idle = 0
encode_phase validating = 1
encode_phase armed = 2
encode_phase swapping = 3

unfoldable pub decode_phase : ℕ → ProgramPhase
decode_phase raw =
    if raw == 1 then validating else if raw == 2 then armed else if raw == 3 then swapping else idle

pub record EpochHooks : Type 0 where
  pub raw_phase : ℕ  -- u8
  pub requested : Bool
  pub first_scans : List Bool
  pub in_invocation : Bool

unfoldable pub new : ℕ → EpochHooks
new n_tasks = record {
  raw_phase = 0;
  requested = false;
  first_scans = replicate n_tasks false;
  in_invocation = false;
}

unfoldable pub phase : EpochHooks → ProgramPhase
unfolding decode_phase
phase h = decode_phase h.raw_phase

unfoldable pub set_phase : EpochHooks → ProgramPhase → EpochHooks
unfolding encode_phase
set_phase h p = record h { raw_phase = encode_phase p }

unfoldable pub activate_requested : EpochHooks → Bool
activate_requested h = h.requested

unfoldable pub set_activate_requested : EpochHooks → Bool → EpochHooks
set_activate_requested h v = record h { requested = v }

unfoldable pub is_quiet : EpochHooks → Bool
is_quiet h = not h.in_invocation

unfoldable pub set_in_invocation : EpochHooks → Bool → EpochHooks
set_in_invocation h v = record h { in_invocation = v }

unfoldable pub first_scan : EpochHooks → ℕ → Bool
first_scan h task_idx = get_or h.first_scans task_idx false

unfoldable pub set_first_scan_all : EpochHooks → Bool → EpochHooks
set_first_scan_all h v = record h { first_scans = map (λ _. v) h.first_scans }

-- Out of range nothing is written.
unfoldable pub clear_first_scan : EpochHooks → ℕ → EpochHooks
clear_first_scan h task_idx = record h { first_scans = set h.first_scans task_idx false }
