-- ===== src/Scan/Watchdog.antt =====
-- The software watchdog of crates/plc-scan/src/watchdog.rs: for each task the number of
-- consecutive overruns.
pub mod Trip
use my_soft_plc.Prelude.{
  ℕ, ◌+◌, ◌*◌, ◌-◌, ◌^◌, Bool, true, false, Option, none, some, List, leb, min, max, get_elem?,
  get_or, set, replicate, if◌then◌else◌,
}

pub record SoftwareWatchdog : Type 0 where
  pub overrun_limit : ℕ  -- u32
  pub counts : List ℕ  -- u32, one for each task

unfoldable pub new : ℕ → ℕ → SoftwareWatchdog
new n_tasks overrun_limit = record {
  overrun_limit = max overrun_limit 1;
  counts = replicate n_tasks 0;
}

-- `saturating_add(1)` of a `u32`, and `saturating_mul(1000)` of a `u64`.
abbrev pub saturating_suc : ℕ → ℕ
saturating_suc n = min (n + 1) (2 ^ 32 - 1)

abbrev pub budget : ℕ → ℕ
budget period_ms = min (period_ms * 1000) (2 ^ 64 - 1)

note_slot : SoftwareWatchdog → ℕ → ℕ → ℕ → Option ℕ → SoftwareWatchdog × Bool
note_slot w task duration_us period_ms none = (w, false)
note_slot w task duration_us period_ms (some slot) =
    if leb (budget period_ms) duration_us
    then (
      record w { counts = set w.counts task (saturating_suc slot) },
      leb w.overrun_limit (saturating_suc slot),
    )
    else (record w { counts = set w.counts task 0 }, false)

-- The new state, and whether the task has reached the limit.
unfoldable pub note : SoftwareWatchdog → ℕ → ℕ → ℕ → SoftwareWatchdog × Bool
unfolding note_slot
note w task duration_us period_ms = note_slot w task duration_us period_ms (get_elem? w.counts task)

unfoldable pub consecutive : SoftwareWatchdog → ℕ → ℕ
consecutive w task = get_or w.counts task 0
