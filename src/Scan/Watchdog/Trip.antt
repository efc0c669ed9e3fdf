-- ===== src/Scan/Watchdog/Trip.antt =====
-- When the watchdog trips (crates/plc-scan/src/watchdog.rs).
use my_soft_plc.Prelude.{
  ℕ, zero, suc, ◌-◌, ◌^◌, ◌<◌, ◌≤◌, ◌≡◌, ◌∙◌, refl, Bool, ◌&&◌, Option, none, some, List, [], ◌∷◌,
  arith, leb, min, max, ◌==◌, get_elem?, get_elem?-set, replicate, if◌then◌else◌,
}
use my_soft_plc.Scan.Watchdog.{SoftwareWatchdog, new, note, note_slot, saturating_suc, budget}

-- An invocation: its task, its duration and the period of its task.
pub record Invocation : Type 0 where
  pub task : ℕ
  pub duration_us : ℕ
  pub period_ms : ℕ

-- The invocation took its whole period or longer.
abbrev pub overran : Invocation → Bool
overran i = leb (budget i.period_ms) i.duration_us

abbrev pub note_one : SoftwareWatchdog → Invocation → SoftwareWatchdog × Bool
note_one w i = note w i.task i.duration_us i.period_ms

-- The invocations of all tasks, the newest first.
abbrev pub run : SoftwareWatchdog → List Invocation → SoftwareWatchdog
run w [] = w
run w (i ∷ older) = (note_one (run w older) i).0

-- How many of a task's newest invocations have overrun, one after another.
abbrev pub streak : ℕ → List Invocation → ℕ
streak task [] = 0
streak task (i ∷ older) =
    let longer = streak task older in
    if i.task == task then (if overran i then suc longer else 0) else longer

abbrev next_count : Invocation → ℕ → ℕ → ℕ
next_count i task n = if i.task == task then (if overran i then saturating_suc n else 0) else n

note_slot_counts :
    (w : SoftwareWatchdog) (i : Invocation) (task n : ℕ) (slot : Option ℕ)
    → get_elem? w.counts i.task ≡ slot
    → get_elem? w.counts task ≡ some n
    → get_elem? (note_slot w i.task i.duration_us i.period_ms slot).0.counts task
      ≡ some (next_count i task n)
unfolding note_slot
note_slot_counts w i task n none e h = ground arith
note_slot_counts w i task n (some k) e h = ground (
  arith,
  get_elem?-set w.counts i.task task 0,
  get_elem?-set w.counts i.task task (saturating_suc k),
)

note_counts :
    (w : SoftwareWatchdog) (i : Invocation) (task n : ℕ)
    → get_elem? w.counts task ≡ some n
    → get_elem? (note_one w i).0.counts task ≡ some (next_count i task n)
unfolding note
note_counts w i task n h = note_slot_counts w i task n (get_elem? w.counts i.task) refl h

note-limit :
    (w : SoftwareWatchdog) (i : Invocation) → (note_one w i).0.overrun_limit ≡ w.overrun_limit
unfolding note
note-limit w i = ground arith

note_trips :
    (w : SoftwareWatchdog) (i : Invocation) (n : ℕ)
    → get_elem? w.counts i.task ≡ some n
    → (note_one w i).1 ≡ (overran i && leb w.overrun_limit (saturating_suc n))
unfolding note
note_trips w i n h = ground arith

run_counts :
    (w : SoftwareWatchdog) (task : ℕ) (history : List Invocation)
    → get_elem? w.counts task ≡ some 0
    → get_elem? (run w history).counts task ≡ some (min (streak task history) (2 ^ 32 - 1))
run_counts w task [] h = h
run_counts w task (i ∷ older) h =
    note_counts (run w older) i task (min (streak task older) (2 ^ 32 - 1))
      (run_counts w task older h)
    ∙ ground arith

run-limit :
    (w : SoftwareWatchdog) (history : List Invocation)
    → (run w history).overrun_limit ≡ w.overrun_limit
run-limit w [] = refl
run-limit w (i ∷ older) = note-limit (run w older) i ∙ run-limit w older

get_elem?-replicate : (n i : ℕ) → i < n → get_elem? {A = ℕ} (replicate n 0) i ≡ some 0
get_elem?-replicate zero i h = elim h [ ]
get_elem?-replicate (suc n) zero h = refl
get_elem?-replicate (suc n) (suc i) h = get_elem?-replicate n i (omega arith)

-- The watchdog reports a task at an invocation exactly when that invocation and the task's newest
-- ones before it have overrun, one after another, at least as many as the limit (at least 1).
-- The invocations of other tasks between them change nothing.
pub note_iff_streak :
    (n_tasks limit : ℕ) (i : Invocation) (older : List Invocation)
    → i.task < n_tasks
    → limit ≤ 2 ^ 32 - 1
    → (note_one (run (new n_tasks limit) older) i).1 ≡ leb (max limit 1) (streak i.task (i ∷ older))
unfolding new
note_iff_streak n_tasks limit i older h u =
    let w = new n_tasks limit in
    note_trips (run w older) i (min (streak i.task older) (2 ^ 32 - 1))
      (run_counts w i.task older (get_elem?-replicate n_tasks i.task h))
    ∙ ground (arith, run-limit w older)
