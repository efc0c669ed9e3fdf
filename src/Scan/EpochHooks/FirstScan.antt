-- ===== src/Scan/EpochHooks/FirstScan.antt =====
-- The FirstScan bits of the tasks (crates/plc-scan/src/hooks.rs).
use my_soft_plc.Prelude.{
  ℕ, zero, suc, ◌≡◌, ◌∙◌, refl, Bool, true, false, not, ◌&&◌, ◌||◌, List, [], ◌∷◌, map, arith, ltb,
  get_or, set, replicate, ◌==◌,
}
use my_soft_plc.Scan.EpochHooks.{
  EpochHooks, new, first_scan, set_first_scan_all, clear_first_scan, phase, set_phase,
}
use my_soft_plc.Types.ProgramPhase.{ProgramPhase}

abbrev pub clear_each : EpochHooks → List ℕ → EpochHooks
clear_each h [] = h
clear_each h (task ∷ rest) = clear_each (clear_first_scan h task) rest

abbrev pub member : ℕ → List ℕ → Bool
member task [] = false
member task (t ∷ rest) = t == task || member task rest

phase-set_phase : (h : EpochHooks) (p : ProgramPhase) → phase (set_phase h p) ≡ p
unfolding phase set_phase
phase-set_phase h p = ground arith

get_or-set-false :
    (bs : List Bool) (i j : ℕ)
    → get_or (set bs i false) j false ≡ (not (i == j) && get_or bs j false)
get_or-set-false [] i j = ground arith
get_or-set-false (b ∷ bs) zero zero = refl
get_or-set-false (b ∷ bs) zero (suc j) = ground arith
get_or-set-false (b ∷ bs) (suc i) zero = ground arith
get_or-set-false (b ∷ bs) (suc i) (suc j) = ground (arith, get_or-set-false bs i j)

first_scan-clear :
    (h : EpochHooks) (i j : ℕ)
    → first_scan (clear_first_scan h i) j ≡ (not (i == j) && first_scan h j)
unfolding first_scan clear_first_scan
first_scan-clear h i j = get_or-set-false h.first_scans i j

first_scan-clear_each :
    (h : EpochHooks) (tasks : List ℕ) (j : ℕ)
    → first_scan (clear_each h tasks) j ≡ (not (member j tasks) && first_scan h j)
first_scan-clear_each h [] j = refl
first_scan-clear_each h (i ∷ rest) j =
    ground (arith, first_scan-clear_each (clear_first_scan h i) rest j, first_scan-clear h i j)

get_or-map-true : (n j : ℕ) → get_or (map (λ _. true) (replicate n false)) j false ≡ ltb j n
get_or-map-true zero j = ground arith
get_or-map-true (suc n) zero = ground arith
get_or-map-true (suc n) (suc j) = ground (arith, get_or-map-true n j)

all_set : (n j : ℕ) → first_scan (set_first_scan_all (new n) true) j ≡ ltb j n
unfolding first_scan set_first_scan_all new
all_set n j = get_or-map-true n j

-- After an activation has set the FirstScan bits and some tasks have completed an invocation, a
-- task sees FirstScan exactly when it is a task of the plan that has not completed one.
pub first_scan_pending :
    (n_tasks : ℕ) (completed : List ℕ) (task : ℕ)
    → first_scan (clear_each (set_first_scan_all (new n_tasks) true) completed) task
      ≡ (ltb task n_tasks && not (member task completed))
first_scan_pending n_tasks completed task =
    first_scan-clear_each (set_first_scan_all (new n_tasks) true) completed task
    ∙ ground (arith, all_set n_tasks task)
