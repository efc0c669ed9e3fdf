-- ===== src/Scan/Engine/Atomic.antt =====
-- An installation happens as a whole or not at all (crates/plc-scan/src/engine.rs).
use my_soft_plc.Prelude.{
  ℕ, ◌-◌, ◌/◌, ◌≡◌, refl, arith, Bool, true, false, not, ◌||◌, Option, none, some, leb, max, get_or,
  is_some, Bool-cases, inl, inr, ◌==◌, ◌∙◌,
}
use my_soft_plc.Types.ProgramPhase
use my_soft_plc.Scan.EpochHooks.{set_phase, activate_requested, is_quiet}
use my_soft_plc.Scan.Engine.State.{
  ArmedProgram, ScanEngine, Devices, InstallOutcome, idle, installed, deferred, faulted, pick_due,
  read_clock, enter_fault, saturating_mul_1000,
}
use my_soft_plc.Scan.Engine.Install.{
  blit_retain_into, commit_install, finish_install, install, at_boundary, attempt,
  try_epoch_install, cold_init_memory, apply_safe_reset_outputs, min_period,
}
use my_soft_plc.Scan.Engine.FailSafe.{IsFaulted, enter_fault-IsFaulted}

module _ {ℓ} {F D K : Type ℓ} where
  -- The program, the plan, the image and the times are the old ones, and an armed program stays.
  pub record IsOld (e e' : ScanEngine F D K) : Type ℓ where
    pub vm : e'.vm ≡ e.vm
    pub plan : e'.plan ≡ e.plan
    pub image : e'.io.image ≡ e.io.image
    pub tasks : e'.tasks ≡ e.tasks
    pub armed : is_some e'.armed ≡ is_some e.armed

  -- The program is the armed one, with the retained values of the old one.
  pub record IsNew (e e' : ScanEngine F D K) : Type ℓ where
    pub program : ArmedProgram F
    pub was_armed : e.armed ≡ some program
    pub copied : (blit_retain_into program e.vm).1 ≡ true
    pub vm : e'.vm ≡ some (blit_retain_into program e.vm).0.vm
    pub armed : e'.armed ≡ none
    pub modes : e'.modes ≡ e.modes
    pub forces : e'.io.forces ≡ e.io.forces

  pub record IsCalm (e e' : ScanEngine F D K) : Type ℓ where
    pub modes : e'.modes ≡ e.modes
    pub forces : e'.io.forces ≡ e.io.forces

  abbrev pub Installs : ScanEngine F D K → ScanEngine F D K → InstallOutcome → Type ℓ
  Installs e e' installed = IsNew e e'
  Installs e e' faulted = IsOld e e' × IsFaulted e'
  Installs e e' idle = IsOld e e' × IsCalm e e'
  Installs e e' deferred = IsOld e e' × IsCalm e e'

module _ {ℓ} {F D K : Type ℓ} (dev : Devices F D K) where
  committed_forces :
      (e : ScanEngine F D K) (program : ArmedProgram F) (now : ℕ)
      → (commit_install dev e program now).io.forces ≡ e.io.forces
  unfolding commit_install cold_init_memory apply_safe_reset_outputs
  committed_forces e program now = ground arith

  module _ (e swapped : ScanEngine F D K) (program : ArmedProgram F)
      (was_armed : e.armed ≡ some program) (old : IsOld e swapped) (calm : IsCalm e swapped) where
    finish-Installs :
        (went_well : Bool) (us : ℕ)
        → (blit_retain_into program e.vm).1 ≡ went_well
        → Installs e
            (finish_install dev swapped (blit_retain_into program e.vm).0 went_well us).0
            (finish_install dev swapped (blit_retain_into program e.vm).0 went_well us).1
    unfolding finish_install
    finish-Installs false us b = (
      unfold enter_fault in
          (record {
            vm = old.vm;
            plan = old.plan;
            image = old.image;
            tasks = old.tasks;
            armed = rw was_armed refl;
          }),
      (let g =
            enter_fault-IsFaulted
              (record swapped { armed = some (blit_retain_into program e.vm).0 }) in
          unfold enter_fault in (record { faulted = g.faulted; unforced = g.unforced })),
    )
    finish-Installs true us b =
        elim (Bool-cases (leb (saturating_mul_1000 (min_period swapped.plan.tasks)) us)) [
          | inl late ↦ rw late (
            record {
              vm = old.vm;
              plan = old.plan;
              image = old.image;
              tasks = old.tasks;
              armed = rw was_armed refl;
            },
            record { modes = calm.modes; forces = calm.forces },
          )
          | inr early ↦ rw early (record {
            program = program;
            was_armed = was_armed;
            copied = b;
            vm = unfold commit_install in refl;
            armed = unfold commit_install in refl;
            modes = unfold commit_install in calm.modes;
            forces =
                committed_forces
                  (record swapped { clock = (dev.now_ns swapped.clock).0; armed = none })
                  (blit_retain_into program e.vm).0 ((dev.now_ns swapped.clock).1 / 1000000)
                ∙ calm.forces;
          })
        ]

  IsOld-refl : (e : ScanEngine F D K) → IsOld e e
  IsOld-refl e = record { vm = refl; plan = refl; image = refl; tasks = refl; armed = refl }

  install-Installs :
      (e : ScanEngine F D K) (program : ArmedProgram F)
      → e.armed ≡ some program
      → Installs e (install dev e program).0 (install dev e program).1
  unfolding install read_clock
  install-Installs e program a =
      let swapping = set_phase e.hooks ProgramPhase.swapping in
      let c = dev.now_ns e.clock in
      let d = dev.now_ns c.0 in
      finish-Installs e (record e { hooks = swapping; clock = d.0 }) program a
        (record { vm = refl; plan = refl; image = refl; tasks = refl; armed = refl })
        (record { modes = refl; forces = refl }) (blit_retain_into program e.vm).1
        (max e.install_min_duration_us ((d.1 - c.1) / 1000)) refl

  boundary-Installs :
      (e : ScanEngine F D K) (program : ArmedProgram F) (o : Option ℕ)
      → e.armed ≡ some program
      → Installs e (at_boundary dev e program o).0 (at_boundary dev e program o).1
  unfolding at_boundary
  boundary-Installs e program none a = (IsOld-refl e, record { modes = refl; forces = refl })
  boundary-Installs e program (some due) a =
      elim (Bool-cases (due == get_or e.schedule_order 0 0)) [
        | inl highest ↦ rw highest (install-Installs e program a)
        | inr other ↦ rw other (IsOld-refl e, record { modes = refl; forces = refl })
      ]

  -- A reading of the clock before changes nothing of this.
  timed-Installs :
      (e e' : ScanEngine F D K) (clock : K) (o : InstallOutcome)
      → Installs (record e { clock = clock }) e' o
      → Installs e e' o
  timed-Installs e e' clock idle (old, calm) = (
    record {
      vm = old.vm;
      plan = old.plan;
      image = old.image;
      tasks = old.tasks;
      armed = old.armed;
    },
    record { modes = calm.modes; forces = calm.forces },
  )
  timed-Installs e e' clock deferred (old, calm) = (
    record {
      vm = old.vm;
      plan = old.plan;
      image = old.image;
      tasks = old.tasks;
      armed = old.armed;
    },
    record { modes = calm.modes; forces = calm.forces },
  )
  timed-Installs e e' clock faulted (old, f) = (
    record {
      vm = old.vm;
      plan = old.plan;
      image = old.image;
      tasks = old.tasks;
      armed = old.armed;
    },
    f,
  )
  timed-Installs e e' clock installed new = record {
    program = new.program;
    was_armed = new.was_armed;
    copied = new.copied;
    vm = new.vm;
    armed = new.armed;
    modes = new.modes;
    forces = new.forces;
  }

  attempt-Installs :
      (e : ScanEngine F D K) (o : Option (ArmedProgram F))
      → e.armed ≡ o
      → Installs e (attempt dev e o).0 (attempt dev e o).1
  unfolding attempt read_clock
  attempt-Installs e none a = (IsOld-refl e, record { modes = refl; forces = refl })
  attempt-Installs e (some program) a =
      let c = dev.now_ns e.clock in
      let timed = record e { clock = c.0 } in
      let tried = at_boundary dev timed program (pick_due timed (c.1 / 1000000)) in
      elim (Bool-cases (not (activate_requested e.hooks) || not (is_quiet e.hooks))) [
        | inl guarded ↦ rw guarded (IsOld-refl e, record { modes = refl; forces = refl })
        | inr free ↦ rw free (
            timed-Installs e tried.0 c.0 tried.1
              (boundary-Installs timed program (pick_due timed (c.1 / 1000000)) a))
      ]

  -- An attempt to install a program has one of these outcomes. It is installed: it was armed, all
  -- its copies of retained values went well, it runs with them, nothing is armed any more, and the
  -- mode and the forces are as before. Or it fails: the engine is in FAULT without forces. Or it is
  -- deferred, or not tried: the mode and the forces are as before. Unless it is installed, the old
  -- program, the plan, the image and the times of the tasks are untouched, and a program that was
  -- armed still is.
  pub try_epoch_install-Installs :
      (e : ScanEngine F D K) → Installs e (try_epoch_install dev e).0 (try_epoch_install dev e).1
  unfolding try_epoch_install
  try_epoch_install-Installs e = attempt-Installs e e.armed refl
