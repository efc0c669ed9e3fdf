-- ===== src/Io/Force.antt =====
-- Maintenance forces and the effective outputs (crates/plc-io/src/force.rs). The ordered map of the
-- forces is an association list with one entry for a slot at most, since `set` removes the old one.
pub mod Priority
pub mod Overlay
use my_soft_plc.Prelude.{
  ℕ, Bool, true, false, ◌||◌, ◌&&◌, Option, none, some, List, [], ◌∷◌, ◌==◌, if◌then◌else◌,
}
use my_soft_plc.Types.OperatingMode.{OperatingMode, fault}
use my_soft_plc.Types.Quality.{Quality, is_bad}

pub data BadQualityPolicy : Type 0 where
  hold_last force_safe : BadQualityPolicy

-- `==` on the modes with FAULT, and on the policies with the one that forces.
abbrev pub is_fault : OperatingMode → Bool
is_fault fault = true
is_fault _ = false

abbrev pub is_force_safe : BadQualityPolicy → Bool
is_force_safe force_safe = true
is_force_safe hold_last = false

pub data EffectiveSource : Type 0 where
  global_safe force module_safe program default_safe : EffectiveSource

module _ {ℓ} where
  pub record ForceTable (V : Type ℓ) : Type ℓ where
    pub forces : List (ℕ × V)

  pub record EffectiveOutputInput (V : Type ℓ) : Type ℓ where
    pub mode : OperatingMode
    pub global_force_safe : Bool
    pub module_quality : Quality
    pub on_bad_quality : BadQualityPolicy
    pub force : Option V
    pub program_value : V
    pub program_written : Bool
    pub safe_state : V

module _ {ℓ} {V : Type ℓ} where
  abbrev pub new : ForceTable V
  new = record { forces = [] }

  abbrev pub remove : ℕ → List (ℕ × V) → List (ℕ × V)
  remove slot [] = []
  remove slot ((k, v) ∷ rest) =
      let kept = remove slot rest in if k == slot then kept else (k, v) ∷ kept

  abbrev pub lookup : ℕ → List (ℕ × V) → Option V
  lookup slot [] = none
  lookup slot ((k, v) ∷ rest) = if k == slot then some v else lookup slot rest

  unfoldable pub set : ForceTable V → ℕ → V → ForceTable V
  set t slot value = record { forces = (slot, value) ∷ remove slot t.forces }

  unfoldable pub clear : ForceTable V → ℕ → ForceTable V
  clear t slot = record { forces = remove slot t.forces }

  unfoldable pub clear_all : ForceTable V → ForceTable V
  clear_all t = record { forces = [] }

  unfoldable pub get : ForceTable V → ℕ → Option V
  get t slot = lookup slot t.forces

  abbrev pub is_nil : List (ℕ × V) → Bool
  is_nil [] = true
  is_nil _ = false

  unfoldable pub is_empty : ForceTable V → Bool
  is_empty t = is_nil t.forces

  -- Steps 3 to 5 of the priority.
  resolve_unforced : EffectiveOutputInput V → V × EffectiveSource
  resolve_unforced input =
      if is_bad input.module_quality && is_force_safe input.on_bad_quality
      then (input.safe_state, module_safe)
      else if input.program_written
      then (input.program_value, program)
      else (input.safe_state, default_safe)

  -- `if let Some(f) = input.force`.
  resolve_forced : EffectiveOutputInput V → Option V → V × EffectiveSource
  unfolding resolve_unforced
  resolve_forced input none = resolve_unforced input
  resolve_forced input (some value) = (value, EffectiveSource.force)

  unfoldable pub resolve_effective_output : EffectiveOutputInput V → V × EffectiveSource
  unfolding resolve_forced
  resolve_effective_output input =
      if input.global_force_safe || is_fault input.mode
      then (input.safe_state, global_safe)
      else resolve_forced input input.force
