-- ===== src/Io/Force/Priority.antt =====
-- When an output has the value of the program (crates/plc-io/src/force.rs).
use my_soft_plc.Prelude.{◌≡◌, ◌≢◌, ◌↔◌, ap, true, false, none, some, arith}
use my_soft_plc.Types.OperatingMode.{fault}
use my_soft_plc.Types.Quality.{bad}
use my_soft_plc.Io.Force.{
  force_safe, EffectiveSource, program, EffectiveOutputInput, resolve_effective_output,
}

module _ {ℓ} {V : Type ℓ} where
  -- The output is the one of the program.
  pub record IsLive (input : EffectiveOutputInput V) : Type ℓ where
    pub healthy : input.mode ≢ fault
    pub enabled : input.global_force_safe ≡ false
    pub unforced : input.force ≡ none
    pub trusted : ((input.module_quality ≡ bad) × (input.on_bad_quality ≡ force_safe)) → ⊥
    pub written : input.program_written ≡ true

  -- The output is the one of a maintenance force.
  pub record IsForced (input : EffectiveOutputInput V) (v : V) : Type ℓ where
    pub healthy : input.mode ≢ fault
    pub enabled : input.global_force_safe ≡ false
    pub forced : input.force ≡ some v

  live :
      (input : EffectiveOutputInput V) → (resolve_effective_output input).1 ≡ program → IsLive input
  unfolding resolve_effective_output
  live input h = record {
    healthy = λ e. ground arith;
    enabled = ground arith;
    unforced = ground arith;
    trusted = λ e. ground arith;
    written = ground arith;
  }

  live_back :
      (input : EffectiveOutputInput V)
      → IsLive input
      → resolve_effective_output input ≡ (input.program_value, program)
  unfolding resolve_effective_output
  live_back input h = ground arith

  forced :
      (input : EffectiveOutputInput V) (v : V)
      → resolve_effective_output input ≡ (v, EffectiveSource.force)
      → IsForced input v
  unfolding resolve_effective_output
  forced input v h = record {
    healthy = λ e. ground arith;
    enabled = ground arith;
    forced = ground arith;
  }

  forced_back :
      (input : EffectiveOutputInput V) (v : V)
      → IsForced input v
      → resolve_effective_output input ≡ (v, EffectiveSource.force)
  unfolding resolve_effective_output
  forced_back input v h = ground arith

  otherwise_safe :
      (input : EffectiveOutputInput V)
      → (resolve_effective_output input).1 ≢ program
      → (resolve_effective_output input).1 ≢ EffectiveSource.force
      → (resolve_effective_output input).0 ≡ input.safe_state
  unfolding resolve_effective_output
  otherwise_safe input p f = ground arith

  -- An output has the value of the program exactly when the mode is not FAULT, no global safe state
  -- is asked for, the output is not forced, its module is not Bad under the policy that forces
  -- outputs safe, and the program has written it. It has the value of a maintenance force exactly
  -- when there is one, the mode is not FAULT and no global safe state is asked for, whatever the
  -- module's quality. In all other cases it has its safe state.
  pub resolve_effective_output_lem :
      (input : EffectiveOutputInput V)
      → ((resolve_effective_output input ≡ (input.program_value, program)) ↔ IsLive input)
        × ((v : V)
            → (resolve_effective_output input ≡ (v, EffectiveSource.force)) ↔ IsForced input v)
        × ((resolve_effective_output input).1 ≢ program
            → (resolve_effective_output input).1 ≢ EffectiveSource.force
            → (resolve_effective_output input).0 ≡ input.safe_state)
  resolve_effective_output_lem input = (
    (λ h. live input (ap (λ (r : V × EffectiveSource). r.1) h), live_back input),
    (λ v. (forced input v, forced_back input v)),
    otherwise_safe input,
  )
