-- ===== src/Vm/Exec/Accepted/Runs.antt =====
-- The turns of the loop and whole runs on an accepted module (crates/plc-vm/src/exec.rs).
use my_soft_plc.Prelude.{
  ℕ, zero, suc, ◌+◌, ◌-◌, ◌≤◌, ◌≡◌, ◌⊎◌, inl, inr, refl, sym, ap, ◌∙◌, arith, subst, false, some,
  Result, ok, err, length, ◌==◌,
}
use my_soft_plc.Ir.Opcode.{Opcode, ret, push_i_dint, push_i_real, push_time, call_fb}
use my_soft_plc.Ir.Encode.{DecodedInstr, simple, with_imm32, call_block, decode_instruction}
use my_soft_plc.Ir.Module.{IrModule, EntryPoint}
use my_soft_plc.Ir.Verify.Transfer.{max_stack}
use my_soft_plc.Ir.Verify.Heights.{pops, pushes}
use my_soft_plc.Ir.Verify.Loop.{verify_module}
use my_soft_plc.Ir.Verify.Safety.{enter, IsSafe}
use my_soft_plc.Ir.Verify.Accepted.{IsMember, verify_module-IsSafe}
use my_soft_plc.Vm.Value.{FloatOps}
use my_soft_plc.Vm.Operators.{Fault}
use my_soft_plc.Vm.State.{Vm}
use my_soft_plc.Vm.Exec.{
  Control, ExecResult, goto, finished, execute, exec_simple, exec_call, leave, proceed, run_loop,
  run_at, started, user_entry,
}
use my_soft_plc.Vm.Exec
use my_soft_plc.Vm.Exec.Effects.{Does}
use my_soft_plc.Vm.Exec.Local.{IsLocal, IsPlain, Does-execute}
use my_soft_plc.Vm.Exec.Decoded.{IsDecoded, IsNarrow, decode_instruction-IsDecoded}
use my_soft_plc.Vm.Exec.Armed.{IsArmed}
use my_soft_plc.Vm.Exec.Accepted.{
  IsRunning, bottom, AfterTurn, AfterRun, local-AfterTurn, leave-AfterTurn, enter-AfterTurn,
}

narrow_cases : (op : Opcode) → IsNarrow op → (op ≡ ret) ⊎ IsPlain op
narrow_cases ret n = inl refl
narrow_cases push_i_dint n = absurd n
narrow_cases push_i_real n = absurd n
narrow_cases push_time n = absurd n
narrow_cases call_fb n = absurd n
narrow_cases _ n = inr tt

module _ {ℓ} {F : Type ℓ} (fl : FloatOps F) (m : IrModule) where
  module _ (vm : Vm F) (pc now_ms : ℕ) (v : IsRunning m vm pc) where
    local_turn :
        (i : DecodedInstr) (size : ℕ)
        → decode_instruction m.code pc ≡ ok (i, size)
        → pops i ≤ v.height
        → v.height - pops i + pushes i ≤ max_stack
        → IsLocal i
        → AfterTurn m (execute fl i now_ms pc (pc + size) vm)
    local_turn i size d o room l =
        let h = length vm.stack in
        let has : pops i ≤ h = omega (arith, v.enough) in
        local-AfterTurn m vm pc v i size d o room (execute fl i now_ms pc (pc + size) vm) (
          unfold Does in
          Does-execute fl h (h - pops i + pushes i) pc now_ms (pc + size) i l has refl vm refl)

    execute-AfterTurn :
        (i : DecodedInstr) (size : ℕ)
        → decode_instruction m.code pc ≡ ok (i, size)
        → pops i ≤ v.height
        → v.height - pops i + pushes i ≤ max_stack
        → IsDecoded i
        → AfterTurn m (execute fl i now_ms pc (pc + size) vm)
    execute-AfterTurn (simple op payload) size d o room n = elim (narrow_cases op n) [
      | inr plain ↦ local_turn (simple op payload) size d o room plain
      | inl returns ↦
          unfold execute exec_simple in
          rw returns (
            leave-AfterTurn m vm pc v (simple op payload) size d o room v.suspended refl
              (omega (arith, v.enough)))
    ]
    execute-AfterTurn (with_imm32 op payload imm) size d o room n =
        local_turn (with_imm32 op payload imm) size d o room n
    execute-AfterTurn (call_block zero fb_id base) size d o room n =
        local_turn (call_block zero fb_id base) size d o room refl
    execute-AfterTurn (call_block (suc kind) fb_id base) size d o room n =
        let e : (suc kind == 0) ≡ false = ground arith in
        unfold execute exec_call in
        rw e (
          enter-AfterTurn m vm pc v (call_block (suc kind) fb_id base) size d o room fb_id base
            (user_entry vm fb_id) refl (rw e refl, rw e refl, refl))

    step-AfterTurn : IsSafe m pc v.height → AfterTurn m (Exec.step fl now_ms pc vm)
    step-AfterTurn safe =
        let formed = decode_instruction-IsDecoded m.code pc safe.instr safe.size safe.decoded in
        let found : decode_instruction vm.code pc ≡ ok (safe.instr, safe.size) =
          ap (λ code. decode_instruction code pc) v.armed.code ∙ safe.decoded in
        unfold Exec.step in
        subst (λ r. AfterTurn m (Exec.execute_decoded fl now_ms pc r vm)) (sym found)
          (unfold Exec.execute_decoded in
            execute-AfterTurn safe.instr safe.size safe.decoded safe.operands safe.room formed)

  proceed-AfterRun :
      (r : Vm F × Result Control Fault) (loop : Vm F → ℕ → Vm F × Result ExecResult Fault)
      → AfterTurn m r
      → ((vm : Vm F) (pc : ℕ) → IsRunning m vm pc → AfterRun m (loop vm pc))
      → AfterRun m (proceed r loop)
  unfolding proceed AfterTurn AfterRun
  proceed-AfterRun (vm, err e) loop t k = t
  proceed-AfterRun (vm, ok (finished r)) loop t k = t
  proceed-AfterRun (vm, ok (goto pc)) loop t k = k vm pc t

  module _ (verified : verify_module m ≡ some (ok tt)) where
    run_loop-AfterRun :
        (left now_ms : ℕ) (vm : Vm F) (pc : ℕ)
        → IsRunning m vm pc
        → AfterRun m (run_loop fl left now_ms vm pc)
    unfolding run_loop
    run_loop-AfterRun zero now_ms vm pc v = unfold AfterRun in (v.armed, tt)
    run_loop-AfterRun (suc left) now_ms vm pc v =
        proceed-AfterRun (Exec.step fl now_ms pc vm) (λ next pc'. run_loop fl left now_ms next pc')
          (step-AfterTurn vm pc now_ms v (verify_module-IsSafe m v.entry verified v.member v.reach))
          (λ next pc' w. run_loop-AfterRun left now_ms next pc' w)

    started-IsRunning :
        (vm : Vm F) (e : EntryPoint)
        → IsArmed m vm
        → IsMember e m.entries
        → IsRunning m (started vm) e.pc
    unfolding started
    started-IsRunning vm e a i = record {
      armed = record { code = a.code; table = a.table };
      entry = e;
      member = i;
      height = 0;
      reach = enter refl refl;
      below = 0;
      suspended = bottom refl;
      enough = omega arith;
      exact = λ none_there. (refl, refl);
    }

  -- If the verifier accepts a module, a run of a machine that is armed with it, from any of its
  -- entries and at any time, ends in a machine that is armed with it again; and where the run ends
  -- in an error, it is no underflow of the operand stack, no instruction that does not decode and
  -- no RET outside a block, and it is no overflow of the operand stack unless the module has user
  -- blocks.
  pub run_at-AfterRun :
      (vm : Vm F) (e : EntryPoint) (now_ms : ℕ)
      → verify_module m ≡ some (ok tt)
      → IsArmed m vm
      → IsMember e m.entries
      → AfterRun m (run_at fl e.pc now_ms vm)
  unfolding run_at
  run_at-AfterRun vm e now_ms verified a i =
      run_loop-AfterRun verified vm.instruction_budget now_ms (started vm) e.pc
        (started-IsRunning verified vm e a i)
