-- ===== src/Vm/Exec/Accepted.antt =====
-- The machine on a module that the verifier accepts (crates/plc-vm/src/exec.rs,
-- crates/plc-ir/src/verify.rs): the verifier follows the body of each block on a stack of its own,
-- the machine runs it on top of the stack of the caller.
pub mod Runs
use my_soft_plc.Prelude.{
  ℕ, zero, suc, ◌+◌, ◌-◌, ◌≤◌, ◌<◌, ◌≡◌, ◌⊎◌, inl, inr, refl, sym, ap, ◌∙◌, arith, Bool-cases,
  subst, Bool, true, false, Option, none, some, List, [], ◌∷◌, Result, ok, err, length, leb, get_or,
  ◌==◌, if◌then◌else◌,
}
use my_soft_plc.Ir.Opcode.{Opcode, ret}
use my_soft_plc.Ir.Encode.{DecodedInstr, simple, with_imm32, call_block, decode_instruction}
use my_soft_plc.Ir.Module.{IrModule, EntryPoint}
use my_soft_plc.Ir.Verify.Transfer.{max_stack, max_call_depth}
use my_soft_plc.Ir.Verify.Heights.{pops, pushes, falls_through, jumps}
use my_soft_plc.Ir.Verify.Loop.{verify_module}
use my_soft_plc.Ir.Verify.Safety.{Step, advance, jump, Reach, enter, step, IsSafe}
use my_soft_plc.Ir.Verify.Accepted.{IsMember, verify_module-IsSafe}
use my_soft_plc.Vm.Value.{FloatOps, stack_underflow, stack_overflow, ret_outside_fb, decode, budget}
use my_soft_plc.Vm.Operators.{Fault, error, panic}
use my_soft_plc.Vm.State.{Vm, Frame}
use my_soft_plc.Vm.Exec
use my_soft_plc.Vm.Exec.{
  Control, goto, finished, ExecResult, execute, exec_simple, exec_call, leave, proceed, run_loop,
  run_at, started, user_entry,
}
use my_soft_plc.Vm.Exec.Effects.{IsTame, Kept, Post, Does}
use my_soft_plc.Vm.Exec.Local.{IsLocal, Goes, Does-execute}
use my_soft_plc.Vm.Exec.Decoded.{IsDecoded, decode_instruction-IsDecoded}
use my_soft_plc.Vm.Exec.Armed.{IsArmed, HasEntry}

-- The module has no user blocks.
abbrev pub HasNoBlocks : IrModule → Type 0
HasNoBlocks m = (e : EntryPoint) → IsMember e m.entries → e.is_user_fb ≡ false

-- No underflow of the operand stack, no undecodable instruction, no RET outside a block; and an
-- overflow only of a module with user blocks.
abbrev pub IsHarmless : IrModule → Fault → Type 0
IsHarmless m (error (stack_underflow pc)) = ⊥
IsHarmless m (error (decode pc)) = ⊥
IsHarmless m (error (ret_outside_fb pc)) = ⊥
IsHarmless m (error (stack_overflow pc)) = HasNoBlocks m → ⊥
IsHarmless m _ = Unit {0}

-- The callers that wait for a RET, with the operands that the verifier counts for each of them.
pub data Suspended (m : IrModule) : List Frame → ℕ → Type 0 where
  bottom : {n : ℕ} → n ≡ 0 → Suspended m [] n
  caller :
      {f : Frame} {rest : List Frame} {n : ℕ} (e : EntryPoint) (h below : ℕ)
      → IsMember e m.entries
      → Reach m e.pc f.return_pc h
      → Suspended m rest below
      → n ≡ h + below
      → Suspended m (f ∷ rest) n

-- The place is one that the verifier has seen for some entry, and the stack holds what the verifier
-- counts there and for the callers.
pub record IsRunning {ℓ} {F : Type ℓ} (m : IrModule) (vm : Vm F) (pc : ℕ) : Type ℓ where
  pub armed : IsArmed m vm
  pub entry : EntryPoint
  pub member : IsMember entry m.entries
  pub height : ℕ
  pub reach : Reach m entry.pc pc height
  pub below : ℕ
  pub suspended : Suspended m vm.frames below
  pub enough : height + below ≤ length vm.stack
  pub exact : HasNoBlocks m → (vm.frames ≡ []) × (length vm.stack ≡ height)

module _ (m : IrModule) where
  tame-IsHarmless :
      (peak : ℕ) (e : Fault) → IsTame peak e → (HasNoBlocks m → peak ≤ max_stack) → IsHarmless m e
  tame-IsHarmless peak (error (stack_overflow pc)) t room =
      λ none_there. let low = room none_there in omega arith
  tame-IsHarmless peak (error (stack_underflow pc)) t room = t
  tame-IsHarmless peak (error (decode pc)) t room = t
  tame-IsHarmless peak (error (ret_outside_fb pc)) t room = t
  tame-IsHarmless peak _ t room = tt

  goes-Step :
      (i : DecodedInstr) (pc size h pc' : ℕ)
      → decode_instruction m.code pc ≡ ok (i, size)
      → Goes i (pc + size) (goto pc')
      → Step m pc h pc' (h - pops i + pushes i)
  goes-Step i pc size h pc' d (inl (falls, there)) = advance i size d falls there refl
  goes-Step i pc size h pc' d (inr jumped) = jump i size d jumped refl

module _ {ℓ} {F : Type ℓ} (m : IrModule) where
  -- What a turn of the loop may come to.
  unfoldable pub AfterTurn : Vm F × Result Control Fault → Type ℓ
  AfterTurn (vm, ok (goto pc)) = IsRunning m vm pc
  AfterTurn (vm, ok (finished r)) = IsArmed m vm
  AfterTurn (vm, err e) = IsArmed m vm × IsHarmless m e

  unfoldable pub AfterRun : Vm F × Result ExecResult Fault → Type ℓ
  AfterRun (vm, ok r) = IsArmed m vm
  AfterRun (vm, err e) = IsArmed m vm × IsHarmless m e

  kept-IsArmed : {vm vm' : Vm F} → IsArmed m vm → Kept vm vm' → IsArmed m vm'
  kept-IsArmed a k = record {
    code = k.code ∙ a.code;
    table = λ id pc h. a.table id pc (ap (λ t. get_or t id none) (sym k.table) ∙ h);
  }

  module _ (vm : Vm F) (pc : ℕ) (v : IsRunning m vm pc) (i : DecodedInstr) (size : ℕ)
      (decoded : decode_instruction m.code pc ≡ ok (i, size)) (operands : pops i ≤ v.height)
      (room : v.height - pops i + pushes i ≤ max_stack) where
    pub local-AfterTurn :
        (r : Vm F × Result Control Fault)
        → Post vm
            (length vm.stack - pops i + pushes i)
            (length vm.stack - pops i + pushes i)
            (Goes i (pc + size))
            r
        → AfterTurn r
    unfolding Post AfterTurn
    local-AfterTurn (vm', ok (goto pc')) (l, kept, goes) = record {
      armed = kept-IsArmed v.armed kept;
      entry = v.entry;
      member = v.member;
      height = v.height - pops i + pushes i;
      reach = step v.reach (goes-Step m i pc size v.height pc' decoded goes);
      below = v.below;
      suspended = subst (λ fs. Suspended m fs v.below) (sym kept.frames) v.suspended;
      enough = omega (arith, v.enough);
      exact = λ none_there.
          let (flat, same) = v.exact none_there in (kept.frames ∙ flat, omega (arith, same));
    }
    local-AfterTurn (vm', ok (finished r)) (l, kept, goes) = kept-IsArmed v.armed kept
    local-AfterTurn (vm', err e) (t, kept) = (
      kept-IsArmed v.armed kept,
      tame-IsHarmless m (length vm.stack - pops i + pushes i) e t
          (λ none_there. let (flat, same) = v.exact none_there in omega (arith, same, room)),
    )

    -- A RET goes back to the caller on top, if there is one.
    pub leave-AfterTurn :
        {frames : List Frame} {below : ℕ}
        → Suspended m frames below
        → vm.frames ≡ frames
        → below ≤ length vm.stack
        → AfterTurn (leave vm frames)
    unfolding AfterTurn leave
    leave-AfterTurn (bottom z) e le = v.armed
    leave-AfterTurn (caller {rest = []} entry h below member reach s z) e le = record {
      armed = record { code = v.armed.code; table = v.armed.table };
      entry = entry;
      member = member;
      height = h;
      reach = reach;
      below = below;
      suspended = s;
      enough = omega arith;
      exact = λ none_there. let (flat, _) = v.exact none_there in absurd (ground (arith, flat));
    }
    leave-AfterTurn (caller {rest = g ∷ rest} entry h below member reach s z) e le = record {
      armed = record { code = v.armed.code; table = v.armed.table };
      entry = entry;
      member = member;
      height = h;
      reach = reach;
      below = below;
      suspended = s;
      enough = omega arith;
      exact = λ none_there. let (flat, _) = v.exact none_there in absurd (ground (arith, flat));
    }

    -- The machine in the body of a block.
    abbrev inside : ℕ → Vm F
    inside instance_base = record vm {
      frames = record { return_pc = pc + size; data_base = instance_base } ∷ vm.frames;
      data_base = instance_base;
    }

    IsRunning-inside :
        (instance_base there : ℕ)
        → HasEntry m there
        → (pops i ≡ 0) × (pushes i ≡ 0) × (falls_through i ≡ true)
        → IsRunning m (inside instance_base) there
    IsRunning-inside instance_base there block (p, q, falls) = record {
      armed = record { code = v.armed.code; table = v.armed.table };
      entry = block.entry;
      member = block.member;
      height = 0;
      reach = enter (sym block.place) refl;
      below = v.height - pops i + pushes i + v.below;
      suspended =
          caller v.entry (v.height - pops i + pushes i) v.below v.member
            (step v.reach (advance i size decoded falls refl refl)) v.suspended refl;
      enough = omega (arith, v.enough);
      exact = λ none_there.
          let task = none_there block.entry block.member in absurd (ground (arith, block.user));
    }

    -- A call of a user block starts it above the operands of the caller.
    pub enter-AfterTurn :
        (fb_id instance_base : ℕ) (o : Option ℕ)
        → user_entry vm fb_id ≡ o
        → (pops i ≡ 0) × (pushes i ≡ 0) × (falls_through i ≡ true)
        → AfterTurn (Exec.enter pc (pc + size) fb_id instance_base o vm)
    unfolding AfterTurn Exec.enter
    enter-AfterTurn fb_id instance_base none e falls = (v.armed, tt)
    enter-AfterTurn fb_id instance_base (some there) e falls =
        elim (Bool-cases (leb max_call_depth (length vm.frames))) [
          | inl full ↦ rw full (v.armed, tt)
          | inr free ↦
              rw free (IsRunning-inside instance_base there (v.armed.table fb_id there e) falls)
        ]
