-- ===== src/Vm/Exec/Local.antt =====
-- One instruction on the operand stack, RET and the calls of user blocks aside
-- (crates/plc-vm/src/exec.rs).
use my_soft_plc.Prelude.{
  ℕ, zero, suc, ◌+◌, ◌-◌, ◌≤◌, ◌≡◌, ◌⊎◌, inl, inr, refl, arith, true, Option, none, some, List, [],
  Result, ok, err, length,
}
use my_soft_plc.Ir.Opcode.{
  Opcode, nop, halt, push_i_dint, push_i_real, push_i_bool, push_time, ld_data, st_data, ld_retain,
  st_retain, ld_i, st_q, ld_q, ld_iq, neg, jmp, jmp_if, jmp_if_not, call_fb, ret, conv,
}
use my_soft_plc.Ir.PrimitiveId.{PrimitiveId, from_id, input_count, output_count}
use my_soft_plc.Ir.Encode.{DecodedInstr, simple, with_imm32, call_block}
use my_soft_plc.Ir.Verify.Heights.{block_pops, block_pushes, pops, pushes, falls_through, jumps}
use my_soft_plc.Fb.Dispatch.{
  StackValue, PrimitiveStore, PrimitiveCallError, PrimitiveOutputs, call_primitive,
}
use my_soft_plc.Fb.Dispatch.Calls.{call_primitive-Called}
use my_soft_plc.Vm.Value.{FloatOps, VmValue, bool, convert}
use my_soft_plc.Vm.Memory.{load, store, get, set_slot, get_quality_good}
use my_soft_plc.Vm.Operators.{Fault, unary_op}
use my_soft_plc.Vm.State.{Vm, pure, lift_result, ◌>>◌}
use my_soft_plc.Vm.Exec.{
  read_input, read_output, read_quality, Control, goto, finished, push, write_output, load_data,
  load_retain, store_data, store_retain, apply_binop, apply_primitive, primitive_outcome, binary,
  unary, conversion, exec_simple, exec_imm, call_prim, exec_call, execute,
}
use my_soft_plc.Vm.Exec.Effects.{
  IsTameResult, Kept-refl, Post, Does, Any, Does-pure, Does-quiet, Does-bind, Does-pop, Does-push,
  Does-pop_inputs, Does-push_outputs,
}
use my_soft_plc.Vm.Exec.Tame.{unary_op_tame, binop_tame}

-- Where the loop goes on: at the next instruction, or at the target of a jump.
abbrev pub Goes : DecodedInstr → ℕ → Control → Type 0
Goes i next (goto pc) = ((falls_through i ≡ true) × (pc ≡ next)) ⊎ (jumps i ≡ some pc)
Goes i next (finished r) = Unit {0}

-- The forms that the decoder gives: the wide instructions are no simple ones.
abbrev pub IsPlain : Opcode → Type 0
IsPlain ret = ⊥
IsPlain push_i_dint = ⊥
IsPlain push_i_real = ⊥
IsPlain push_time = ⊥
IsPlain call_fb = ⊥
IsPlain _ = Unit {0}

-- The opcodes that have an immediate word.
abbrev pub IsWide : Opcode → Type 0
IsWide push_i_dint = Unit {0}
IsWide push_i_real = Unit {0}
IsWide push_time = Unit {0}
IsWide _ = ⊥

-- All instructions but RET and the calls of user blocks, in the form that the decoder gives.
abbrev pub IsLocal : DecodedInstr → Type 0
IsLocal (simple op payload) = IsPlain op
IsLocal (with_imm32 op payload imm) = IsWide op
IsLocal (call_block fb_kind fb_id instance_base) = fb_kind ≡ 0

module _ {ℓ} {F : Type ℓ} (fl : FloatOps F) where
  Does-load_data : (peak h payload pc : ℕ) → Does F peak h h Any (load_data fl payload pc)
  Does-load_data peak h payload pc =
      Does-quiet F peak h (load_data fl payload pc)
        (λ vm. unfold load_data load in ground (arith, Kept-refl vm))

  Does-load_retain : (peak h payload pc : ℕ) → Does F peak h h Any (load_retain fl payload pc)
  Does-load_retain peak h payload pc =
      Does-quiet F peak h (load_retain fl payload pc)
        (λ vm. unfold load_retain load in ground (arith, Kept-refl vm))

  Does-store_data :
      (peak h payload : ℕ) (v : VmValue F) (pc : ℕ)
      → Does F peak h h Any (store_data fl payload v pc)
  Does-store_data peak h payload v pc =
      Does-quiet F peak h (store_data fl payload v pc)
        (λ vm. unfold store_data store in ground (arith, Kept-refl vm))

  Does-store_retain :
      (peak h payload : ℕ) (v : VmValue F) (pc : ℕ)
      → Does F peak h h Any (store_retain fl payload v pc)
  Does-store_retain peak h payload v pc =
      Does-quiet F peak h (store_retain fl payload v pc)
        (λ vm. unfold store_retain store in ground (arith, Kept-refl vm))

  Does-write_output :
      (peak h payload : ℕ) (v : VmValue F) (pc : ℕ)
      → Does F peak h h Any (write_output payload v pc)
  Does-write_output peak h payload v pc =
      Does-quiet F peak h (write_output payload v pc)
        (λ vm. unfold write_output set_slot in ground (arith, Kept-refl vm))

  Does-read_input : (peak h idx pc : ℕ) → Does F peak h h Any (read_input idx pc)
  Does-read_input peak h idx pc =
      Does-quiet F peak h (read_input idx pc)
        (λ vm. unfold read_input get in ground (arith, Kept-refl vm))

  Does-read_output : (peak h idx pc : ℕ) → Does F peak h h Any (read_output idx pc)
  Does-read_output peak h idx pc =
      Does-quiet F peak h (read_output idx pc)
        (λ vm. unfold read_output get in ground (arith, Kept-refl vm))

  Does-read_quality : (peak h idx pc : ℕ) → Does F peak h h Any (read_quality idx pc)
  Does-read_quality peak h idx pc =
      Does-quiet F peak h (read_quality idx pc)
        (λ vm. unfold read_quality get_quality_good in ground (arith, Kept-refl vm))

  Does-apply_binop :
      (peak h : ℕ) (op : Opcode) (a b : VmValue F) (pc : ℕ)
      → Does F peak h h Any (apply_binop fl op a b pc)
  Does-apply_binop peak h op a b pc = Does-quiet F peak h (apply_binop fl op a b pc) (λ vm.
      unfold apply_binop in
      (
        refl,
        record { code = refl; table = refl; frames = refl },
        binop_tame fl peak op a b pc vm.div0_count,
      ))

  module _ (pc next h h' : ℕ) (Q : Control → Type 0) (q : Q (goto next)) where
    -- What ends with a push.
    Does-push_on :
        (m : ℕ) (v : VmValue F) → suc m ≡ h' → Does F h' m h' Q (push v pc >> pure (goto next))
    Does-push_on m v e =
        Does-bind h' m h' h' Any Q (push v pc) (λ _. pure (goto next))
          (Does-push h' m h' v pc e (omega arith))
          (λ _ _. Does-pure F h' h' h' Q (goto next) refl q)

    Does-binary :
        (op : Opcode) (m : ℕ)
        → h ≡ suc (suc m)
        → h' ≡ suc m
        → Does F h' h h' Q (binary fl op pc next)
    unfolding binary
    Does-binary op m e k =
        Does-bind h' h (suc m) h' Any Q _ _ (Does-pop F h' h (suc m) pc e) (λ b _.
          Does-bind h' (suc m) m h' Any Q _ _ (Does-pop F h' (suc m) m pc refl) (λ a _.
            Does-bind h' m m h' Any Q _ _ (Does-apply_binop h' m op a b pc)
              (λ r _. Does-push_on m r (omega arith))))

    Does-lift :
        (m : ℕ) (r : Result (VmValue F) Fault)
        → IsTameResult h' r
        → Does F h' m m Any (lift_result r)
    Does-lift m r t = Does-quiet F h' m (lift_result r) (λ vm. (refl, Kept-refl vm, t))

    Does-unary :
        (op : Opcode) (m : ℕ) → h ≡ suc m → h' ≡ suc m → Does F h' h h' Q (unary fl op pc next)
    unfolding unary
    Does-unary op m e k = Does-bind h' h m h' Any Q _ _ (Does-pop F h' h m pc e) (λ a _.
        Does-bind h' m m h' Any Q _ _
          (Does-lift m (unary_op fl op a pc) (unary_op_tame fl h' op a pc))
          (λ r _. Does-push_on m r (omega arith)))

    Does-conversion :
        (payload m : ℕ) → h ≡ suc m → h' ≡ suc m → Does F h' h h' Q (conversion fl payload pc next)
    unfolding conversion
    Does-conversion payload m e k = Does-bind h' h m h' Any Q _ _ (Does-pop F h' h m pc e) (λ a _.
        Does-bind h' m m h' Any Q _ _
          (Does-quiet F h' m _ (λ vm. (refl, Kept-refl vm, ground arith)))
          (λ ty _. Does-push_on m (convert fl a ty) (omega arith)))

  module _ (pc next h h' payload : ℕ) where
    pub Does-exec_simple :
        (op : Opcode)
        → IsPlain op
        → pops (simple op payload) ≤ h
        → h' ≡ h - pops (simple op payload) + pushes (simple op payload)
        → Does F h' h h' (Goes (simple op payload) next) (exec_simple fl op payload pc next)
    unfolding exec_simple
    Does-exec_simple nop p o e = Does-pure F h' h h' _ _ (omega arith) (inl (refl, refl))
    Does-exec_simple halt p o e = Does-pure F h' h h' _ _ (omega arith) tt
    Does-exec_simple ret p o e = absurd p
    Does-exec_simple push_i_dint p o e = absurd p
    Does-exec_simple push_i_real p o e = absurd p
    Does-exec_simple push_time p o e = absurd p
    Does-exec_simple call_fb p o e = absurd p
    Does-exec_simple push_i_bool p o e =
        Does-push_on pc next h h' _ (inl (refl, refl)) h _ (omega arith)
    Does-exec_simple ld_data p o e =
        Does-bind h' h h h' Any _ _ _ (Does-load_data h' h payload pc)
          (λ v _. Does-push_on pc next h h' _ (inl (refl, refl)) h v (omega arith))
    Does-exec_simple ld_retain p o e =
        Does-bind h' h h h' Any _ _ _ (Does-load_retain h' h payload pc)
          (λ v _. Does-push_on pc next h h' _ (inl (refl, refl)) h v (omega arith))
    Does-exec_simple st_data p o e =
        Does-bind h' h h' h' Any _ _ _ (Does-pop F h' h h' pc (omega arith)) (λ v _.
          Does-bind h' h' h' h' Any _ _ _ (Does-store_data h' h' payload v pc)
            (λ _ _. Does-pure F h' h' h' _ _ refl (inl (refl, refl))))
    Does-exec_simple st_retain p o e =
        Does-bind h' h h' h' Any _ _ _ (Does-pop F h' h h' pc (omega arith)) (λ v _.
          Does-bind h' h' h' h' Any _ _ _ (Does-store_retain h' h' payload v pc)
            (λ _ _. Does-pure F h' h' h' _ _ refl (inl (refl, refl))))
    Does-exec_simple st_q p o e =
        Does-bind h' h h' h' Any _ _ _ (Does-pop F h' h h' pc (omega arith)) (λ v _.
          Does-bind h' h' h' h' Any _ _ _ (Does-write_output h' h' payload v pc)
            (λ _ _. Does-pure F h' h' h' _ _ refl (inl (refl, refl))))
    Does-exec_simple ld_i p o e =
        Does-bind h' h h h' Any _ _ _ (Does-read_input h' h payload pc)
          (λ v _. Does-push_on pc next h h' _ (inl (refl, refl)) h v (omega arith))
    Does-exec_simple ld_q p o e =
        Does-bind h' h h h' Any _ _ _ (Does-read_output h' h payload pc)
          (λ v _. Does-push_on pc next h h' _ (inl (refl, refl)) h v (omega arith))
    Does-exec_simple ld_iq p o e =
        Does-bind h' h h h' Any _ _ _ (Does-read_quality h' h payload pc)
          (λ g _. Does-push_on pc next h h' _ (inl (refl, refl)) h (bool g) (omega arith))
    Does-exec_simple neg p o e =
        Does-unary pc next h h' _ (inl (refl, refl)) neg (h - 1) (omega arith) (omega arith)
    Does-exec_simple Opcode.not p o e =
        Does-unary pc next h h' _ (inl (refl, refl)) Opcode.not (h - 1) (omega arith) (omega arith)
    Does-exec_simple jmp p o e = Does-pure F h' h h' _ _ (omega arith) (inr refl)
    Does-exec_simple jmp_if p o e =
        Does-bind h' h h' h' Any _ _ _ (Does-pop F h' h h' pc (omega arith))
          (λ c _. Does-pure F h' h' h' _ _ refl (ground arith))
    Does-exec_simple jmp_if_not p o e =
        Does-bind h' h h' h' Any _ _ _ (Does-pop F h' h h' pc (omega arith))
          (λ c _. Does-pure F h' h' h' _ _ refl (ground arith))
    Does-exec_simple conv p o e =
        Does-conversion pc next h h' _ (inl (refl, refl)) payload (h - 1) (omega arith)
          (omega arith)
    Does-exec_simple op p o e =
        Does-binary pc next h h' _ (inl (refl, refl)) op (h - 2) (omega arith) (omega arith)

    pub Does-exec_imm :
        (op : Opcode) (imm : ℕ)
        → IsWide op
        → h' ≡ suc h
        → Does F h' h h' (Goes (with_imm32 op payload imm) next) (exec_imm fl op imm pc next)
    unfolding exec_imm
    Does-exec_imm push_i_dint imm w e =
        Does-push_on pc next h h' _ (inl (refl, refl)) h _ (omega arith)
    Does-exec_imm push_i_real imm w e =
        Does-push_on pc next h h' _ (inl (refl, refl)) h _ (omega arith)
    Does-exec_imm push_time imm w e =
        Does-push_on pc next h h' _ (inl (refl, refl)) h _ (omega arith)
    Does-exec_imm _ imm w e = absurd w

  applied :
      (vm : Vm F) (peak h : ℕ) (id : PrimitiveId) (pc : ℕ)
      (r : Result (PrimitiveStore F × PrimitiveOutputs F) PrimitiveCallError)
      → ((p : PrimitiveStore F × PrimitiveOutputs F) → r ≡ ok p → p.1.count ≡ output_count id)
      → length vm.stack ≡ h
      → Post vm peak h
          (λ (out : PrimitiveOutputs F). out.count ≡ output_count id)
          (primitive_outcome vm pc r)
  unfolding Post
  applied vm peak h id pc (err e) k l = (tt, Kept-refl vm)
  applied vm peak h id pc (ok (prims, out)) k l =
      (l, record { code = refl; table = refl; frames = refl }, k (prims, out) refl)

  Does-apply_primitive :
      (peak h : ℕ) (id : PrimitiveId) (instance : ℕ) (inputs : List (StackValue F)) (now_ms pc : ℕ)
      → Does F peak h h
          (λ (out : PrimitiveOutputs F). out.count ≡ output_count id)
          (apply_primitive fl id instance inputs now_ms pc)
  unfolding Does apply_primitive
  Does-apply_primitive peak h id instance inputs now_ms pc vm l =
      applied vm peak h id pc
        (call_primitive fl.conversions vm.primitives id instance inputs now_ms)
        (λ p e.
          (call_primitive-Called fl.conversions vm.primitives id instance inputs now_ms p
            e).1.outputs)
        l

  Does-call_prim :
      (h h' pc now_ms instance : ℕ) (prim : Option PrimitiveId)
      → block_pops prim ≤ h
      → h' ≡ h - block_pops prim + block_pushes prim
      → Does F h' h h' Any (call_prim fl prim instance now_ms pc)
  unfolding call_prim
  Does-call_prim h h' pc now_ms instance none o e = unfold Does Post in (λ vm l. (tt, Kept-refl vm))
  Does-call_prim h h' pc now_ms instance (some id) o e =
      let m = h - input_count id in
      Does-bind h' h m h' Any Any _ _ (Does-pop_inputs h' (input_count id) h m [] pc (omega arith))
        (λ inputs _.
          Does-bind h' m m h' (λ (out : PrimitiveOutputs F). out.count ≡ output_count id) Any _ _
            (Does-apply_primitive h' m id instance inputs now_ms pc)
            (λ out c.
              Does-push_outputs h' out.count m h' id out.values pc (omega arith) (omega arith)))

  module _ (h h' pc now_ms next : ℕ) where
    Does-exec_call :
        (fb_kind fb_id instance_base : ℕ)
        → fb_kind ≡ 0
        → pops (call_block fb_kind fb_id instance_base) ≤ h
        → h'
          ≡ h
            - pops (call_block fb_kind fb_id instance_base)
            + pushes (call_block fb_kind fb_id instance_base)
        → Does F h' h h'
            (Goes (call_block fb_kind fb_id instance_base) next)
            (exec_call fl fb_kind fb_id instance_base now_ms pc next)
    unfolding exec_call
    Does-exec_call zero fb_id instance_base k o e =
        Does-bind h' h h' h' Any _ _ _
          (Does-call_prim h h' pc now_ms instance_base (from_id fb_id) o e)
          (λ _ _. Does-pure F h' h' h' _ _ refl (inl (refl, refl)))
    Does-exec_call (suc fb_kind) fb_id instance_base k o e = absurd (omega arith)

    -- An instruction that has its operands leads to the height that the verifier counts, and to a
    -- place to which the verifier goes.
    pub Does-execute :
        (i : DecodedInstr)
        → IsLocal i
        → pops i ≤ h
        → h' ≡ h - pops i + pushes i
        → Does F h' h h' (Goes i next) (execute fl i now_ms pc next)
    unfolding execute
    Does-execute (simple op payload) l o e = Does-exec_simple pc next h h' payload op l o e
    Does-execute (with_imm32 op payload imm) l o e =
        Does-exec_imm pc next h h' payload op imm l (omega arith)
    Does-execute (call_block fb_kind fb_id instance_base) l o e =
        Does-exec_call fb_kind fb_id instance_base l o e
