-- ===== src/Vm/Exec.antt =====
-- The run loop of the machine (crates/plc-vm/src/exec.rs, `run_at`). One turn of the loop is `step`;
-- the loop runs on the instruction budget.
pub mod Effects
pub mod Tame
pub mod Local
pub mod Decoded
pub mod Armed
pub mod Accepted
use my_soft_plc.Prelude.{
  ℕ, zero, suc, ◌+◌, ◌-◌, ◌^◌, ◌%◌, Bool, true, false, not, ◌&&◌, ◌||◌, Option, none, some, List,
  [], ◌∷◌, Result, ok, err, leb, length, get_or, min, ◌==◌, if◌then◌else◌,
}
use my_soft_plc.Prelude.Int.{ℤ}
use my_soft_plc.Prelude.Word.{half32, signed}
use my_soft_plc.Ir.IrType
use my_soft_plc.Ir.Opcode.{
  Opcode, nop, halt, push_i_dint, push_i_real, push_i_bool, push_time, ld_data, st_data, ld_retain,
  st_retain, ld_i, st_q, ld_q, ld_iq, add, sub, mul, div, neg, and, or, xor, eq, ne, lt, le, gt, ge,
  jmp, jmp_if, jmp_if_not, call_fb, ret, conv,
}
use my_soft_plc.Ir.PrimitiveId.{PrimitiveId, ton, tof, tp, from_id, input_count}
use my_soft_plc.Ir.Encode.{
  DecodedInstr, DecodeError, simple, with_imm32, call_block, decode_instruction,
}
use my_soft_plc.Ir.Verify.Transfer.{max_stack, max_call_depth}
use my_soft_plc.Fb.Dispatch
use my_soft_plc.Fb.Dispatch.{
  StackValue, PrimitiveStore, PrimitiveCallError, PrimitiveOutputs, call_primitive,
}
use my_soft_plc.Vm.Value.{
  FloatOps, VmValue, VmError, bool, dint, real, time, as_bool, convert, to_stack_value,
  from_stack_value, stack_underflow, stack_overflow, call_depth, type_error, decode, primitive,
  unknown_user_fb, budget,
}
use my_soft_plc.Vm.Memory.{ByteSegment, store, load, get, set_slot, get_quality_good, clear_written}
use my_soft_plc.Vm.Operators.{Fault, error, unary_op, binop}
use my_soft_plc.Vm.State.{Vm, Frame, Action, pure, raise, lift_result, ◌>>=◌, ◌>>◌, entry_pc}

pub data ExecResult : Type 0 where
  halted returned : ExecResult

-- Where a turn of the loop leaves the program counter, or how it ends the run.
pub data Control : Type 0 where
  goto : ℕ → Control
  finished : ExecResult → Control

-- `data_base.saturating_add(payload)` of `u32`.
abbrev pub data_offset : ℕ → ℕ → ℕ
data_offset base payload = min (base + payload) (2 ^ 32 - 1)

abbrev checked {ℓ} : {A : Type ℓ} → Result A VmError → Result A Fault
checked (ok a) = ok a
checked (err e) = err (error e)

abbrev is_timer : PrimitiveId → Bool
is_timer ton = true
is_timer tof = true
is_timer tp = true
is_timer _ = false

module _ {ℓ} {F : Type ℓ} where
  unfoldable pub push : VmValue F → ℕ → Action F (Unit {0})
  push v pc vm =
      if leb max_stack (length vm.stack)
      then (vm, err (error (stack_overflow pc)))
      else (record vm { stack = v ∷ vm.stack }, ok tt)

  abbrev popped : Vm F → ℕ → List (VmValue F) → Vm F × Result (VmValue F) Fault
  popped vm pc [] = (vm, err (error (stack_underflow pc)))
  popped vm pc (v ∷ rest) = (record vm { stack = rest }, ok v)

  unfoldable pub pop : ℕ → Action F (VmValue F)
  pop pc vm = popped vm pc vm.stack

  unfoldable pub read_input : ℕ → ℕ → Action F (VmValue F)
  unfolding get
  read_input idx pc vm = (vm, checked (get vm.inputs idx pc))

  unfoldable pub read_output : ℕ → ℕ → Action F (VmValue F)
  unfolding get
  read_output idx pc vm = (vm, checked (get vm.outputs idx pc))

  unfoldable pub read_quality : ℕ → ℕ → Action F Bool
  unfolding get_quality_good
  read_quality idx pc vm = (vm, checked (get_quality_good vm.inputs idx pc))

  -- `self.outputs.set(idx, v, pc)?`.
  unfoldable pub write_output : ℕ → VmValue F → ℕ → Action F (Unit {0})
  unfolding set_slot
  write_output idx v pc vm = elim (set_slot vm.outputs idx v pc) [
    | err e ↦ (vm, err (error e))
    | ok image ↦ (record vm { outputs = image }, ok tt)
  ]

  -- RET: the frame that is left, if there is one.
  unfoldable pub leave : Vm F → List Frame → Vm F × Result Control Fault
  leave vm [] = (vm, ok (finished returned))
  leave vm (frame ∷ []) = (record vm { frames = []; data_base = 0 }, ok (goto frame.return_pc))
  leave vm (frame ∷ caller ∷ rest) = (
    record vm { frames = caller ∷ rest; data_base = caller.data_base },
    ok (goto frame.return_pc),
  )

  abbrev user_entry : Vm F → ℕ → Option ℕ
  user_entry vm fb_id = get_or vm.user_fb_pc fb_id none

  -- A call of a user block, whose entry has been looked up.
  unfoldable pub enter : ℕ → ℕ → ℕ → ℕ → Option ℕ → Action F Control
  enter pc next fb_id instance_base none vm = (vm, err (error (unknown_user_fb fb_id)))
  enter pc next fb_id instance_base (some entry) vm =
      if leb max_call_depth (length vm.frames) then (vm, err (error (call_depth pc))) else (
        record vm {
          frames = record { return_pc = next; data_base = instance_base } ∷ vm.frames;
          data_base = instance_base;
        },
        ok (goto entry),
      )

  -- The last input is on top: it is taken first.
  unfoldable pub pop_inputs : ℕ → List (StackValue F) → ℕ → Action F (List (StackValue F))
  unfolding pop to_stack_value
  pop_inputs zero inputs pc = pure inputs
  pop_inputs (suc n) inputs pc = do v ← pop pc; pop_inputs n (to_stack_value v ∷ inputs) pc

  -- The first `n` outputs, the last of them first.
  unfoldable pub push_outputs : PrimitiveId → List (StackValue F) → ℕ → ℕ → Action F (Unit {0})
  unfolding push from_stack_value
  push_outputs id values zero pc = pure tt
  push_outputs id values (suc i) pc = do
    push (from_stack_value (get_or values i (Dispatch.bool false)) (is_timer id && (i == 1))) pc
    push_outputs id values i pc

  -- What follows a turn of the loop.
  unfoldable pub proceed :
      Vm F × Result Control Fault
      → (Vm F → ℕ → Vm F × Result ExecResult Fault)
      → Vm F × Result ExecResult Fault
  proceed (vm, err e) loop = (vm, err e)
  proceed (vm, ok (finished r)) loop = (vm, ok r)
  proceed (vm, ok (goto pc)) loop = loop vm pc

  unfoldable pub started : Vm F → Vm F
  unfolding clear_written
  started vm = record vm {
    stack = [];
    frames = [];
    data_base = 0;
    outputs = clear_written vm.outputs;
  }

  -- What the machine makes of the outcome of a native block.
  abbrev pub primitive_outcome :
      Vm F
      → ℕ
      → Result (PrimitiveStore F × PrimitiveOutputs F) PrimitiveCallError
      → Vm F × Result (PrimitiveOutputs F) Fault
  primitive_outcome vm pc (err e) = (vm, err (error (primitive pc)))
  primitive_outcome vm pc (ok (primitives', out)) = (record vm { primitives = primitives' }, ok out)

module _ {ℓ} {F : Type ℓ} (fl : FloatOps F) where
  unfoldable pub load_data : ℕ → ℕ → Action F (VmValue F)
  unfolding load
  load_data payload pc vm =
      (vm, checked (load fl vm.data_seg (data_offset vm.data_base payload) pc))

  unfoldable pub load_retain : ℕ → ℕ → Action F (VmValue F)
  unfolding load
  load_retain payload pc vm =
      (vm, checked (load fl vm.retain (data_offset vm.data_base payload) pc))

  unfoldable pub store_data : ℕ → VmValue F → ℕ → Action F (Unit {0})
  unfolding store
  store_data payload v pc vm = elim (store fl vm.data_seg (data_offset vm.data_base payload) v pc) [
    | err e ↦ (vm, err (error e))
    | ok seg ↦ (record vm { data_seg = seg }, ok tt)
  ]

  unfoldable pub store_retain : ℕ → VmValue F → ℕ → Action F (Unit {0})
  unfolding store
  store_retain payload v pc vm = elim (store fl vm.retain (data_offset vm.data_base payload) v pc) [
    | err e ↦ (vm, err (error e))
    | ok seg ↦ (record vm { retain = seg; retain_dirty = true }, ok tt)
  ]

  -- `self.binop(op, a, b, pc)?`, with the counter of the machine.
  unfoldable pub apply_binop : Opcode → VmValue F → VmValue F → ℕ → Action F (VmValue F)
  unfolding binop
  apply_binop op a b pc vm =
      let (div0, r) = binop fl op a b pc vm.div0_count in (record vm { div0_count = div0 }, r)

  binary : Opcode → ℕ → ℕ → Action F Control
  unfolding pop push apply_binop
  binary op pc next = do
    b ← pop pc
    a ← pop pc
    r ← apply_binop op a b pc
    push r pc
    pure (goto next)

  unary : Opcode → ℕ → ℕ → Action F Control
  unfolding pop push unary_op
  unary op pc next = do
    a ← pop pc
    r ← lift_result (unary_op fl op a pc)
    push r pc
    pure (goto next)

  conversion : ℕ → ℕ → ℕ → Action F Control
  unfolding pop push convert
  conversion payload pc next = do
    a ← pop pc
    ty ← lift_result (elim (IrType.from_u8 (payload % 2 ^ 8)) [
      | none ↦ err (error (type_error pc))
      | some ty ↦ ok ty
    ])
    push (convert fl a ty) pc
    pure (goto next)

  -- The arms of `DecodedInstr::Simple`; `next` is `pc + size`.
  unfoldable pub exec_simple : Opcode → ℕ → ℕ → ℕ → Action F Control
  unfolding push pop write_output leave load_data load_retain store_data store_retain binary unary
      conversion read_input read_output read_quality as_bool
  exec_simple nop payload pc next = pure (goto next)
  exec_simple halt payload pc next = pure (finished halted)
  exec_simple ret payload pc next = λ vm. leave vm vm.frames
  exec_simple push_i_bool payload pc next = do push (bool (not (payload == 0))) pc; pure (goto next)
  exec_simple ld_data payload pc next = do v ← load_data payload pc; push v pc; pure (goto next)
  exec_simple st_data payload pc next = do v ← pop pc; store_data payload v pc; pure (goto next)
  exec_simple ld_retain payload pc next = do v ← load_retain payload pc; push v pc; pure (goto next)
  exec_simple st_retain payload pc next = do v ← pop pc; store_retain payload v pc; pure (goto next)
  exec_simple ld_i payload pc next = do v ← read_input payload pc; push v pc; pure (goto next)
  exec_simple st_q payload pc next = do v ← pop pc; write_output payload v pc; pure (goto next)
  exec_simple ld_q payload pc next = do v ← read_output payload pc; push v pc; pure (goto next)
  exec_simple ld_iq payload pc next = do
    g ← read_quality payload pc
    push (bool g) pc
    pure (goto next)
  exec_simple neg payload pc next = unary neg pc next
  exec_simple Opcode.not payload pc next = unary Opcode.not pc next
  exec_simple jmp payload pc next = pure (goto payload)
  exec_simple jmp_if payload pc next = do
    c ← pop pc
    pure (goto (if as_bool c then payload else next))
  exec_simple jmp_if_not payload pc next = do
    c ← pop pc
    pure (goto (if not (as_bool c) then payload else next))
  exec_simple conv payload pc next = conversion payload pc next
  exec_simple push_i_dint payload pc next = raise (error (decode pc))
  exec_simple push_i_real payload pc next = raise (error (decode pc))
  exec_simple push_time payload pc next = raise (error (decode pc))
  exec_simple call_fb payload pc next = raise (error (decode pc))
  exec_simple op payload pc next = binary op pc next

  -- The arms of `DecodedInstr::WithImm32`.
  unfoldable pub exec_imm : Opcode → ℕ → ℕ → ℕ → Action F Control
  unfolding push
  exec_imm push_i_dint imm pc next = do push (dint (signed half32 imm)) pc; pure (goto next)
  exec_imm push_i_real imm pc next = do push (real (fl.from_bits imm)) pc; pure (goto next)
  exec_imm push_time imm pc next = do push (time (signed half32 imm)) pc; pure (goto next)
  exec_imm _ imm pc next = raise (error (decode pc))

  unfoldable pub apply_primitive :
      PrimitiveId → ℕ → List (StackValue F) → ℕ → ℕ → Action F (PrimitiveOutputs F)
  unfolding call_primitive
  apply_primitive id instance inputs now_ms pc vm =
      primitive_outcome vm pc
        (call_primitive fl.conversions vm.primitives id instance inputs now_ms)

  unfoldable pub call_prim : Option PrimitiveId → ℕ → ℕ → ℕ → Action F (Unit {0})
  unfolding pop_inputs apply_primitive push_outputs input_count
  call_prim none instance now_ms pc = raise (error (primitive pc))
  call_prim (some id) instance now_ms pc = do
    inputs ← pop_inputs (input_count id) [] pc
    out ← apply_primitive id instance inputs now_ms pc
    push_outputs id out.values out.count pc

  -- The arm of `DecodedInstr::CallFb`.
  unfoldable pub exec_call : ℕ → ℕ → ℕ → ℕ → ℕ → ℕ → Action F Control
  unfolding call_prim enter from_id
  exec_call fb_kind fb_id instance_base now_ms pc next =
      if fb_kind == 0
      then (call_prim (from_id fb_id) instance_base now_ms pc >> pure (goto next))
      else (λ vm. enter pc next fb_id instance_base (user_entry vm fb_id) vm)

  unfoldable pub execute : DecodedInstr → ℕ → ℕ → ℕ → Action F Control
  unfolding exec_simple exec_imm exec_call
  execute (simple op payload) now_ms pc next = exec_simple op payload pc next
  execute (with_imm32 op payload imm) now_ms pc next = exec_imm op imm pc next
  execute (call_block fb_kind fb_id instance_base) now_ms pc next =
      exec_call fb_kind fb_id instance_base now_ms pc next

  unfoldable pub execute_decoded : ℕ → ℕ → Result (DecodedInstr × ℕ) DecodeError → Action F Control
  unfolding execute
  execute_decoded now_ms pc (err e) vm = (vm, err (error (decode pc)))
  execute_decoded now_ms pc (ok (i, size)) vm = execute i now_ms pc (pc + size) vm

  -- One turn of the loop.
  unfoldable pub step : ℕ → ℕ → Action F Control
  unfolding decode_instruction execute_decoded
  step now_ms pc vm = execute_decoded now_ms pc (decode_instruction vm.code pc) vm

  -- The loop with so many turns left.
  unfoldable pub run_loop : ℕ → ℕ → Vm F → ℕ → Vm F × Result ExecResult Fault
  unfolding step proceed
  run_loop zero now_ms vm pc = (vm, err (error (budget vm.instruction_budget)))
  run_loop (suc left) now_ms vm pc =
      proceed (step now_ms pc vm) (λ next pc'. run_loop left now_ms next pc')

  unfoldable pub run_at : ℕ → ℕ → Action F ExecResult
  unfolding run_loop started
  run_at start_pc now_ms vm = run_loop vm.instruction_budget now_ms (started vm) start_pc

  unfoldable pub run_entry : List ℕ → ℕ → Action F ExecResult
  unfolding entry_pc run_at
  run_entry name now_ms vm = elim (entry_pc name vm) [
    | err e ↦ (vm, err (error e))
    | ok pc ↦ run_at pc now_ms vm
  ]
