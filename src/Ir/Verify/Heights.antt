-- ===== src/Ir/Verify/Heights.antt =====
-- The heights of the operand stack that an accepted instruction leads to
-- (crates/plc-ir/src/verify.rs).
use my_soft_plc.Prelude.{
  ℕ, zero, suc, ◌+◌, ◌-◌, ◌≤◌, ◌≡◌, ◌≢◌, refl, Bool, true, false, Option, none, some, List, [], ◌∷◌,
  ok, >>=-eq-ok, ok_or, ok_or-eq-ok, Bool-cases, sym, subst, ◌∙◌, arith, ◌⊎◌, inl, inr, length,
  ◌==◌, if◌then◌else◌,
}
use my_soft_plc.Ir.Opcode.{
  Opcode, nop, halt, push_i_dint, push_i_real, push_time, st_data, st_retain, st_q, add, sub, mul,
  div, neg, and, or, xor, eq, ne, lt, le, gt, ge, jmp, jmp_if, jmp_if_not, ret, conv,
}
use my_soft_plc.Ir.PrimitiveId.{PrimitiveId, from_id, input_count, output_count}
use my_soft_plc.Ir.IrType.{bool, time}
use my_soft_plc.Ir.Encode.{DecodedInstr, simple, with_imm32, call_block}
use my_soft_plc.Ir.Module.{IrModule}
use my_soft_plc.Ir.Verify.Transfer.{
  rule, AbsType, Stack, Effect, max_stack, push, pop_inputs, push_outputs, call_primitive, goes_on,
  transfer, transfer_simple, transfer_imm, transfer_call,
}

-- How many operands the machine takes for an opcode, and how many results it leaves.
abbrev pub op_pops : Opcode → ℕ
op_pops st_data = 1
op_pops st_retain = 1
op_pops st_q = 1
op_pops neg = 1
op_pops Opcode.not = 1
op_pops conv = 1
op_pops jmp_if = 1
op_pops jmp_if_not = 1
op_pops add = 2
op_pops sub = 2
op_pops mul = 2
op_pops div = 2
op_pops and = 2
op_pops or = 2
op_pops xor = 2
op_pops eq = 2
op_pops ne = 2
op_pops lt = 2
op_pops le = 2
op_pops gt = 2
op_pops ge = 2
op_pops _ = 0

abbrev pub op_pushes : Opcode → ℕ
op_pushes nop = 0
op_pushes halt = 0
op_pushes ret = 0
op_pushes jmp = 0
op_pushes jmp_if = 0
op_pushes jmp_if_not = 0
op_pushes st_data = 0
op_pushes st_retain = 0
op_pushes st_q = 0
op_pushes _ = 1

abbrev pub block_pops : Option PrimitiveId → ℕ
block_pops none = 0
block_pops (some prim) = input_count prim

abbrev pub block_pushes : Option PrimitiveId → ℕ
block_pushes none = 0
block_pushes (some prim) = output_count prim

-- A call of a native block takes its inputs and leaves its outputs. A call of a user block leaves
-- the stack as it is: its body is taken to do so.
abbrev pub pops : DecodedInstr → ℕ
pops (simple op payload) = op_pops op
pops (with_imm32 op payload imm) = 0
pops (call_block fb_kind fb_id instance_base) =
    if fb_kind == 0 then block_pops (from_id fb_id) else 0

abbrev pub pushes : DecodedInstr → ℕ
pushes (simple op payload) = op_pushes op
pushes (with_imm32 op payload imm) = 1
pushes (call_block fb_kind fb_id instance_base) =
    if fb_kind == 0 then block_pushes (from_id fb_id) else 0

-- Where control may go: the next place, the target of a jump, or nowhere.
abbrev pub falls_through : DecodedInstr → Bool
falls_through (simple halt payload) = false
falls_through (simple ret payload) = false
falls_through (simple jmp payload) = false
falls_through _ = true

abbrev pub jumps : DecodedInstr → Option ℕ
jumps (simple jmp target) = some target
jumps (simple jmp_if target) = some target
jumps (simple jmp_if_not target) = some target
jumps _ = none

abbrev pub HasPc : ℕ → List (ℕ × ℕ) → Type 0
HasPc pc [] = ⊥
HasPc pc ((p, depth) ∷ rest) = (p ≡ pc) ⊎ HasPc pc rest

abbrev pub Targets : Option ℕ → List (ℕ × ℕ) → Type 0
Targets none nexts = Unit
Targets (some target) nexts = HasPc target nexts

abbrev pub Continues : Bool → ℕ → List (ℕ × ℕ) → Type 0
Continues false next nexts = Unit
Continues true next nexts = HasPc next nexts

-- The effect has the heights of the machine and goes wherever the machine may go.
pub record IsFaithful (i : DecodedInstr) (next : ℕ) (s : Stack) (e : Effect) : Type 0 where
  pub operands : pops i ≤ length s
  pub height : length e.stack ≡ length s - pops i + pushes i
  pub room : pushes i ≡ 0 → length e.stack ≤ length s
  pub capacity : pushes i ≢ 0 → length e.stack ≤ max_stack
  pub onward : Continues (falls_through i) next e.next_pcs
  pub target : Targets (jumps i) e.next_pcs
  pub few : length e.next_pcs ≤ 2
  pub final : e.terminal ≡ true → e.next_pcs ≡ []

simple-IsFaithful :
    (m : IrModule) (u : Bool) (next depth payload : ℕ) (op : Opcode) (s : Stack) (e : Effect)
    → transfer_simple m u next depth op payload s ≡ ok e
    → IsFaithful (simple op payload) next s e
unfolding transfer_simple
simple-IsFaithful m u next depth payload nop s e h = ground arith
simple-IsFaithful m u next depth payload _ s e h = ground arith

imm-IsFaithful :
    (next depth payload imm : ℕ) (op : Opcode) (s : Stack) (e : Effect)
    → transfer_imm next depth op s ≡ ok e
    → IsFaithful (with_imm32 op payload imm) next s e
unfolding transfer_imm
imm-IsFaithful next depth payload imm push_i_dint s e h = ground arith
imm-IsFaithful next depth payload imm push_i_real s e h = ground arith
imm-IsFaithful next depth payload imm push_time s e h = ground arith
imm-IsFaithful next depth payload imm _ s e h = cc

length-pop_inputs : (n : ℕ) (s rest : Stack) → pop_inputs n s ≡ ok rest → n + length rest ≡ length s
unfolding pop_inputs
length-pop_inputs zero s rest h = ground arith
length-pop_inputs (suc n) [] rest h = cc
length-pop_inputs (suc n) (a ∷ s) rest h = omega (arith, length-pop_inputs n s rest h)

length-push :
    (s left : Stack) (ty : AbsType)
    → push s ty ≡ ok left
    → (length left ≡ suc (length s)) × (length left ≤ max_stack)
unfolding push
length-push s left ty h = ground arith

pushed_more :
    (n : ℕ) (s one left : Stack)
    → (length one ≡ suc (length s)) × (length one ≤ max_stack)
    → (length left ≡ n + length one) × (n ≢ 0 → length left ≤ max_stack)
    → (length left ≡ suc n + length s) × (suc n ≢ 0 → length left ≤ max_stack)
pushed_more zero s one left p q = (omega arith, λ _. omega arith)
pushed_more (suc n) s one left p q = (omega arith, λ _. q.1 (λ e. absurd (omega arith)))

length-push_outputs :
    (n i : ℕ) (s left : Stack)
    → push_outputs n i s ≡ ok left
    → (length left ≡ n + length s) × (n ≢ 0 → length left ≤ max_stack)
unfolding push_outputs
length-push_outputs zero i s left h = ground arith
length-push_outputs (suc n) i s left h =
    let (one, pushed, more) =
      >>=-eq-ok (push s (if i == 0 then some bool else some time)) (push_outputs n (i + 1)) h in
    pushed_more n s one left (length-push s one (if i == 0 then some bool else some time) pushed)
      (length-push_outputs n (i + 1) one left more)

output_count-pos : (prim : PrimitiveId) → output_count prim ≢ 0
unfolding output_count
output_count-pos prim e = ground arith

record PrimitiveEffect (next depth fb_id : ℕ) (s : Stack) (e : Effect) : Type 0 where
  prim : PrimitiveId
  known : from_id fb_id ≡ some prim
  operands : input_count prim ≤ length s
  height : length e.stack ≡ length s - input_count prim + output_count prim
  capacity : length e.stack ≤ max_stack
  onward : e.next_pcs ≡ (next, depth) ∷ []
  goes_on : e.terminal ≡ false

call_primitive_effect :
    (next depth fb_id : ℕ) (s : Stack) (e : Effect)
    → call_primitive next depth fb_id s ≡ ok e
    → PrimitiveEffect next depth fb_id s e
unfolding call_primitive
call_primitive_effect next depth fb_id s e h =
    let (prim, found, h1) = >>=-eq-ok (ok_or (from_id fb_id) (rule 7)) _ h in
    let (rest, popped, h2) = >>=-eq-ok (pop_inputs (input_count prim) s) _ h1 in
    let (left, pushed, h3) = >>=-eq-ok (push_outputs (output_count prim) 0 rest) _ h2 in
    let fewer = length-pop_inputs (input_count prim) s rest popped in
    let (more, bounded) = length-push_outputs (output_count prim) 0 rest left pushed in
    let top : left ≡ e.stack = ground arith in
    record {
      prim = prim;
      known = ok_or-eq-ok (from_id fb_id) (rule 7) found;
      operands = omega arith;
      height =
          subst (λ (t : Stack). length t ≡ length s - input_count prim + output_count prim) top
            (omega arith);
      capacity = subst (λ (t : Stack). length t ≤ max_stack) top (bounded (output_count-pos prim));
      onward = ground arith;
      goes_on = ground arith;
    }

native_call :
    (next depth fb_kind fb_id base : ℕ) (s : Stack) (e : Effect)
    → (fb_kind == 0) ≡ true
    → PrimitiveEffect next depth fb_id s e
    → IsFaithful (call_block fb_kind fb_id base) next s e
native_call next depth fb_kind fb_id base s e native p =
    let popped : pops (call_block fb_kind fb_id base) ≡ input_count p.prim =
      rw native (rw p.known) in
    let pushed : pushes (call_block fb_kind fb_id base) ≡ output_count p.prim =
      rw native (rw p.known) in
    record {
      operands = rw popped p.operands;
      height = rw (popped, pushed) p.height;
      room = λ z. absurd (output_count-pos p.prim (sym pushed ∙ z));
      capacity = λ _. p.capacity;
      onward = rw p.onward (inl refl);
      target = tt;
      few = rw p.onward (omega arith);
      final = λ t. cc (p.goes_on);
    }

user_call :
    (next depth fb_kind fb_id base : ℕ) (s : Stack) (e : Effect)
    → (fb_kind == 0) ≡ false
    → goes_on next (depth + 1) s ≡ ok e
    → IsFaithful (call_block fb_kind fb_id base) next s e
user_call next depth fb_kind fb_id base s e user h = ground arith

call-IsFaithful :
    (next depth fb_kind fb_id base : ℕ) (s : Stack) (e : Effect)
    → transfer_call next depth fb_kind fb_id s ≡ ok e
    → IsFaithful (call_block fb_kind fb_id base) next s e
unfolding transfer_call
call-IsFaithful next depth fb_kind fb_id base s e h = elim (Bool-cases (fb_kind == 0)) [
  | inl native ↦
      native_call next depth fb_kind fb_id base s e native
        (call_primitive_effect next depth fb_id s e (rw native at h))
  | inr user ↦ user_call next depth fb_kind fb_id base s e user (rw user at h)
]

-- An accepted instruction finds its operands on the stack, leaves the height that the machine
-- leaves, with room for what it pushes, and the verifier goes on wherever the machine may go.
pub transfer-IsFaithful :
    (m : IrModule) (u : Bool) (next depth : ℕ) (i : DecodedInstr) (s : Stack) (e : Effect)
    → transfer m u next depth i s ≡ ok e
    → IsFaithful i next s e
unfolding transfer
transfer-IsFaithful m u next depth (simple op payload) s e h =
    simple-IsFaithful m u next depth payload op s e h
transfer-IsFaithful m u next depth (with_imm32 op payload imm) s e h =
    imm-IsFaithful next depth payload imm op s e h
transfer-IsFaithful m u next depth (call_block fb_kind fb_id base) s e h =
    call-IsFaithful next depth fb_kind fb_id base s e h
