-- ===== src/Ir/Verify/Transfer.antt =====
-- What one instruction does to the abstract stack (crates/plc-ir/src/verify.rs).
use my_soft_plc.Prelude.{
  ℕ, zero, suc, ◌+◌, ◌^◌, ◌%◌, Bool, true, false, ◌&&◌, Option, none, some, List, [], ◌∷◌, Result,
  ok, err, ok_or, reject_if, ◌>>=◌, ◌>>◌, leb, ltb, length, not, ◌==◌, if◌then◌else◌,
}
use my_soft_plc.Ir.IrType
use my_soft_plc.Ir.IrType.{IrType, bool, dint, real, time, type_eq, is_numeric, is_integral}
use my_soft_plc.Ir.Opcode.{
  Opcode, nop, halt, push_i_dint, push_i_real, push_i_bool, push_time, ld_data, st_data, ld_retain,
  st_retain, ld_i, st_q, ld_q, ld_iq, add, sub, mul, div, neg, and, or, xor, eq, ne, lt, le, gt, ge,
  jmp, jmp_if, jmp_if_not, call_fb, ret, conv,
}
use my_soft_plc.Ir.PrimitiveId.{from_id, input_count, output_count}
use my_soft_plc.Ir.Encode.{DecodedInstr, simple, with_imm32, call_block}
use my_soft_plc.Ir.Module.{IrModule}

pub data VerifyError : Type 0 where
  rule : ℕ → VerifyError

-- A type, or `none` where it is not known.
abbrev pub AbsType : Type 0
AbsType = Option IrType

abbrev pub Stack : Type 0
Stack = List AbsType

abbrev pub max_stack : ℕ
max_stack = 256

abbrev pub max_call_depth : ℕ
max_call_depth = 32

unfoldable pub push : Stack → AbsType → Result Stack VerifyError
push stack ty = if leb max_stack (length stack) then err (rule 2) else ok (ty ∷ stack)

unfoldable pub pop : Stack → Result (AbsType × Stack) VerifyError
pop [] = err (rule 2)
pop (ty ∷ stack) = ok (ty, stack)

-- `Option::or`.
abbrev or_else : AbsType → AbsType → AbsType
or_else none b = b
or_else (some t) b = some t

binary_numeric : AbsType → AbsType → Result AbsType VerifyError
binary_numeric (some x) (some y) =
    if type_eq x y && is_numeric x
    then ok (some x)
    else if not (type_eq x y)
    then err (rule 3)
    else ok (some x)
binary_numeric a b = ok (or_else a b)

is_bool : IrType → Bool
is_bool t = type_eq t bool

binary_logic : AbsType → AbsType → Result AbsType VerifyError
unfolding is_bool is_integral
binary_logic (some x) (some y) =
    if is_bool x && is_bool y
    then ok (some bool)
    else if type_eq x y && is_integral x
    then ok (some x)
    else err (rule 3)
binary_logic a b = ok (or_else (or_else a b) (some bool))

check_offset : ℕ → ℕ → Result (Unit {0}) VerifyError
check_offset off size = reject_if (ltb 0 size && leb size off) (rule 4)

-- The code is only measured.
check_jmp_target : IrModule → ℕ → Result (Unit {0}) VerifyError
check_jmp_target m target = do
  reject_if (not (target % 4 == 0)) (rule 1)
  reject_if (leb (length m.code) target) (rule 1)

-- `JMP_IF*` wants a condition that is BOOL or not known.
check_condition : AbsType → Result (Unit {0}) VerifyError
unfolding is_bool
check_condition none = ok tt
check_condition (some t) = reject_if (not (is_bool t)) (rule 3)

-- What an instruction leaves: the stack, the next places with their call depths in the order in
-- which they are pushed, and whether it ends the path.
pub record Effect : Type 0 where
  pub stack : Stack
  pub next_pcs : List (ℕ × ℕ)
  pub terminal : Bool

abbrev pub goes_on : ℕ → ℕ → Stack → Result Effect VerifyError
goes_on next depth stack =
    ok (record { stack = stack; next_pcs = (next, depth) ∷ []; terminal = false })

abbrev ends : Stack → Result Effect VerifyError
ends stack = ok (record { stack = stack; next_pcs = []; terminal = true })

arithmetic : ℕ → ℕ → Stack → Result Effect VerifyError
unfolding push pop binary_numeric
arithmetic next depth s = do
  (b, below) ← pop s
  (a, rest) ← pop below
  r ← binary_numeric a b
  left ← push rest r
  goes_on next depth left

logic : ℕ → ℕ → Stack → Result Effect VerifyError
unfolding push pop binary_logic
logic next depth s = do
  (b, below) ← pop s
  (a, rest) ← pop below
  r ← binary_logic a b
  left ← push rest r
  goes_on next depth left

comparison : ℕ → ℕ → Stack → Result Effect VerifyError
unfolding push pop
comparison next depth s = do
  (_, below) ← pop s
  (_, rest) ← pop below
  left ← push rest (some bool)
  goes_on next depth left

-- Both places are pushed, the target first.
branch : IrModule → ℕ → ℕ → ℕ → Stack → Result Effect VerifyError
unfolding pop check_condition check_jmp_target
branch m next depth target s = do
  (c, rest) ← pop s
  check_condition c
  check_jmp_target m target
  ok (record { stack = rest; next_pcs = (target, depth) ∷ (next, depth) ∷ []; terminal = false })

-- The arms of `DecodedInstr::Simple`; `next` is `pc + size`.
unfoldable pub transfer_simple :
    IrModule → Bool → ℕ → ℕ → Opcode → ℕ → Stack → Result Effect VerifyError
unfolding push pop check_offset check_jmp_target arithmetic logic comparison branch
transfer_simple m is_user_fb next depth nop payload s = goes_on next depth s
transfer_simple m is_user_fb next depth halt payload s = if is_user_fb then err (rule 6) else ends s
transfer_simple m is_user_fb next depth ret payload s = ends s
transfer_simple m is_user_fb next depth push_i_bool payload s = do
  s' ← push s (some bool)
  goes_on next depth s'
transfer_simple m is_user_fb next depth ld_data payload s = do
  check_offset payload m.data_size
  s' ← push s none
  goes_on next depth s'
transfer_simple m is_user_fb next depth ld_retain payload s = do
  check_offset payload m.retain_size
  s' ← push s none
  goes_on next depth s'
transfer_simple m is_user_fb next depth st_data payload s = do
  check_offset payload m.data_size
  (_, s') ← pop s
  goes_on next depth s'
transfer_simple m is_user_fb next depth st_retain payload s = do
  check_offset payload m.retain_size
  (_, s') ← pop s
  goes_on next depth s'
transfer_simple m is_user_fb next depth ld_i payload s = do
  reject_if (leb m.input_slots payload) (rule 4)
  s' ← push s none
  goes_on next depth s'
transfer_simple m is_user_fb next depth ld_iq payload s = do
  reject_if (leb m.input_slots payload) (rule 4)
  s' ← push s (some bool)
  goes_on next depth s'
transfer_simple m is_user_fb next depth st_q payload s = do
  reject_if (leb m.output_slots payload) (rule 4)
  (_, s') ← pop s
  goes_on next depth s'
transfer_simple m is_user_fb next depth ld_q payload s = do
  reject_if (leb m.output_slots payload) (rule 4)
  s' ← push s none
  goes_on next depth s'
transfer_simple m is_user_fb next depth add payload s = arithmetic next depth s
transfer_simple m is_user_fb next depth sub payload s = arithmetic next depth s
transfer_simple m is_user_fb next depth mul payload s = arithmetic next depth s
transfer_simple m is_user_fb next depth div payload s = arithmetic next depth s
transfer_simple m is_user_fb next depth neg payload s = do
  (a, s') ← pop s
  left ← push s' a
  goes_on next depth left
transfer_simple m is_user_fb next depth and payload s = logic next depth s
transfer_simple m is_user_fb next depth or payload s = logic next depth s
transfer_simple m is_user_fb next depth xor payload s = logic next depth s
transfer_simple m is_user_fb next depth Opcode.not payload s = do
  (a, s') ← pop s
  left ← push s' (or_else a (some bool))
  goes_on next depth left
transfer_simple m is_user_fb next depth eq payload s = comparison next depth s
transfer_simple m is_user_fb next depth ne payload s = comparison next depth s
transfer_simple m is_user_fb next depth lt payload s = comparison next depth s
transfer_simple m is_user_fb next depth le payload s = comparison next depth s
transfer_simple m is_user_fb next depth gt payload s = comparison next depth s
transfer_simple m is_user_fb next depth ge payload s = comparison next depth s
transfer_simple m is_user_fb next depth jmp payload s = do
  check_jmp_target m payload
  goes_on payload depth s
transfer_simple m is_user_fb next depth jmp_if payload s = branch m next depth payload s
transfer_simple m is_user_fb next depth jmp_if_not payload s = branch m next depth payload s
transfer_simple m is_user_fb next depth conv payload s = do
  (_, s') ← pop s
  ty ← ok_or (IrType.from_u8 (payload % 2 ^ 8)) (rule 3)
  left ← push s' (some ty)
  goes_on next depth left
transfer_simple m is_user_fb next depth push_i_dint payload s = err (rule 7)
transfer_simple m is_user_fb next depth push_i_real payload s = err (rule 7)
transfer_simple m is_user_fb next depth push_time payload s = err (rule 7)
transfer_simple m is_user_fb next depth call_fb payload s = err (rule 7)

-- The arms of `DecodedInstr::WithImm32`.
unfoldable pub transfer_imm : ℕ → ℕ → Opcode → Stack → Result Effect VerifyError
unfolding push
transfer_imm next depth push_i_dint s = do s' ← push s (some dint); goes_on next depth s'
transfer_imm next depth push_i_real s = do s' ← push s (some real); goes_on next depth s'
transfer_imm next depth push_time s = do s' ← push s (some time); goes_on next depth s'
transfer_imm next depth _ s = err (rule 7)

-- `for _ in 0..n { pop(&mut stack)?; }`.
unfoldable pub pop_inputs : ℕ → Stack → Result Stack VerifyError
unfolding pop
pop_inputs zero s = ok s
pop_inputs (suc n) [] = err (rule 2)
pop_inputs (suc n) (_ ∷ s) = pop_inputs n s

-- The outputs from the `i`-th on, `n` of them: the first is taken for a BOOL, the others for TIME.
unfoldable pub push_outputs : ℕ → ℕ → Stack → Result Stack VerifyError
unfolding push
push_outputs zero i s = ok s
push_outputs (suc n) i s =
    let ty = if i == 0 then some bool else some time in push s ty >>= push_outputs n (i + 1)

unfoldable pub call_primitive : ℕ → ℕ → ℕ → Stack → Result Effect VerifyError
unfolding pop_inputs push_outputs from_id
call_primitive next depth fb_id s = do
  prim ← ok_or (from_id fb_id) (rule 7)
  rest ← pop_inputs (input_count prim) s
  left ← push_outputs (output_count prim) 0 rest
  goes_on next depth left

-- The arm of `DecodedInstr::CallFb`. The body of a user block is not followed.
unfoldable pub transfer_call : ℕ → ℕ → ℕ → ℕ → Stack → Result Effect VerifyError
unfolding call_primitive
transfer_call next depth fb_kind fb_id s =
    if fb_kind == 0 then call_primitive next depth fb_id s else goes_on next (depth + 1) s

unfoldable pub transfer : IrModule → Bool → ℕ → ℕ → DecodedInstr → Stack → Result Effect VerifyError
unfolding transfer_simple transfer_imm transfer_call
transfer m is_user_fb next depth (simple op payload) s =
    transfer_simple m is_user_fb next depth op payload s
transfer m is_user_fb next depth (with_imm32 op payload imm) s = transfer_imm next depth op s
transfer m is_user_fb next depth (call_block fb_kind fb_id instance_base) s =
    transfer_call next depth fb_kind fb_id s
