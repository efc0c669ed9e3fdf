-- ===== src/Ir/Verify/Loop.antt =====
-- The work list of the verifier (crates/plc-ir/src/verify.rs). A loop takes fuel; `none` means that
-- it ran out.
use my_soft_plc.Prelude.{
  ℕ, zero, suc, ◌+◌, ◌*◌, ◌-◌, ◌%◌, ◌^◌, Bool, true, false, ◌&&◌, not, Option, none, some, List, [],
  ◌∷◌, Result, ok, err, reject_if, ◌>>=◌, ◌>>◌, leb, ltb, min, length, ◌==◌, if◌then◌else◌,
}
use my_soft_plc.Ir.IrType.{type_eq}
use my_soft_plc.Ir.Encode.{DecodedInstr, decode_instruction, DecodeError}
use my_soft_plc.Ir.Module.{IrModule, EntryPoint, ir_major_supported}
use my_soft_plc.Ir.Verify.Transfer.{
  VerifyError, rule, AbsType, Stack, Effect, transfer, max_call_depth,
}

pub types_compatible : AbsType → AbsType → Bool
types_compatible (some t) (some u) = type_eq t u
types_compatible _ _ = true

unfoldable pub stacks_compatible : Stack → Stack → Bool
unfolding types_compatible
stacks_compatible [] [] = true
stacks_compatible (a ∷ rest) (b ∷ other) = types_compatible a b && stacks_compatible rest other
stacks_compatible _ _ = false

-- An entry of the work list: the place, the stack there and the call depth.
pub record WorkItem : Type 0 where
  pub pc : ℕ
  pub stack : Stack
  pub depth : ℕ

abbrev pub Seen : Type 0
Seen = List (ℕ × Stack)

abbrev pub find : ℕ → Seen → Option Stack
find pc [] = none
find pc ((key, stack) ∷ rest) = if key == pc then some stack else find pc rest

pub record State : Type 0 where
  pub seen : Seen
  pub work : List WorkItem
  pub ended_ok : Bool

-- `for (npc, nd) in next_pcs { work.push(…) }`, with the top of the work list at its front.
abbrev pub push_each : Stack → List (ℕ × ℕ) → List WorkItem → List WorkItem
push_each stack [] work = work
push_each stack ((pc, depth) ∷ rest) work =
    push_each stack rest (record { pc = pc; stack = stack; depth = depth } ∷ work)

abbrev pub is_empty : List (ℕ × ℕ) → Bool
is_empty [] = true
is_empty _ = false

-- The end of one round: what the effect of the instruction adds to the work list.
unfoldable pub follow : Seen → List WorkItem → Bool → Effect → Result State VerifyError
follow seen work ended_ok e =
    if e.terminal
    then ok (record { seen = seen; work = work; ended_ok = true })
    else if is_empty e.next_pcs
    then err (rule 6)
    else ok (record { seen = seen; work = push_each e.stack e.next_pcs work; ended_ok = ended_ok })

unfoldable pub run_decoded :
    IrModule
    → Bool
    → WorkItem
    → State
    → Result (DecodedInstr × ℕ) DecodeError
    → Result State VerifyError
unfolding follow
run_decoded m is_user_fb w s (err e) = err (rule 7)
run_decoded m is_user_fb w s (ok (instr, size)) =
    transfer m is_user_fb (w.pc + size) w.depth instr w.stack >>= follow s.seen s.work s.ended_ok

-- `seen.insert(pc, frame.stack.clone())`.
abbrev pub marked : WorkItem → State → State
marked w s = record s { seen = (w.pc, w.stack) ∷ s.seen }

-- A place that is not seen yet.
unfoldable pub visit : IrModule → Bool → WorkItem → State → Result State VerifyError
unfolding run_decoded
visit m is_user_fb w s =
    if leb (length m.code) w.pc
    then err (rule 1)
    else run_decoded m is_user_fb w (marked w s) (decode_instruction m.code w.pc)

unfoldable pub revisit :
    IrModule → Bool → WorkItem → State → Option Stack → Result State VerifyError
unfolding visit stacks_compatible
revisit m is_user_fb w s none = visit m is_user_fb w s
revisit m is_user_fb w s (some prev) = if stacks_compatible prev w.stack then ok s else err (rule 3)

-- One round of the loop, on the work item taken and the rest of the state.
unfoldable pub round : IrModule → Bool → WorkItem → State → Result State VerifyError
unfolding revisit
round m is_user_fb w s = do
  reject_if (ltb max_call_depth w.depth) (rule 5)
  revisit m is_user_fb w s (find w.pc s.seen)

-- `work.pop()`, and the round on what it gives; `none` when the list is empty.
unfoldable pub take_work :
    IrModule → Bool → List WorkItem → State → Option (Result State VerifyError)
take_work m is_user_fb [] s = none
take_work m is_user_fb (w ∷ rest) s = some (round m is_user_fb w (record s { work = rest }))

-- `while let Some(…)`: an error is returned, and an empty list ends the loop.
unfoldable pub continue :
    State
    → Option (Result State VerifyError)
    → (State → Option (Result State VerifyError))
    → Option (Result State VerifyError)
continue s none loop = some (ok s)
continue s (some (err e)) loop = some (err e)
continue s (some (ok next)) loop = loop next

unfoldable pub verify_loop : ℕ → IrModule → Bool → State → Option (Result State VerifyError)
verify_loop zero m is_user_fb s = none
verify_loop (suc fuel) m is_user_fb s =
    continue s (take_work m is_user_fb s.work s) (λ next. verify_loop fuel m is_user_fb next)

abbrev pub start : ℕ → State
start entry_pc = record {
  seen = [];
  work = record { pc = entry_pc; stack = []; depth = 0 } ∷ [];
  ended_ok = false;
}

-- A place is seen once, and adds two work items at most.
abbrev pub enough_fuel : IrModule → ℕ
enough_fuel m = 2 * length m.code + 2

abbrev pub conclude : Option (Result State VerifyError) → Option (Result (Unit {0}) VerifyError)
conclude none = none
conclude (some (err e)) = some (err e)
conclude (some (ok s)) = some (if s.ended_ok then ok tt else err (rule 6))

unfoldable pub verify_entry : IrModule → ℕ → Bool → Option (Result (Unit {0}) VerifyError)
verify_entry m entry_pc is_user_fb =
    conclude (verify_loop (enough_fuel m) m is_user_fb (start entry_pc))

abbrev is_nil : List ℕ → Bool
is_nil [] = true
is_nil _ = false

-- The tests on one entry, and then its verification.
unfoldable pub check_entry : IrModule → EntryPoint → Option (Result (Unit {0}) VerifyError)
check_entry m e =
    let verified = verify_entry m e.pc e.is_user_fb in
    if leb (length m.code) e.pc && not (is_nil m.code)
    then some (err (rule 1))
    else if not (e.pc % 4 == 0)
    then some (err (rule 1))
    else verified

unfoldable pub check_entries : IrModule → List EntryPoint → Option (Result (Unit {0}) VerifyError)
check_entries m [] = some (ok tt)
check_entries m (e ∷ rest) = elim (check_entry m e) [
  | none ↦ none
  | some (err x) ↦ some (err x)
  | some (ok done) ↦ check_entries m rest
]

abbrev max_code_bytes : ℕ
max_code_bytes = 4 * 1024 * 1024

abbrev max_data_retain : ℕ
max_data_retain = 16 * 1024 * 1024

-- `as u32`, and `saturating_add` of two `u32`.
abbrev as_u32 : ℕ → ℕ
as_u32 n = n % 2 ^ 32

abbrev saturating_add_u32 : ℕ → ℕ → ℕ
saturating_add_u32 a b = min (a + b) (2 ^ 32 - 1)

-- The tests on the module as a whole.
unfoldable pub check_header : IrModule → Result (Unit {0}) VerifyError
check_header m = do
  reject_if (not (m.ir_major == ir_major_supported)) (rule 7)
  reject_if (ltb max_code_bytes (as_u32 (length m.code))) (rule 9)
  reject_if (ltb max_data_retain (saturating_add_u32 m.data_size m.retain_size)) (rule 9)
  reject_if (not (length m.code % 4 == 0)) (rule 1)
  reject_if (not (as_u32 (length m.const_data) == m.const_size)) (rule 4)

unfoldable pub verify_module : IrModule → Option (Result (Unit {0}) VerifyError)
unfolding check_header
verify_module m = elim (check_header m) [
  | err e ↦ some (err e)
  | ok done ↦ check_entries m m.entries
]
