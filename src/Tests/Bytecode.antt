-- ===== src/Tests/Bytecode.antt =====
-- Runs of the bytecode models (crates/plc-ir).
use my_soft_plc.Prelude.{
  ℕ, ◌≡◌, ◌≢◌, ◌↔◌, refl, false, none, some, List, [], ◌∷◌, ◌++◌, ok, err, inl, arith, length,
}
use my_soft_plc.Types.Ascii.{bytes}
use my_soft_plc.Ir.Opcode
use my_soft_plc.Ir.Opcode.{push_i_bool, jmp_if, jmp_if_not, halt, ret, and, st_q, push_i_dint}
use my_soft_plc.Ir.Opcode.Codes.{from_u8_iff}
use my_soft_plc.Ir.Encode.{
  DecodedInstr, simple, with_imm32, call_block, encode_instruction, decode_instruction,
}
use my_soft_plc.Ir.Encode.RoundTrip.{decode-encode}
use my_soft_plc.Ir.Module.{IrModule, EntryPoint}
use my_soft_plc.Ir.Verify.Transfer.{VerifyError, rule}
use my_soft_plc.Ir.Verify.Loop.{verify_module}
use my_soft_plc.Ir.Verify.Safety.{enter, IsSafe}
use my_soft_plc.Ir.Verify.Accepted.{verify_module-IsSafe, verify_module-total}

abbrev pub assembled : List DecodedInstr → List ℕ
assembled [] = []
assembled (i ∷ rest) = encode_instruction i ++ assembled rest

abbrev pub main : EntryPoint
main = record { name = bytes "task.main"; pc = 0; is_user_fb = false }

abbrev pub program : List DecodedInstr → IrModule
program instrs = record {
  ir_major = 0;
  ir_minor = 1;
  const_size = 0;
  data_size = 16;
  retain_size = 0;
  input_slots = 0;
  output_slots = 1;
  entries = main ∷ [];
  const_data = [];
  code = assembled instrs;
}

-- A loop that is left by a branch.
abbrev pub looping : List DecodedInstr
looping =
    simple push_i_bool 1
    ∷ simple jmp_if 12
    ∷ simple Opcode.jmp 0
    ∷ with_imm32 push_i_dint 0 7
    ∷ simple st_q 0
    ∷ simple halt 0
    ∷ []

pub looping_accepted : verify_module (program looping) ≡ some (ok tt)
unfolding verify_module encode_instruction my_soft_plc.Ir.Bytes.to_le_bytes
    my_soft_plc.Ir.Verify.Loop.check_entries my_soft_plc.Ir.Verify.Loop.check_entry
    my_soft_plc.Ir.Verify.Loop.verify_entry my_soft_plc.Ir.Verify.Loop.verify_loop
    my_soft_plc.Ir.Verify.Loop.continue my_soft_plc.Ir.Verify.Loop.take_work
    my_soft_plc.Ir.Verify.Loop.round decode_instruction Opcode.from_u8
    my_soft_plc.Ir.Bytes.from_le_bytes my_soft_plc.Ir.Bytes.slice Opcode.to_u8
    my_soft_plc.Ir.Verify.Transfer.transfer
looping_accepted = refl

verify_module-IsSafe_example : IsSafe (program looping) 0 0
verify_module-IsSafe_example =
    verify_module-IsSafe (program looping) main looping_accepted (inl refl) (enter refl refl)

-- AND on an empty stack.
underflow_rejected :
    verify_module (program (simple Opcode.and 0 ∷ simple halt 0 ∷ [])) ≡ some (err (rule 2))
unfolding verify_module encode_instruction my_soft_plc.Ir.Bytes.to_le_bytes
    my_soft_plc.Ir.Verify.Loop.check_entries my_soft_plc.Ir.Verify.Loop.check_entry
    my_soft_plc.Ir.Verify.Loop.verify_entry my_soft_plc.Ir.Verify.Loop.verify_loop
    my_soft_plc.Ir.Verify.Loop.continue my_soft_plc.Ir.Verify.Loop.take_work
    my_soft_plc.Ir.Verify.Loop.round decode_instruction Opcode.from_u8
    my_soft_plc.Ir.Bytes.from_le_bytes my_soft_plc.Ir.Bytes.slice Opcode.to_u8
    my_soft_plc.Ir.Verify.Transfer.transfer
underflow_rejected = refl

-- The code ends without HALT or RET.
runs_off : verify_module (program (simple push_i_bool 1 ∷ [])) ≡ some (err (rule 1))
unfolding verify_module encode_instruction my_soft_plc.Ir.Bytes.to_le_bytes
    my_soft_plc.Ir.Verify.Loop.check_entries my_soft_plc.Ir.Verify.Loop.check_entry
    my_soft_plc.Ir.Verify.Loop.verify_entry my_soft_plc.Ir.Verify.Loop.verify_loop
    my_soft_plc.Ir.Verify.Loop.continue my_soft_plc.Ir.Verify.Loop.take_work
    my_soft_plc.Ir.Verify.Loop.round decode_instruction Opcode.from_u8
    my_soft_plc.Ir.Bytes.from_le_bytes my_soft_plc.Ir.Bytes.slice Opcode.to_u8
    my_soft_plc.Ir.Verify.Transfer.transfer
runs_off = refl

decode-encode_example :
    decode_instruction (1 ∷ 2 ∷ (encode_instruction (call_block 0 1 64) ++ 0 ∷ [])) 2
    ≡ ok (call_block 0 1 64, length (encode_instruction (call_block 0 1 64)))
decode-encode_example = decode-encode (call_block 0 1 64) (1 ∷ 2 ∷ []) (0 ∷ []) (omega arith)

verify_module-total_example : verify_module (program looping) ≢ none
verify_module-total_example = verify_module-total (program looping)

from_u8_iff_example : (Opcode.from_u8 0x42 ≡ some jmp_if_not) ↔ (Opcode.to_u8 jmp_if_not ≡ 0x42)
from_u8_iff_example = from_u8_iff 0x42 jmp_if_not
