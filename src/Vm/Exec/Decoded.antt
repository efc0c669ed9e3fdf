-- ===== src/Vm/Exec/Decoded.antt =====
-- The forms of the instructions that the decoder gives (crates/plc-ir/src/encode.rs).
use my_soft_plc.Prelude.{ℕ, ◌/◌, ◌%◌, ◌^◌, ◌≡◌, arith, Option, none, some, List, ok}
use my_soft_plc.Ir.Opcode.{Opcode, push_i_dint, push_i_real, push_time, call_fb, from_u8}
use my_soft_plc.Ir.Encode.{
  DecodedInstr, simple, with_imm32, call_block, decode_instruction, decode_opcode, decode_operands,
  decode_imm32, word_at,
}
use my_soft_plc.Vm.Exec.Local.{IsWide}

-- The wide opcodes have their immediate word, and CALL_FB its operands.
abbrev pub IsNarrow : Opcode → Type 0
IsNarrow push_i_dint = ⊥
IsNarrow push_i_real = ⊥
IsNarrow push_time = ⊥
IsNarrow call_fb = ⊥
IsNarrow _ = Unit {0}

abbrev pub IsDecoded : DecodedInstr → Type 0
IsDecoded (simple op payload) = IsNarrow op
IsDecoded (with_imm32 op payload imm) = IsWide op
IsDecoded (call_block fb_kind fb_id instance_base) = Unit {0}

operands-IsDecoded :
    (code : List ℕ) (pc : ℕ) (op : Opcode) (payload : ℕ) (i : DecodedInstr) (size : ℕ)
    → decode_operands code pc op payload ≡ ok (i, size)
    → IsDecoded i
unfolding decode_operands decode_imm32
operands-IsDecoded code pc op payload i size h = ground arith

opcode-IsDecoded :
    (code : List ℕ) (pc word : ℕ) (o : Option Opcode) (i : DecodedInstr) (size : ℕ)
    → decode_opcode code pc word o ≡ ok (i, size)
    → IsDecoded i
unfolding decode_opcode
opcode-IsDecoded code pc word none i size h = cc
opcode-IsDecoded code pc word (some op) i size h =
    operands-IsDecoded code pc op (word % 2 ^ 24) i size h

pub decode_instruction-IsDecoded :
    (code : List ℕ) (pc : ℕ) (i : DecodedInstr) (size : ℕ)
    → decode_instruction code pc ≡ ok (i, size)
    → IsDecoded i
unfolding decode_instruction
decode_instruction-IsDecoded code pc i size h =
    let word = word_at code pc in
    opcode-IsDecoded code pc word (from_u8 (word / 2 ^ 24 % 2 ^ 8)) i size (ground arith)
