-- ===== src/Ir/Encode.antt =====
-- Instruction words of crates/plc-ir/src/encode.rs. `|` of words that share no bit is written as
-- their sum, `<<` and `>>` as a product and a quotient, and a mask of low bits as a remainder.
pub mod RoundTrip
use my_soft_plc.Prelude.{
  ℕ, ◌+◌, ◌*◌, ◌/◌, ◌%◌, ◌^◌, Bool, Option, none, some, List, ◌++◌, Result, ok, err, ltb, length,
  if◌then◌else◌,
}
use my_soft_plc.Ir.Bytes.{to_le_bytes, from_le_bytes, slice}
use my_soft_plc.Ir.Opcode
use my_soft_plc.Ir.Opcode.{Opcode, push_i_dint, push_i_real, push_time, call_fb, to_u8, from_u8}

pub data DecodedInstr : Type 0 where
  simple : (op : Opcode) (payload : ℕ) → DecodedInstr
  with_imm32 : (op : Opcode) (payload imm : ℕ) → DecodedInstr
  call_block : (fb_kind fb_id instance_base : ℕ) → DecodedInstr

-- The errors of `decode_instruction`; the texts are left out, the byte that is no opcode is kept.
pub data DecodeError : Type 0 where
  truncated missing_imm32 missing_operands : DecodeError
  unknown_opcode : ℕ → DecodeError

unfoldable pub pack_word : Opcode → ℕ → ℕ
pack_word op payload = to_u8 op * 2 ^ 24 + payload % 2 ^ 24

unfoldable pub encode_instruction : DecodedInstr → List ℕ
unfolding pack_word
encode_instruction (simple op payload) = to_le_bytes 4 (pack_word op payload)
encode_instruction (with_imm32 op payload imm) =
    to_le_bytes 4 (pack_word op payload) ++ to_le_bytes 4 imm
encode_instruction (call_block fb_kind fb_id instance_base) =
    to_le_bytes 4 (pack_word call_fb 0)
    ++ (to_le_bytes 4 (fb_kind % 2 ^ 8 * 2 ^ 24 + fb_id % 2 ^ 24) ++ to_le_bytes 4 instance_base)

-- `u32::from_le_bytes(code[pc..pc + 4])`.
abbrev pub word_at : List ℕ → ℕ → ℕ
word_at code pc = from_le_bytes (slice code pc 4)

unfoldable pub decode_imm32 : List ℕ → ℕ → Opcode → ℕ → Result (DecodedInstr × ℕ) DecodeError
decode_imm32 code pc op payload =
    let imm = word_at code (pc + 4) in
    if ltb (length code) (pc + 8) then err missing_imm32 else ok (with_imm32 op payload imm, 8)

-- The arms on the opcode, with its payload.
unfoldable pub decode_operands : List ℕ → ℕ → Opcode → ℕ → Result (DecodedInstr × ℕ) DecodeError
unfolding decode_imm32
decode_operands code pc call_fb payload =
    let w1 = word_at code (pc + 4) in
    let base = word_at code (pc + 8) in
    if ltb (length code) (pc + 12)
    then err missing_operands
    else ok (call_block (w1 / 2 ^ 24 % 2 ^ 8) (w1 % 2 ^ 24) base, 12)
decode_operands code pc push_i_dint payload = decode_imm32 code pc push_i_dint payload
decode_operands code pc push_i_real payload = decode_imm32 code pc push_i_real payload
decode_operands code pc push_time payload = decode_imm32 code pc push_time payload
decode_operands code pc op payload = ok (simple op payload, 4)

-- `Opcode::from_u8(op_byte).ok_or_else(…)?`.
unfoldable pub decode_opcode :
    List ℕ → ℕ → ℕ → Option Opcode → Result (DecodedInstr × ℕ) DecodeError
unfolding decode_operands
decode_opcode code pc word none = err (unknown_opcode (word / 2 ^ 24 % 2 ^ 8))
decode_opcode code pc word (some op) = decode_operands code pc op (word % 2 ^ 24)

-- The instruction at `pc` and its size.
unfoldable pub decode_instruction : List ℕ → ℕ → Result (DecodedInstr × ℕ) DecodeError
unfolding decode_opcode
decode_instruction code pc =
    let word = word_at code pc in
    let decoded = decode_opcode code pc word (from_u8 (word / 2 ^ 24 % 2 ^ 8)) in
    if ltb (length code) (pc + 4) then err truncated else decoded
