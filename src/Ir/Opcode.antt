-- ===== src/Ir/Opcode.antt =====
-- The opcode catalog of crates/plc-ir/src/opcode.rs.
pub mod Codes
use my_soft_plc.Prelude.{ℕ, Option, List, [], ◌∷◌}
use my_soft_plc.Types.Ascii.{bytes, to_ascii_uppercase}
use my_soft_plc.Ir.Table.{lookup_u8, lookup_text}

pub data Opcode : Type 0 where
  nop halt push_i_dint push_i_real push_i_bool push_time ld_data st_data ld_retain st_retain ld_i
        st_q ld_q ld_iq add sub mul div neg and or xor not eq ne lt le gt ge jmp jmp_if jmp_if_not
        call_fb ret conv :
      Opcode

-- The discriminants, `op as u8`.
unfoldable pub to_u8 : Opcode → ℕ
to_u8 nop = 0x00
to_u8 halt = 0x01
to_u8 push_i_dint = 0x02
to_u8 push_i_real = 0x03
to_u8 push_i_bool = 0x04
to_u8 push_time = 0x05
to_u8 ld_data = 0x10
to_u8 st_data = 0x11
to_u8 ld_retain = 0x12
to_u8 st_retain = 0x13
to_u8 ld_i = 0x14
to_u8 st_q = 0x15
to_u8 ld_q = 0x16
to_u8 ld_iq = 0x17
to_u8 add = 0x20
to_u8 sub = 0x21
to_u8 mul = 0x22
to_u8 div = 0x23
to_u8 neg = 0x24
to_u8 and = 0x28
to_u8 or = 0x29
to_u8 xor = 0x2a
to_u8 not = 0x2b
to_u8 eq = 0x30
to_u8 ne = 0x31
to_u8 lt = 0x32
to_u8 le = 0x33
to_u8 gt = 0x34
to_u8 ge = 0x35
to_u8 jmp = 0x40
to_u8 jmp_if = 0x41
to_u8 jmp_if_not = 0x42
to_u8 call_fb = 0x50
to_u8 ret = 0x51
to_u8 conv = 0x60

-- The arms of `from_u8`, in their order.
abbrev pub codes : List (ℕ × Opcode)
codes =
    (0x00, nop)
    ∷ (0x01, halt)
    ∷ (0x02, push_i_dint)
    ∷ (0x03, push_i_real)
    ∷ (0x04, push_i_bool)
    ∷ (0x05, push_time)
    ∷ (0x10, ld_data)
    ∷ (0x11, st_data)
    ∷ (0x12, ld_retain)
    ∷ (0x13, st_retain)
    ∷ (0x14, ld_i)
    ∷ (0x15, st_q)
    ∷ (0x16, ld_q)
    ∷ (0x17, ld_iq)
    ∷ (0x20, add)
    ∷ (0x21, sub)
    ∷ (0x22, mul)
    ∷ (0x23, div)
    ∷ (0x24, neg)
    ∷ (0x28, and)
    ∷ (0x29, or)
    ∷ (0x2a, xor)
    ∷ (0x2b, not)
    ∷ (0x30, eq)
    ∷ (0x31, ne)
    ∷ (0x32, lt)
    ∷ (0x33, le)
    ∷ (0x34, gt)
    ∷ (0x35, ge)
    ∷ (0x40, jmp)
    ∷ (0x41, jmp_if)
    ∷ (0x42, jmp_if_not)
    ∷ (0x50, call_fb)
    ∷ (0x51, ret)
    ∷ (0x60, conv)
    ∷ []

unfoldable pub from_u8 : ℕ → Option Opcode
from_u8 v = lookup_u8 v codes

unfoldable pub mnemonic : Opcode → List ℕ
mnemonic nop = bytes "NOP"
mnemonic halt = bytes "HALT"
mnemonic push_i_dint = bytes "PUSHI_DINT"
mnemonic push_i_real = bytes "PUSHI_REAL"
mnemonic push_i_bool = bytes "PUSHI_BOOL"
mnemonic push_time = bytes "PUSH_TIME"
mnemonic ld_data = bytes "LD_DATA"
mnemonic st_data = bytes "ST_DATA"
mnemonic ld_retain = bytes "LD_RETAIN"
mnemonic st_retain = bytes "ST_RETAIN"
mnemonic ld_i = bytes "LD_I"
mnemonic st_q = bytes "ST_Q"
mnemonic ld_q = bytes "LD_Q"
mnemonic ld_iq = bytes "LD_IQ"
mnemonic add = bytes "ADD"
mnemonic sub = bytes "SUB"
mnemonic mul = bytes "MUL"
mnemonic div = bytes "DIV"
mnemonic neg = bytes "NEG"
mnemonic and = bytes "AND"
mnemonic or = bytes "OR"
mnemonic xor = bytes "XOR"
mnemonic not = bytes "NOT"
mnemonic eq = bytes "EQ"
mnemonic ne = bytes "NE"
mnemonic lt = bytes "LT"
mnemonic le = bytes "LE"
mnemonic gt = bytes "GT"
mnemonic ge = bytes "GE"
mnemonic jmp = bytes "JMP"
mnemonic jmp_if = bytes "JMP_IF"
mnemonic jmp_if_not = bytes "JMP_IF_NOT"
mnemonic call_fb = bytes "CALL_FB"
mnemonic ret = bytes "RET"
mnemonic conv = bytes "CONV"

-- The arms of `from_mnemonic`, in their order.
abbrev pub mnemonics : List (List ℕ × Opcode)
mnemonics =
    (bytes "NOP", nop)
    ∷ (bytes "HALT", halt)
    ∷ (bytes "PUSHI_DINT", push_i_dint)
    ∷ (bytes "PUSHI_REAL", push_i_real)
    ∷ (bytes "PUSHI_BOOL", push_i_bool)
    ∷ (bytes "PUSH_TIME", push_time)
    ∷ (bytes "LD_DATA", ld_data)
    ∷ (bytes "ST_DATA", st_data)
    ∷ (bytes "LD_RETAIN", ld_retain)
    ∷ (bytes "ST_RETAIN", st_retain)
    ∷ (bytes "LD_I", ld_i)
    ∷ (bytes "ST_Q", st_q)
    ∷ (bytes "LD_Q", ld_q)
    ∷ (bytes "LD_IQ", ld_iq)
    ∷ (bytes "ADD", add)
    ∷ (bytes "SUB", sub)
    ∷ (bytes "MUL", mul)
    ∷ (bytes "DIV", div)
    ∷ (bytes "NEG", neg)
    ∷ (bytes "AND", and)
    ∷ (bytes "OR", or)
    ∷ (bytes "XOR", xor)
    ∷ (bytes "NOT", not)
    ∷ (bytes "EQ", eq)
    ∷ (bytes "NE", ne)
    ∷ (bytes "LT", lt)
    ∷ (bytes "LE", le)
    ∷ (bytes "GT", gt)
    ∷ (bytes "GE", ge)
    ∷ (bytes "JMP", jmp)
    ∷ (bytes "JMP_IF", jmp_if)
    ∷ (bytes "JMP_IF_NOT", jmp_if_not)
    ∷ (bytes "CALL_FB", call_fb)
    ∷ (bytes "RET", ret)
    ∷ (bytes "CONV", conv)
    ∷ []

unfoldable pub from_mnemonic : List ℕ → Option Opcode
unfolding to_ascii_uppercase
from_mnemonic s = lookup_text (to_ascii_uppercase s) mnemonics
