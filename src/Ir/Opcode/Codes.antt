-- ===== src/Ir/Opcode/Codes.antt =====
-- The codes and the mnemonics of the opcodes (crates/plc-ir/src/opcode.rs) determine them.
use my_soft_plc.Prelude.{ℕ, ◌<◌, ◌≡◌, refl, ◌↔◌, subst, some, arith, All}
use my_soft_plc.Ir.Table.{lookup_u8-code}
use my_soft_plc.Ir.Opcode.{
  Opcode, nop, halt, push_i_dint, push_i_real, push_i_bool, push_time, ld_data, st_data, ld_retain,
  st_retain, ld_i, st_q, ld_q, ld_iq, add, sub, mul, div, neg, and, or, xor, not, eq, ne, lt, le,
  gt, ge, jmp, jmp_if, jmp_if_not, call_fb, ret, conv, to_u8, codes, from_u8, mnemonic,
  from_mnemonic,
}

pub from_u8-to_u8 : (op : Opcode) → from_u8 (to_u8 op) ≡ some op
unfolding from_u8 to_u8
from_u8-to_u8 nop = refl
from_u8-to_u8 halt = refl
from_u8-to_u8 push_i_dint = refl
from_u8-to_u8 push_i_real = refl
from_u8-to_u8 push_i_bool = refl
from_u8-to_u8 push_time = refl
from_u8-to_u8 ld_data = refl
from_u8-to_u8 st_data = refl
from_u8-to_u8 ld_retain = refl
from_u8-to_u8 st_retain = refl
from_u8-to_u8 ld_i = refl
from_u8-to_u8 st_q = refl
from_u8-to_u8 ld_q = refl
from_u8-to_u8 ld_iq = refl
from_u8-to_u8 add = refl
from_u8-to_u8 sub = refl
from_u8-to_u8 mul = refl
from_u8-to_u8 div = refl
from_u8-to_u8 neg = refl
from_u8-to_u8 and = refl
from_u8-to_u8 or = refl
from_u8-to_u8 xor = refl
from_u8-to_u8 not = refl
from_u8-to_u8 eq = refl
from_u8-to_u8 ne = refl
from_u8-to_u8 lt = refl
from_u8-to_u8 le = refl
from_u8-to_u8 gt = refl
from_u8-to_u8 ge = refl
from_u8-to_u8 jmp = refl
from_u8-to_u8 jmp_if = refl
from_u8-to_u8 jmp_if_not = refl
from_u8-to_u8 call_fb = refl
from_u8-to_u8 ret = refl
from_u8-to_u8 conv = refl

pub to_u8-lt : (op : Opcode) → to_u8 op < 256
unfolding to_u8
to_u8-lt nop = omega arith
to_u8-lt halt = omega arith
to_u8-lt push_i_dint = omega arith
to_u8-lt push_i_real = omega arith
to_u8-lt push_i_bool = omega arith
to_u8-lt push_time = omega arith
to_u8-lt ld_data = omega arith
to_u8-lt st_data = omega arith
to_u8-lt ld_retain = omega arith
to_u8-lt st_retain = omega arith
to_u8-lt ld_i = omega arith
to_u8-lt st_q = omega arith
to_u8-lt ld_q = omega arith
to_u8-lt ld_iq = omega arith
to_u8-lt add = omega arith
to_u8-lt sub = omega arith
to_u8-lt mul = omega arith
to_u8-lt div = omega arith
to_u8-lt neg = omega arith
to_u8-lt and = omega arith
to_u8-lt or = omega arith
to_u8-lt xor = omega arith
to_u8-lt not = omega arith
to_u8-lt eq = omega arith
to_u8-lt ne = omega arith
to_u8-lt lt = omega arith
to_u8-lt le = omega arith
to_u8-lt gt = omega arith
to_u8-lt ge = omega arith
to_u8-lt jmp = omega arith
to_u8-lt jmp_if = omega arith
to_u8-lt jmp_if_not = omega arith
to_u8-lt call_fb = omega arith
to_u8-lt ret = omega arith
to_u8-lt conv = omega arith

codes_right : All (λ (e : ℕ × Opcode). to_u8 e.1 ≡ e.0) codes
unfolding to_u8
codes_right = omega arith

pub to_u8-from_u8 : (v : ℕ) (op : Opcode) → from_u8 v ≡ some op → to_u8 op ≡ v
unfolding from_u8
to_u8-from_u8 v op h = lookup_u8-code to_u8 v op codes codes_right h

-- A mnemonic is read back to its opcode, in lower or upper case.
pub from_mnemonic-mnemonic : (op : Opcode) → from_mnemonic (mnemonic op) ≡ some op
unfolding from_mnemonic mnemonic
from_mnemonic-mnemonic nop = refl
from_mnemonic-mnemonic halt = refl
from_mnemonic-mnemonic push_i_dint = refl
from_mnemonic-mnemonic push_i_real = refl
from_mnemonic-mnemonic push_i_bool = refl
from_mnemonic-mnemonic push_time = refl
from_mnemonic-mnemonic ld_data = refl
from_mnemonic-mnemonic st_data = refl
from_mnemonic-mnemonic ld_retain = refl
from_mnemonic-mnemonic st_retain = refl
from_mnemonic-mnemonic ld_i = refl
from_mnemonic-mnemonic st_q = refl
from_mnemonic-mnemonic ld_q = refl
from_mnemonic-mnemonic ld_iq = refl
from_mnemonic-mnemonic add = refl
from_mnemonic-mnemonic sub = refl
from_mnemonic-mnemonic mul = refl
from_mnemonic-mnemonic div = refl
from_mnemonic-mnemonic neg = refl
from_mnemonic-mnemonic and = refl
from_mnemonic-mnemonic or = refl
from_mnemonic-mnemonic xor = refl
from_mnemonic-mnemonic not = refl
from_mnemonic-mnemonic eq = refl
from_mnemonic-mnemonic ne = refl
from_mnemonic-mnemonic lt = refl
from_mnemonic-mnemonic le = refl
from_mnemonic-mnemonic gt = refl
from_mnemonic-mnemonic ge = refl
from_mnemonic-mnemonic jmp = refl
from_mnemonic-mnemonic jmp_if = refl
from_mnemonic-mnemonic jmp_if_not = refl
from_mnemonic-mnemonic call_fb = refl
from_mnemonic-mnemonic ret = refl
from_mnemonic-mnemonic conv = refl

-- A byte is read as an opcode exactly when it is the code of that opcode.
pub from_u8_iff : (v : ℕ) (op : Opcode) → (from_u8 v ≡ some op) ↔ (to_u8 op ≡ v)
from_u8_iff v op = (to_u8-from_u8 v op, λ h. subst (λ n. from_u8 n ≡ some op) h (from_u8-to_u8 op))
