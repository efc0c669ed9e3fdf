-- ===== src/Vm/Exec/Tame.antt =====
-- The errors of the arithmetic are errors that an accepted code may end in
-- (crates/plc-vm/src/exec.rs).
use my_soft_plc.Prelude.{ℕ, Result, ok, err, arith}
use my_soft_plc.Prelude.Int.{ℤ}
use my_soft_plc.Prelude.Word.{half32, half64}
use my_soft_plc.Ir.Opcode.{Opcode, add, sub, mul, div}
use my_soft_plc.Vm.Value.{FloatOps, VmValue, int, dint, real, time, lint, as_i64}
use my_soft_plc.Vm.Operators.{
  Fault, divide, int_arith, lint_arith, real_arith, arith_op, binop, unary_op, logic_op, cmp_op,
  compare_integral, tagged,
}
use my_soft_plc.Vm.Exec.Effects.{IsTameResult}

divide_tame : (peak half : ℕ) (x y : ℤ) (d : ℕ) → IsTameResult peak (divide half x y d).1
unfolding divide
divide_tame peak half x y d = ground arith

int_arith_tame :
    (peak : ℕ) (op : Opcode) (x y : ℤ) (d : ℕ) → IsTameResult peak (int_arith op x y d).1
unfolding int_arith
int_arith_tame peak div x y d = divide_tame peak half32 x y d
int_arith_tame peak add x y d = tt
int_arith_tame peak sub x y d = tt
int_arith_tame peak mul x y d = tt
int_arith_tame peak _ x y d = tt

lint_arith_tame :
    (peak : ℕ) (op : Opcode) (x y : ℤ) (pc d : ℕ) → IsTameResult peak (lint_arith op x y pc d).1
unfolding lint_arith
lint_arith_tame peak div x y pc d = divide_tame peak half64 x y d
lint_arith_tame peak add x y pc d = tt
lint_arith_tame peak sub x y pc d = tt
lint_arith_tame peak mul x y pc d = tt
lint_arith_tame peak _ x y pc d = tt

tagged_tame {ℓ κ} :
    {A : Type ℓ} {B : Type κ} (peak : ℕ) (f : A → B) (r : ℕ × Result A Fault)
    → IsTameResult peak r.1
    → IsTameResult peak (tagged f r).1
unfolding tagged
tagged_tame peak f (d, ok a) t = tt
tagged_tame peak f (d, err e) t = t

module _ {ℓ} {F : Type ℓ} (fl : FloatOps F) where
  real_arith_tame :
      (peak : ℕ) (op : Opcode) (x y : F) (pc d : ℕ)
      → IsTameResult peak (real_arith fl op x y pc d).1
  unfolding real_arith
  real_arith_tame peak op x y pc d = ground arith

  pub unary_op_tame :
      (peak : ℕ) (op : Opcode) (v : VmValue F) (pc : ℕ) → IsTameResult peak (unary_op fl op v pc)
  unfolding unary_op
  unary_op_tame peak op v pc = ground arith

  logic_op_tame :
      (peak : ℕ) (op : Opcode) (a b : VmValue F) (pc : ℕ)
      → IsTameResult peak (logic_op fl op a b pc)
  unfolding logic_op
  logic_op_tame peak op a b pc = ground arith

  cmp_op_tame :
      (peak : ℕ) (op : Opcode) (a b : VmValue F) (pc : ℕ) → IsTameResult peak (cmp_op fl op a b pc)
  unfolding cmp_op compare_integral as_i64
  cmp_op_tame peak op a b pc = ground arith

  arith_op_tame :
      (peak : ℕ) (op : Opcode) (a b : VmValue F) (pc d : ℕ)
      → IsTameResult peak (arith_op fl op a b pc d).1
  unfolding arith_op
  arith_op_tame peak op (real x) (real y) pc d =
      tagged_tame peak real (real_arith fl op x y pc d) (real_arith_tame peak op x y pc d)
  arith_op_tame peak op (time x) (time y) pc d =
      tagged_tame peak time (int_arith op x y d) (int_arith_tame peak op x y d)
  arith_op_tame peak op (dint x) (dint y) pc d =
      tagged_tame peak dint (int_arith op x y d) (int_arith_tame peak op x y d)
  arith_op_tame peak op (int x) (int y) pc d =
      tagged_tame peak _ (int_arith op x y d) (int_arith_tame peak op x y d)
  arith_op_tame peak op (lint x) (lint y) pc d =
      tagged_tame peak lint (lint_arith op x y pc d) (lint_arith_tame peak op x y pc d)
  arith_op_tame peak op (int x) (dint y) pc d =
      tagged_tame peak dint (int_arith op x y d) (int_arith_tame peak op x y d)
  arith_op_tame peak op (dint x) (int y) pc d =
      tagged_tame peak dint (int_arith op x y d) (int_arith_tame peak op x y d)
  arith_op_tame peak op a b pc d = tt

  pub binop_tame :
      (peak : ℕ) (op : Opcode) (a b : VmValue F) (pc d : ℕ)
      → IsTameResult peak (binop fl op a b pc d).1
  unfolding binop
  binop_tame peak op a b pc d = ground (
    arith,
    logic_op_tame peak op a b pc,
    cmp_op_tame peak op a b pc,
    arith_op_tame peak op a b pc d,
  )
