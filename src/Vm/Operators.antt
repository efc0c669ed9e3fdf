-- ===== src/Vm/Operators.antt =====
-- The arithmetic of the machine (the free functions of crates/plc-vm/src/exec.rs). `x / y` panics
-- where the quotient does not fit; a panic is an outcome beside the errors. The counter of
-- divisions by zero is passed on, and wraps as in a release build.
pub mod Bounds
use my_soft_plc.Prelude.{
  ℕ, ◌+◌, ◌%◌, ◌^◌, Bool, true, false, not, ◌&&◌, ◌||◌, Option, none, some, Result, ok, err, ok_or,
  ◌>>=◌, ◌==◌, bool_eq, if◌then◌else◌,
}
use my_soft_plc.Prelude.Int.{ℤ, pos, negsuc, ◌+ℤ◌, ◌-ℤ◌, ◌==ℤ◌, ltb_ℤ, leb_ℤ}
use my_soft_plc.Prelude.Word.{
  half16, half32, half64, wrap, signed, unsigned, complement, ◌*ℤ◌, quotient, bitwise, and_bit,
  or_bit, xor_bit,
}
use my_soft_plc.Ir.Opcode.{Opcode, add, sub, mul, div, neg, and, or, xor, eq, ne, lt, le, gt, ge}
use my_soft_plc.Vm.Value.{
  FloatOps, VmValue, VmError, bool, int, dint, real, time, lint, as_i64, zero_real, type_error,
}

pub data Fault : Type 0 where
  error : VmError → Fault
  panic : Fault

module _ {ℓ} {F : Type ℓ} (fl : FloatOps F) where
  unfoldable pub unary_op : Opcode → VmValue F → ℕ → Result (VmValue F) Fault
  unary_op Opcode.not (bool b) pc = ok (bool (not b))
  unary_op Opcode.not (int v) pc = ok (int (complement v))
  unary_op Opcode.not (dint v) pc = ok (dint (complement v))
  unary_op Opcode.not (time v) pc = ok (time (complement v))
  unary_op Opcode.not (lint v) pc = ok (lint (complement v))
  unary_op Opcode.not (real v) pc = err (error (type_error pc))
  unary_op neg (int v) pc = ok (int (wrap half16 (pos 0 -ℤ v)))
  unary_op neg (dint v) pc = ok (dint (wrap half32 (pos 0 -ℤ v)))
  unary_op neg (time v) pc = ok (time (wrap half32 (pos 0 -ℤ v)))
  unary_op neg (lint v) pc = ok (lint (wrap half64 (pos 0 -ℤ v)))
  unary_op neg (real v) pc = ok (real (fl.neg v))
  unary_op neg (bool b) pc = err (error (type_error pc))
  unary_op _ value pc = err (error (type_error pc))

  abbrev opt_eq : Option ℤ → Option ℤ → Bool
  opt_eq (some x) (some y) = x ==ℤ y
  opt_eq _ _ = false

  unfoldable pub values_eq : VmValue F → VmValue F → Bool
  unfolding as_i64
  values_eq (bool x) (bool y) = bool_eq x y
  values_eq (real x) (real y) = fl.to_bits x == fl.to_bits y
  values_eq (real x) b = false
  values_eq a (real y) = false
  values_eq a b = opt_eq (as_i64 a) (as_i64 b)

  bool_logic : Opcode → Bool → Bool → Bool
  bool_logic and x y = x && y
  bool_logic or x y = x || y
  bool_logic _ x y = not (bool_eq x y)

  abbrev bit_op : Opcode → ℕ → ℕ → ℕ
  bit_op and = and_bit
  bit_op or = or_bit
  bit_op _ = xor_bit

  -- The opcodes are AND, OR and XOR only.
  unfoldable pub logic_op : Opcode → VmValue F → VmValue F → ℕ → Result (VmValue F) Fault
  unfolding bool_logic
  logic_op op (bool x) (bool y) pc = ok (bool (bool_logic op x y))
  logic_op op (dint x) (dint y) pc =
      ok (dint (signed half32 (bitwise (bit_op op) 32 (unsigned half32 x) (unsigned half32 y))))
  logic_op op (int x) (int y) pc =
      ok (int (signed half16 (bitwise (bit_op op) 16 (unsigned half16 x) (unsigned half16 y))))
  logic_op op a b pc = err (error (type_error pc))

  compare_reals : Opcode → F → F → Bool
  compare_reals lt x y = fl.lt x y
  compare_reals le x y = fl.le x y
  compare_reals gt x y = fl.lt y x
  compare_reals ge x y = fl.le y x
  compare_reals _ x y = false

  compare_ints : Opcode → ℤ → ℤ → Bool
  compare_ints lt x y = ltb_ℤ x y
  compare_ints le x y = leb_ℤ x y
  compare_ints gt x y = ltb_ℤ y x
  compare_ints ge x y = leb_ℤ y x
  compare_ints _ x y = false

  unfoldable pub compare_integral : Opcode → VmValue F → VmValue F → ℕ → Result (VmValue F) Fault
  unfolding as_i64 compare_ints
  compare_integral op a b pc = do
    x ← ok_or (as_i64 a) (error (type_error pc))
    y ← ok_or (as_i64 b) (error (type_error pc))
    ok (bool (compare_ints op x y))

  unfoldable pub cmp_op : Opcode → VmValue F → VmValue F → ℕ → Result (VmValue F) Fault
  unfolding compare_reals compare_integral
  cmp_op op (real x) (real y) pc = ok (bool (compare_reals op x y))
  cmp_op op a b pc = compare_integral op a b pc

-- `*div0 += 1`.
abbrev count_div0 : ℕ → ℕ
count_div0 div0 = (div0 + 1) % 2 ^ 32

-- The division of `i32` or `i64`, which panics on the least word by -1.
unfoldable pub divide : ℕ → ℤ → ℤ → ℕ → ℕ × Result ℤ Fault
divide half x y div0 =
    if y ==ℤ pos 0
    then (count_div0 div0, ok (pos 0))
    else if (x ==ℤ (pos 0 -ℤ pos half)) && (y ==ℤ negsuc 0)
    then (div0, err panic)
    else (div0, ok (quotient x y))

unfoldable pub int_arith : Opcode → ℤ → ℤ → ℕ → ℕ × Result ℤ Fault
unfolding divide
int_arith add x y div0 = (div0, ok (wrap half32 (x +ℤ y)))
int_arith sub x y div0 = (div0, ok (wrap half32 (x -ℤ y)))
int_arith mul x y div0 = (div0, ok (wrap half32 (x *ℤ y)))
int_arith div x y div0 = divide half32 x y div0
int_arith _ x y div0 = (div0, ok (pos 0))

unfoldable pub lint_arith : Opcode → ℤ → ℤ → ℕ → ℕ → ℕ × Result ℤ Fault
unfolding divide
lint_arith add x y pc div0 = (div0, ok (wrap half64 (x +ℤ y)))
lint_arith sub x y pc div0 = (div0, ok (wrap half64 (x -ℤ y)))
lint_arith mul x y pc div0 = (div0, ok (wrap half64 (x *ℤ y)))
lint_arith div x y pc div0 = divide half64 x y div0
lint_arith _ x y pc div0 = (div0, err (error (type_error pc)))

-- The tag of a result, beside the counter.
module _ {ℓ κ} {A : Type ℓ} {B : Type κ} where
  unfoldable pub tagged : (A → B) → ℕ × Result A Fault → ℕ × Result B Fault
  tagged f (div0, r) = (div0, r >>= λ a. ok (f a))

module _ {ℓ} {F : Type ℓ} (fl : FloatOps F) where
  unfoldable pub real_arith : Opcode → F → F → ℕ → ℕ → ℕ × Result F Fault
  real_arith add x y pc div0 = (div0, ok (fl.conversions.floats.add x y))
  real_arith sub x y pc div0 = (div0, ok (fl.conversions.floats.sub x y))
  real_arith mul x y pc div0 = (div0, ok (fl.conversions.floats.mul x y))
  real_arith div x y pc div0 =
      if fl.eq y (zero_real fl)
      then (count_div0 div0, ok (zero_real fl))
      else (div0, ok (fl.conversions.floats.div x y))
  real_arith _ x y pc div0 = (div0, err (error (type_error pc)))

  unfoldable pub arith_op : Opcode → VmValue F → VmValue F → ℕ → ℕ → ℕ × Result (VmValue F) Fault
  unfolding tagged real_arith int_arith lint_arith
  arith_op op (real x) (real y) pc div0 = tagged real (real_arith op x y pc div0)
  arith_op op (time x) (time y) pc div0 = tagged time (int_arith op x y div0)
  arith_op op (dint x) (dint y) pc div0 = tagged dint (int_arith op x y div0)
  arith_op op (int x) (int y) pc div0 = tagged (λ v. int (wrap half16 v)) (int_arith op x y div0)
  arith_op op (lint x) (lint y) pc div0 = tagged lint (lint_arith op x y pc div0)
  arith_op op (int x) (dint y) pc div0 = tagged dint (int_arith op x y div0)
  arith_op op (dint x) (int y) pc div0 = tagged dint (int_arith op x y div0)
  arith_op op a b pc div0 = (div0, err (error (type_error pc)))

  -- The counter is part of the machine; only the arithmetic changes it.
  unfoldable pub binop : Opcode → VmValue F → VmValue F → ℕ → ℕ → ℕ × Result (VmValue F) Fault
  unfolding values_eq logic_op cmp_op arith_op
  binop and a b pc div0 = (div0, logic_op fl and a b pc)
  binop or a b pc div0 = (div0, logic_op fl or a b pc)
  binop xor a b pc div0 = (div0, logic_op fl xor a b pc)
  binop eq a b pc div0 = (div0, ok (bool (values_eq fl a b)))
  binop ne a b pc div0 = (div0, ok (bool (not (values_eq fl a b))))
  binop lt a b pc div0 = (div0, cmp_op fl lt a b pc)
  binop le a b pc div0 = (div0, cmp_op fl le a b pc)
  binop gt a b pc div0 = (div0, cmp_op fl gt a b pc)
  binop ge a b pc div0 = (div0, cmp_op fl ge a b pc)
  binop add a b pc div0 = arith_op add a b pc div0
  binop sub a b pc div0 = arith_op sub a b pc div0
  binop mul a b pc div0 = arith_op mul a b pc div0
  binop div a b pc div0 = arith_op div a b pc div0
  binop _ a b pc div0 = (div0, err (error (type_error pc)))
