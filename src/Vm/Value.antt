-- ===== src/Vm/Value.antt =====
-- The tagged values of the machine (crates/plc-vm/src/value.rs). `F` stands for `f32`; what the
-- machine uses of it is the parameter `FloatOps`.
use my_soft_plc.Prelude.{
  ℕ, Bool, false, not, Option, none, some, List, Result, ok, err, ltb, length, bit, ◌==◌,
  if◌then◌else◌,
}
use my_soft_plc.Prelude.Int.{ℤ, pos, ◌==ℤ◌}
use my_soft_plc.Prelude.Word.{half16, half32, half64, signed, wrap}
use my_soft_plc.Ir.Bytes.{from_le_bytes, slice}
use my_soft_plc.Ir.IrType.{IrType}
use my_soft_plc.Fb.Dispatch
use my_soft_plc.Fb.Dispatch.{StackValue, Conversions}

-- Beside the arithmetic and `v as f32` of the blocks: the bits, the negation, the comparisons and
-- the casts of `f32`.
pub record FloatOps {ℓ} (F : Type ℓ) : Type ℓ where
  pub conversions : Conversions F
  pub of_i64 : ℤ → F
  pub from_bits : ℕ → F
  pub to_bits : F → ℕ
  pub neg : F → F
  pub eq : F → F → Bool
  pub lt : F → F → Bool
  pub le : F → F → Bool
  pub to_i16 : F → ℤ
  pub to_i32 : F → ℤ
  pub to_i64 : F → ℤ

module _ {ℓ} where
  pub data VmValue (F : Type ℓ) : Type ℓ where
    bool : Bool → VmValue F
    int : ℤ → VmValue F
    dint : ℤ → VmValue F
    real : F → VmValue F
    time : ℤ → VmValue F
    lint : ℤ → VmValue F

-- The errors of crates/plc-vm/src/error.rs; the texts of the details are left out.
pub data VmError : Type 0 where
  verify : VmError
  unknown_entry : (name : List ℕ) → VmError
  stack_underflow : (pc : ℕ) → VmError
  stack_overflow : (pc : ℕ) → VmError
  call_depth : (pc : ℕ) → VmError
  ret_outside_fb : (pc : ℕ) → VmError
  bounds : (pc : ℕ) → VmError
  type_error : (pc : ℕ) → VmError
  decode : (pc : ℕ) → VmError
  primitive : (pc : ℕ) → VmError
  unknown_user_fb : (fb_id : ℕ) → VmError
  budget : ℕ → VmError

module _ {ℓ} {F : Type ℓ} where
  unfoldable pub ir_type : VmValue F → IrType
  ir_type (bool b) = IrType.bool
  ir_type (int v) = IrType.int
  ir_type (dint v) = IrType.dint
  ir_type (real v) = IrType.real
  ir_type (time v) = IrType.time
  ir_type (lint v) = IrType.lint

  unfoldable pub byte_width : VmValue F → ℕ
  byte_width (bool b) = 1
  byte_width (int v) = 2
  byte_width (dint v) = 4
  byte_width (real v) = 4
  byte_width (time v) = 4
  byte_width (lint v) = 8

  unfoldable pub as_bool : VmValue F → Bool
  as_bool (bool b) = b
  as_bool _ = false

  unfoldable pub as_i64 : VmValue F → Option ℤ
  as_i64 (bool b) = some (pos (bit b))
  as_i64 (int v) = some v
  as_i64 (dint v) = some v
  as_i64 (time v) = some v
  as_i64 (lint v) = some v
  as_i64 (real v) = none

  unfoldable pub to_stack_value : VmValue F → StackValue F
  to_stack_value (bool b) = Dispatch.bool b
  to_stack_value (int v) = Dispatch.dint v
  to_stack_value (dint v) = Dispatch.dint v
  to_stack_value (time v) = Dispatch.dint v
  to_stack_value (real v) = Dispatch.real v
  to_stack_value (lint v) = Dispatch.dint (wrap half32 v)

  unfoldable pub from_stack_value : StackValue F → Bool → VmValue F
  from_stack_value (Dispatch.bool b) prefer_time = bool b
  from_stack_value (Dispatch.dint d) prefer_time = if prefer_time then time d else dint d
  from_stack_value (Dispatch.real r) prefer_time = real r

module _ {ℓ} {F : Type ℓ} (fl : FloatOps F) where
  abbrev pub zero_real : F
  zero_real = fl.conversions.floats.zero

  unfoldable pub zero : IrType → VmValue F
  zero IrType.bool = bool false
  zero IrType.int = int (pos 0)
  zero IrType.dint = dint (pos 0)
  zero IrType.real = real zero_real
  zero IrType.time = time (pos 0)
  zero IrType.lint = lint (pos 0)

  -- The value in the first bytes, of which there are enough.
  unfoldable pub value_of_bytes : IrType → List ℕ → VmValue F
  value_of_bytes IrType.bool bytes = bool (not (from_le_bytes (slice bytes 0 1) == 0))
  value_of_bytes IrType.int bytes = int (signed half16 (from_le_bytes (slice bytes 0 2)))
  value_of_bytes IrType.dint bytes = dint (signed half32 (from_le_bytes (slice bytes 0 4)))
  value_of_bytes IrType.time bytes = time (signed half32 (from_le_bytes (slice bytes 0 4)))
  value_of_bytes IrType.real bytes = real (fl.from_bits (from_le_bytes (slice bytes 0 4)))
  value_of_bytes IrType.lint bytes = lint (signed half64 (from_le_bytes (slice bytes 0 8)))

  unfoldable pub value_from_le_bytes : IrType → List ℕ → Result (VmValue F) VmError
  unfolding byte_width zero value_of_bytes
  value_from_le_bytes ty bytes =
      if ltb (length bytes) (byte_width (zero ty))
      then err (bounds 0)
      else ok (value_of_bytes ty bytes)

  to_bool : VmValue F → Bool
  to_bool (bool b) = b
  to_bool (int v) = not (v ==ℤ pos 0)
  to_bool (dint v) = not (v ==ℤ pos 0)
  to_bool (time v) = not (v ==ℤ pos 0)
  to_bool (real v) = not (fl.eq v zero_real)
  to_bool (lint v) = not (v ==ℤ pos 0)

  to_i16 : VmValue F → ℤ
  to_i16 (bool b) = pos (bit b)
  to_i16 (int v) = v
  to_i16 (dint v) = wrap half16 v
  to_i16 (time v) = wrap half16 v
  to_i16 (real v) = fl.to_i16 v
  to_i16 (lint v) = wrap half16 v

  to_i32 : VmValue F → ℤ
  to_i32 (bool b) = pos (bit b)
  to_i32 (int v) = v
  to_i32 (dint v) = v
  to_i32 (time v) = v
  to_i32 (real v) = fl.to_i32 v
  to_i32 (lint v) = wrap half32 v

  to_i64 : VmValue F → ℤ
  to_i64 (bool b) = pos (bit b)
  to_i64 (int v) = v
  to_i64 (dint v) = v
  to_i64 (time v) = v
  to_i64 (real v) = fl.to_i64 v
  to_i64 (lint v) = v

  to_real : VmValue F → F
  to_real (bool b) = if b then fl.conversions.floats.one else zero_real
  to_real (int v) = fl.conversions.of_i32 v
  to_real (dint v) = fl.conversions.of_i32 v
  to_real (time v) = fl.conversions.of_i32 v
  to_real (real v) = v
  to_real (lint v) = fl.of_i64 v

  -- The opcode CONV.
  unfoldable pub convert : VmValue F → IrType → VmValue F
  unfolding to_bool to_i16 to_i32 to_i64 to_real
  convert v IrType.bool = bool (to_bool v)
  convert v IrType.int = int (to_i16 v)
  convert v IrType.dint = dint (to_i32 v)
  convert v IrType.real = real (to_real v)
  convert v IrType.time = time (to_i32 v)
  convert v IrType.lint = lint (to_i64 v)
