-- ===== src/Io/Value.antt =====
-- The values of the process image (crates/plc-io/src/value.rs, map.rs); `F` stands for `f32`.
use my_soft_plc.Prelude.{Bool, false}
use my_soft_plc.Prelude.Int.{ℤ, pos}

pub data ValueType : Type 0 where
  bool_type int_type dint_type real_type time_type : ValueType

module _ {ℓ} where
  pub data PlcValue (F : Type ℓ) : Type ℓ where
    bool : Bool → PlcValue F
    int : ℤ → PlcValue F
    dint : ℤ → PlcValue F
    real : F → PlcValue F
    time : ℤ → PlcValue F

module _ {ℓ} {F : Type ℓ} where
  -- The argument is the float `0.0`.
  unfoldable pub default_of : F → ValueType → PlcValue F
  default_of zero bool_type = bool false
  default_of zero int_type = int (pos 0)
  default_of zero dint_type = dint (pos 0)
  default_of zero time_type = dint (pos 0)
  default_of zero real_type = real zero

  unfoldable pub value_type : PlcValue F → ValueType
  value_type (bool b) = bool_type
  value_type (int v) = int_type
  value_type (dint v) = dint_type
  value_type (real v) = real_type
  value_type (time v) = time_type

  unfoldable pub as_bool : PlcValue F → Bool
  as_bool (bool b) = b
  as_bool _ = false
