-- ===== src/Ir/IrType.antt =====
-- The value types of crates/plc-ir/src/value.rs.
use my_soft_plc.Prelude.{ℕ, Bool, true, false, Option, List, [], ◌∷◌}
use my_soft_plc.Ir.Table.{lookup_u8}

pub data IrType : Type 0 where
  bool int dint real time lint : IrType

pub IrType-discrete : Discrete IrType
IrType-discrete = hlevel

-- The discriminants, `ty as u8`.
unfoldable pub to_u8 : IrType → ℕ
to_u8 bool = 0
to_u8 int = 1
to_u8 dint = 2
to_u8 real = 3
to_u8 time = 4
to_u8 lint = 5

abbrev tags : List (ℕ × IrType)
tags = (0, bool) ∷ (1, int) ∷ (2, dint) ∷ (3, real) ∷ (4, time) ∷ (5, lint) ∷ []

unfoldable pub from_u8 : ℕ → Option IrType
from_u8 v = lookup_u8 v tags

unfoldable pub is_numeric : IrType → Bool
is_numeric bool = false
is_numeric _ = true

unfoldable pub is_integral : IrType → Bool
is_integral real = false
is_integral _ = true

unfoldable pub byte_width : IrType → ℕ
byte_width bool = 1
byte_width int = 2
byte_width dint = 4
byte_width real = 4
byte_width time = 4
byte_width lint = 8

-- `==` on the types.
abbrev pub type_eq : IrType → IrType → Bool
type_eq bool bool = true
type_eq int int = true
type_eq dint dint = true
type_eq real real = true
type_eq time time = true
type_eq lint lint = true
type_eq _ _ = false
