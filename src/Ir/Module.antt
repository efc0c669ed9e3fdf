-- ===== src/Ir/Module.antt =====
-- The module of crates/plc-ir/src/module.rs. A name is the list of its bytes.
use my_soft_plc.Prelude.{ℕ, Bool, List}

abbrev pub ir_major_supported : ℕ
ir_major_supported = 0

pub record EntryPoint : Type 0 where
  pub name : List ℕ
  pub pc : ℕ  -- u32
  pub is_user_fb : Bool

pub record IrModule : Type 0 where
  pub ir_major : ℕ  -- u16
  pub ir_minor : ℕ  -- u16
  pub const_size : ℕ  -- u32, as the sizes and the slots below
  pub data_size : ℕ
  pub retain_size : ℕ
  pub input_slots : ℕ
  pub output_slots : ℕ
  pub entries : List EntryPoint
  pub const_data : List ℕ
  pub code : List ℕ
