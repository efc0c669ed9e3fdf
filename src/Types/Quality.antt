-- ===== src/Types/Quality.antt =====
-- The quality plane of crates/plc-types/src/quality.rs.
use my_soft_plc.Prelude.{ℕ, Bool, true, false, ◌==◌, if◌then◌else◌}

pub data Quality : Type 0 where
  good uncertain bad : Quality

unfoldable pub from_u8 : ℕ → Quality
from_u8 v = if v == 0 then good else if v == 1 then uncertain else bad

unfoldable pub as_u8 : Quality → ℕ
as_u8 good = 0
as_u8 uncertain = 1
as_u8 bad = 2

abbrev pub is_good : Quality → Bool
is_good good = true
is_good _ = false

abbrev pub is_bad : Quality → Bool
is_bad bad = true
is_bad _ = false
