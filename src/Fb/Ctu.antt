-- ===== src/Fb/Ctu.antt =====
-- The up-counter CTU of crates/plc-fb-primitives/src/counter.rs; an `i32` is an integer.
pub mod Count
use my_soft_plc.Prelude.{Bool, false, not, ◌&&◌, if◌then◌else◌}
use my_soft_plc.Prelude.Int.{ℤ, pos, leb_ℤ, ltb_ℤ, i32_max, saturating_add_i32}

pub record Ctu : Type 0 where
  pub q : Bool
  pub cv : ℤ
  pub prev_cu : Bool

abbrev pub new : Ctu
new = record { q = false; cv = pos 0; prev_cu = false }

unfoldable pub eval : Ctu → Bool → Bool → ℤ → Ctu
eval c cu r pv =
    let rising = cu && not c.prev_cu in
    let counted = if rising && ltb_ℤ c.cv i32_max then saturating_add_i32 c.cv (pos 1) else c.cv in
    let cv' = if r then pos 0 else counted in record { cv = cv'; prev_cu = cu; q = leb_ℤ pv cv' }
