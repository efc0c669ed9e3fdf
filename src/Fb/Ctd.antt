-- ===== src/Fb/Ctd.antt =====
-- The down-counter CTD of crates/plc-fb-primitives/src/counter.rs; an `i32` is an integer.
pub mod Count
use my_soft_plc.Prelude.{Bool, false, not, ◌&&◌, if◌then◌else◌}
use my_soft_plc.Prelude.Int.{ℤ, pos, leb_ℤ, ltb_ℤ, i32_min, saturating_sub_i32}

pub record Ctd : Type 0 where
  pub q : Bool
  pub cv : ℤ
  pub prev_cd : Bool
  pub prev_ld : Bool

abbrev pub new : Ctd
new = record { q = false; cv = pos 0; prev_cd = false; prev_ld = false }

unfoldable pub eval : Ctd → Bool → Bool → ℤ → Ctd
eval c cd ld pv =
    let load_edge = ld && not c.prev_ld in
    let count_edge = cd && not c.prev_cd in
    let cv' =
      if load_edge
      then pv
      else if count_edge && ltb_ℤ i32_min c.cv
      then saturating_sub_i32 c.cv (pos 1)
      else c.cv in
    record { cv = cv'; prev_cd = cd; prev_ld = ld; q = leb_ℤ cv' (pos 0) }
