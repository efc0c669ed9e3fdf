-- ===== src/Fb/FTrig.antt =====
-- The falling-edge detector F_TRIG of crates/plc-fb-primitives/src/edge.rs.
pub mod Edges
use my_soft_plc.Prelude.{Bool, false, not, ◌&&◌}

pub record FTrig : Type 0 where
  pub q : Bool
  pub prev : Bool

abbrev pub new : FTrig
new = record { q = false; prev = false }

unfoldable pub eval : FTrig → Bool → FTrig
eval e clk = record { q = not clk && e.prev; prev = clk }
