-- ===== src/Fb/RTrig.antt =====
-- The rising-edge detector R_TRIG of crates/plc-fb-primitives/src/edge.rs.
use my_soft_plc.Prelude.{Bool, false, not, ◌&&◌}

pub record RTrig : Type 0 where
  pub q : Bool
  pub prev : Bool

abbrev pub new : RTrig
new = record { q = false; prev = false }

unfoldable pub eval : RTrig → Bool → RTrig
eval e clk = record { q = clk && not e.prev; prev = clk }
