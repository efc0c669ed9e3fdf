-- ===== src/Fb/Rs.antt =====
-- The reset-dominant latch RS of crates/plc-fb-primitives/src/latch.rs.
use my_soft_plc.Prelude.{Bool, false, not, ◌&&◌, ◌||◌}

pub record Rs : Type 0 where
  pub q : Bool

abbrev pub new : Rs
new = record { q = false }

unfoldable pub eval : Rs → Bool → Bool → Rs
eval l s r = record { q = (s || l.q) && not r }
