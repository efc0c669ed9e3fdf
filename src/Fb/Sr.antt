-- ===== src/Fb/Sr.antt =====
-- The set-dominant latch SR of crates/plc-fb-primitives/src/latch.rs.
pub mod Latch
use my_soft_plc.Prelude.{Bool, false, not, ◌&&◌, ◌||◌}

pub record Sr : Type 0 where
  pub q : Bool

abbrev pub new : Sr
new = record { q = false }

unfoldable pub eval : Sr → Bool → Bool → Sr
eval l s r = record { q = s || (l.q && not r) }
