-- ===== src/Fb/Ton.antt =====
-- The on-delay timer TON of crates/plc-fb-primitives/src/timer.rs.
pub mod Delay
use my_soft_plc.Prelude.{ℕ, Bool, true, false, not, if◌then◌else◌}
use my_soft_plc.Prelude.Int.{ℤ, pos, max_ℤ, leb_ℤ, ◌==ℤ◌}
use my_soft_plc.Fb.Elapsed.{et_from_delta}

pub record Ton : Type 0 where
  pub q : Bool
  pub et : ℤ
  pub start_ms : ℕ
  pub running : Bool

abbrev pub new : Ton
new = record { q = false; et = pos 0; start_ms = 0; running = false }

-- One evaluation gives the new state; the pair that the code returns is its `q` and `et`.
unfoldable pub eval : Ton → Bool → ℤ → ℕ → Ton
eval t input pt now_ms =
    let pt' = max_ℤ pt (pos 0) in
    let et' = et_from_delta t.start_ms now_ms pt' in
    if input
    then if not t.running
      then record t { running = true; start_ms = now_ms; et = pos 0; q = pt' ==ℤ pos 0 }
      else record t { et = et'; q = leb_ℤ pt' et' }
    else record { running = false; q = false; et = pos 0; start_ms = 0 }
