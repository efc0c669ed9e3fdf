-- ===== src/Fb/Tof.antt =====
-- The off-delay timer TOF of crates/plc-fb-primitives/src/timer.rs.
pub mod Delay
use my_soft_plc.Prelude.{ℕ, Bool, true, false, not, ◌||◌, if◌then◌else◌}
use my_soft_plc.Prelude.Int.{ℤ, pos, max_ℤ, leb_ℤ}
use my_soft_plc.Fb.Elapsed.{et_from_delta}

pub record Tof : Type 0 where
  pub q : Bool
  pub et : ℤ
  pub fall_ms : ℕ
  pub delaying : Bool

abbrev pub new : Tof
new = record { q = false; et = pos 0; fall_ms = 0; delaying = false }

-- `if !self.delaying { … }`: the input has just fallen.
start_delay : Tof → ℕ → Tof
start_delay t now_ms =
    if not t.delaying then record t { delaying = true; fall_ms = now_ms; et = pos 0 } else t

-- The clock is read and the preset compared.
finish_delay : Tof → ℤ → ℕ → Tof
finish_delay t pt now_ms =
    let et' = et_from_delta t.fall_ms now_ms pt in
    if leb_ℤ pt et'
    then record t { q = false; delaying = false; et = pt }
    else record t { et = et'; q = true }

unfoldable pub eval : Tof → Bool → ℤ → ℕ → Tof
unfolding start_delay finish_delay
eval t input pt now_ms =
    let pt' = max_ℤ pt (pos 0) in
    if input
    then record { q = true; et = pos 0; delaying = false; fall_ms = 0 }
    else if t.q || t.delaying
    then finish_delay (start_delay t now_ms) pt' now_ms
    else record t { q = false; et = pos 0 }
