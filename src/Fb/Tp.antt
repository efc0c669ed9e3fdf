-- ===== src/Fb/Tp.antt =====
-- The pulse timer TP of crates/plc-fb-primitives/src/timer.rs.
pub mod Pulse
use my_soft_plc.Prelude.{ℕ, Bool, true, false, not, ◌&&◌, if◌then◌else◌}
use my_soft_plc.Prelude.Int.{ℤ, pos, max_ℤ, leb_ℤ, ◌==ℤ◌}
use my_soft_plc.Fb.Elapsed.{et_from_delta}

pub record Tp : Type 0 where
  pub q : Bool
  pub et : ℤ
  pub start_ms : ℕ
  pub running : Bool
  pub prev_in : Bool

abbrev pub new : Tp
new = record { q = false; et = pos 0; start_ms = 0; running = false; prev_in = false }

-- The last `if self.running { … } else { … }`.
advance : Tp → ℤ → ℕ → Tp
advance t pt now_ms =
    let et' = et_from_delta t.start_ms now_ms pt in
    if t.running
    then if leb_ℤ pt et'
      then record t { q = false; running = false; et = pt }
      else record t { et = et'; q = true }
    else record t { q = false; et = pos 0 }

unfoldable pub eval : Tp → Bool → ℤ → ℕ → Tp
unfolding advance
eval t input pt now_ms =
    let pt' = max_ℤ pt (pos 0) in
    let rising = input && not t.prev_in in
    let sampled = record t { prev_in = input } in
    let started = record sampled { running = true; start_ms = now_ms; et = pos 0 } in
    if not t.running && rising
    then if pt' ==ℤ pos 0
      then record started { q = true; running = false; et = pos 0 }
      else advance (record started { q = true }) pt' now_ms
    else advance sampled pt' now_ms
