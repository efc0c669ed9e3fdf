-- ===== src/Fb/Elapsed.antt =====
-- The elapsed time of the timers (crates/plc-fb-primitives/src/timer.rs). A TIME is an `i32` of
-- milliseconds, here an integer; a timestamp is a `u64`, here a number, so that `saturating_sub`
-- is the truncated `-`.
use my_soft_plc.Prelude.{ℕ, ◌-◌, ◌^◌, ◌≡◌, Option, none, some, arith, leb, min, if◌then◌else◌}
use my_soft_plc.Prelude.Int.{ℤ, pos, max_ℤ, min_ℤ, i32_max, IsI32}

-- `i32::try_from(n)`.
abbrev i32_try_from : ℕ → Option ℤ
i32_try_from n = if leb n (2 ^ 31 - 1) then some (pos n) else none

abbrev unwrap_or : Option ℤ → ℤ → ℤ
unwrap_or none d = d
unwrap_or (some a) d = a

unfoldable pub et_from_delta : ℕ → ℕ → ℤ → ℤ
et_from_delta start_ms now_ms pt =
    let pt' = max_ℤ pt (pos 0) in
    let delta = now_ms - start_ms in
    let et = unwrap_or (i32_try_from (min delta (2 ^ 31 - 1))) i32_max in min_ℤ et pt'

-- For a preset that is an `i32` the two clamps are one: the time since the start, up to the preset.
pub et_from_delta_lem :
    (start_ms now_ms : ℕ) (pt : ℤ)
    → IsI32 pt
    → et_from_delta start_ms now_ms pt ≡ min_ℤ (pos (now_ms - start_ms)) (max_ℤ pt (pos 0))
unfolding et_from_delta
et_from_delta_lem start_ms now_ms pt h = ground arith
