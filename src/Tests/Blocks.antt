-- ===== src/Tests/Blocks.antt =====
-- Runs of the function blocks (crates/plc-fb-primitives).
use my_soft_plc.Prelude.{◌+◌, ◌-◌, ◌^◌, min, bit, ◌≡◌, refl, true, false, not, [], ◌∷◌, arith}
use my_soft_plc.Prelude.Int.{pos, min_ℤ, max_ℤ, leb_ℤ, i32_min, ◌-ℤ◌}
use my_soft_plc.Fb.Ton
use my_soft_plc.Fb.Ton.Delay.{hold, eval-hold}
use my_soft_plc.Fb.Tof
use my_soft_plc.Fb.Tof.{Tof}
use my_soft_plc.Fb.Tof.Delay.{release, eval-release}
use my_soft_plc.Fb.Tp
use my_soft_plc.Fb.Tp.{Tp}
use my_soft_plc.Fb.Tp.Pulse.{run as pulse, eval-pulse}
use my_soft_plc.Fb.Ctu
use my_soft_plc.Fb.Ctu.Count.{count_up, cv-count_up}
use my_soft_plc.Fb.Ctd
use my_soft_plc.Fb.Ctd.Count.{count_down, cv-count_down}
use my_soft_plc.Fb.Rs
use my_soft_plc.Fb.Edge.{edges, falls, last_level}
use my_soft_plc.Fb.RTrig
use my_soft_plc.Fb.FTrig
use my_soft_plc.Fb.Sr.Latch.{run_rs, run_sr, swapped, run-dual}
use my_soft_plc.Fb.FTrig.Edges.{rising_pulses, falling_pulses, pulses_alternate}

-- As in the source's test: 100 ms from 1000 on.
ton_delays :
    let t = Ton.eval (Ton.eval Ton.new true (pos 100) 1000) true (pos 100) 1050 in
    (t.q ≡ false) × (t.et ≡ pos 50)
unfolding Ton.eval my_soft_plc.Fb.Elapsed.et_from_delta
ton_delays = (refl, refl)

eval-hold_example :
    let t =
      Ton.eval
        (hold (Ton.eval Ton.new true (pos 100) 1000) (pos 100) (1050 ∷ []))
        true
        (pos 100)
        1100 in
    (t.et ≡ min_ℤ (pos (1100 - 1000)) (max_ℤ (pos 100) (pos 0)))
    × (t.q ≡ leb_ℤ (pos 100) (pos (1100 - 1000)))
eval-hold_example = eval-hold Ton.new (pos 100) 1000 1100 (1050 ∷ []) refl (omega arith)

abbrev on : Tof
on = record { q = true; et = pos 0; fall_ms = 0; delaying = false }

eval-release_example :
    let t =
      Tof.eval (release (Tof.eval on false (pos 100) 0) (pos 100) (50 ∷ [])) false (pos 100) 100 in
    (t.q ≡ not (leb_ℤ (pos 100) (pos (100 - 0)))) × (t.et ≡ min_ℤ (pos (100 - 0)) (pos 100))
eval-release_example =
    eval-release on (pos 100) 0 100 (50 ∷ []) refl refl (omega arith) refl (refl, tt)

eval-pulse_example :
    let t =
      Tp.eval
        (pulse (Tp.eval Tp.new true (pos 100) 0) (pos 100) ((false, 40) ∷ (true, 60) ∷ []))
        false
        (pos 100)
        100 in
    (t.q ≡ not (leb_ℤ (pos 100) (pos (100 - 0)))) × (t.et ≡ min_ℤ (pos (100 - 0)) (pos 100))
eval-pulse_example =
    eval-pulse Tp.new (pos 100) 0 100 false ((false, 40) ∷ (true, 60) ∷ []) refl refl (omega arith)
      refl (refl, (refl, tt))

-- A pulse of length zero is one sample long.
tp_zero :
    ((Tp.eval Tp.new true (pos 0) 5).q ≡ true)
    × ((Tp.eval (Tp.eval Tp.new true (pos 0) 5) true (pos 0) 6).q ≡ false)
unfolding Tp.eval my_soft_plc.Fb.Elapsed.et_from_delta
tp_zero = (refl, refl)

ctu_counts : (count_up Ctu.new (pos 2) (true ∷ true ∷ false ∷ true ∷ [])).cv ≡ pos 2
unfolding Ctu.eval
ctu_counts = refl

cv-count_up_example :
    let c = count_up Ctu.new (pos 2) (true ∷ true ∷ false ∷ true ∷ []) in
    (c.cv ≡ pos (min (edges false (true ∷ true ∷ false ∷ true ∷ [])) (2 ^ 31 - 1)))
    × (c.q ≡ leb_ℤ (pos 2) c.cv)
cv-count_up_example = cv-count_up (pos 2) true (true ∷ false ∷ true ∷ [])

cv-count_down_example :
    let c = count_down (Ctd.eval Ctd.new false true (pos 2)) (pos 2) (true ∷ false ∷ true ∷ []) in
    (c.cv ≡ max_ℤ i32_min (pos 2 -ℤ pos (edges false (true ∷ false ∷ true ∷ []))))
    × (c.q ≡ leb_ℤ c.cv (pos 0))
cv-count_down_example =
    cv-count_down Ctd.new false (pos 2) (true ∷ false ∷ true ∷ []) refl (omega arith)

run-dual_example :
    (run_sr (record { q = true }) (swapped ((true, false) ∷ (true, true) ∷ []))).q
    ≡ not (run_rs Rs.new ((true, false) ∷ (true, true) ∷ [])).q
run-dual_example = run-dual Rs.new (record { q = true }) ((true, false) ∷ (true, true) ∷ []) refl

pulses_alternate_example :
    let clks = true ∷ true ∷ false ∷ true ∷ [] in
    (rising_pulses RTrig.new clks ≡ edges false clks)
    × (falling_pulses FTrig.new clks ≡ falls false clks)
    × (rising_pulses RTrig.new clks ≡ falling_pulses FTrig.new clks + bit (last_level false clks))
pulses_alternate_example = pulses_alternate (true ∷ true ∷ false ∷ true ∷ [])
