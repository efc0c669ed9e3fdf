-- ===== src/Fb/FTrig/Edges.antt =====
-- The two edge detectors over a run of samples (crates/plc-fb-primitives/src/edge.rs).
use my_soft_plc.Prelude.{ℕ, ◌+◌, ◌≡◌, refl, Bool, true, false, List, [], ◌∷◌, arith, bit}
use my_soft_plc.Fb.Edge.{edges, falls, last_level}
use my_soft_plc.Fb.RTrig
use my_soft_plc.Fb.RTrig.{RTrig}
use my_soft_plc.Fb.FTrig
use my_soft_plc.Fb.FTrig.{FTrig}

-- How many of the evaluations over the samples have a true output.
abbrev pub rising_pulses : RTrig → List Bool → ℕ
rising_pulses e [] = 0
rising_pulses e (clk ∷ rest) = bit (RTrig.eval e clk).q + rising_pulses (RTrig.eval e clk) rest

abbrev pub falling_pulses : FTrig → List Bool → ℕ
falling_pulses e [] = 0
falling_pulses e (clk ∷ rest) = bit (FTrig.eval e clk).q + falling_pulses (FTrig.eval e clk) rest

rising_pulses-edges : (e : RTrig) (clks : List Bool) → rising_pulses e clks ≡ edges e.prev clks
unfolding RTrig.eval
rising_pulses-edges e [] = refl
rising_pulses-edges e (clk ∷ rest) = omega (arith, rising_pulses-edges (RTrig.eval e clk) rest)

falling_pulses-falls : (e : FTrig) (clks : List Bool) → falling_pulses e clks ≡ falls e.prev clks
unfolding FTrig.eval
falling_pulses-falls e [] = refl
falling_pulses-falls e (clk ∷ rest) = omega (arith, falling_pulses-falls (FTrig.eval e clk) rest)

edges-falls :
    (prev : Bool) (clks : List Bool)
    → bit prev + edges prev clks ≡ falls prev clks + bit (last_level prev clks)
edges-falls prev [] = omega arith
edges-falls true (true ∷ rest) = omega (arith, edges-falls true rest)
edges-falls true (false ∷ rest) = omega (arith, edges-falls false rest)
edges-falls false (true ∷ rest) = omega (arith, edges-falls true rest)
edges-falls false (false ∷ rest) = omega (arith, edges-falls false rest)

-- Over the same samples from a cold start, R_TRIG gives one pulse for each rising edge, F_TRIG one
-- for each falling edge, and the pulses alternate: as many of both, or one more rising if the last
-- sample is true.
pub pulses_alternate :
    (clks : List Bool)
    → (rising_pulses RTrig.new clks ≡ edges false clks)
      × (falling_pulses FTrig.new clks ≡ falls false clks)
      × (rising_pulses RTrig.new clks ≡ falling_pulses FTrig.new clks + bit (last_level false clks))
pulses_alternate clks =
    let rising = rising_pulses-edges RTrig.new clks in
    let falling = falling_pulses-falls FTrig.new clks in
    (rising, falling, omega (arith, edges-falls false clks))
