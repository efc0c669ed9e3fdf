-- ===== src/Fb/Tp/Pulse.antt =====
-- The length of the pulse of TP (crates/plc-fb-primitives/src/timer.rs).
use my_soft_plc.Prelude.{ℕ, ◌-◌, ◌≡◌, Bool, true, false, not, List, [], ◌∷◌, arith}
use my_soft_plc.Prelude.Int.{ℤ, pos, ltb_ℤ, leb_ℤ, min_ℤ, IsI32}
use my_soft_plc.Fb.Elapsed.{et_from_delta_lem}
use my_soft_plc.Fb.Tp.{Tp, eval}

-- Samples of the input with their times.
abbrev pub run : Tp → ℤ → List (Bool × ℕ) → Tp
run t pt [] = t
run t pt ((input, now) ∷ rest) = run (eval t input pt now) pt rest

-- Each sample comes before the preset has passed since `start`.
abbrev pub InTime : ℕ → ℤ → List (Bool × ℕ) → Type 0
InTime start pt [] = Unit
InTime start pt ((input, now) ∷ rest) = (ltb_ℤ (pos (now - start)) pt ≡ true) × InTime start pt rest

record IsPulsing (start : ℕ) (t : Tp) : Type 0 where
  on : t.q ≡ true
  running : t.running ≡ true
  since : t.start_ms ≡ start

eval_rises :
    (t : Tp) (pt : ℤ) (start : ℕ)
    → IsI32 pt
    → ltb_ℤ (pos 0) pt ≡ true
    → t.running ≡ false
    → t.prev_in ≡ false
    → IsPulsing start (eval t true pt start)
unfolding eval
eval_rises t pt start i p r e = ground (arith, et_from_delta_lem start start pt)

eval_holds :
    (t : Tp) (input : Bool) (pt : ℤ) (start now : ℕ)
    → IsI32 pt
    → ltb_ℤ (pos (now - start)) pt ≡ true
    → IsPulsing start t
    → IsPulsing start (eval t input pt now)
unfolding eval
eval_holds t input pt start now i p h = ground (arith, et_from_delta_lem t.start_ms now pt)

eval_measures :
    (t : Tp) (input : Bool) (pt : ℤ) (start now : ℕ)
    → IsI32 pt
    → ltb_ℤ (pos 0) pt ≡ true
    → IsPulsing start t
    → let t' = eval t input pt now in
      (t'.q ≡ not (leb_ℤ pt (pos (now - start)))) × (t'.et ≡ min_ℤ (pos (now - start)) pt)
unfolding eval
eval_measures t input pt start now i p h = ground (arith, et_from_delta_lem t.start_ms now pt)

run-IsPulsing :
    (t : Tp) (pt : ℤ) (start : ℕ) (samples : List (Bool × ℕ))
    → IsI32 pt
    → InTime start pt samples
    → IsPulsing start t
    → IsPulsing start (run t pt samples)
run-IsPulsing t pt start [] i p h = h
run-IsPulsing t pt start ((input, now) ∷ rest) i p h =
    run-IsPulsing (eval t input pt now) pt start rest i p.1
      (eval_holds t input pt start now i p.0 h)

-- A rising edge at `start` on an idle timer with a positive preset begins a pulse. Whatever the
-- input does at the samples that come before the preset has passed, and whatever it is at a sample
-- at `now`, that sample is off exactly when the preset has passed since `start`, and its elapsed
-- time is the time since `start` cut at the preset: the pulse is neither cut short nor extended.
pub eval-pulse :
    (t : Tp) (pt : ℤ) (start now : ℕ) (input : Bool) (samples : List (Bool × ℕ))
    → t.running ≡ false
    → t.prev_in ≡ false
    → IsI32 pt
    → ltb_ℤ (pos 0) pt ≡ true
    → InTime start pt samples
    → let t' = eval (run (eval t true pt start) pt samples) input pt now in
      (t'.q ≡ not (leb_ℤ pt (pos (now - start)))) × (t'.et ≡ min_ℤ (pos (now - start)) pt)
eval-pulse t pt start now input samples r e i p within =
    eval_measures (run (eval t true pt start) pt samples) input pt start now i p (
      run-IsPulsing (eval t true pt start) pt start samples i within
        (eval_rises t pt start i p r e))
