-- ===== src/Fb/Ton/Delay.antt =====
-- How long TON waits before its output rises (crates/plc-fb-primitives/src/timer.rs).
use my_soft_plc.Prelude.{ℕ, ◌-◌, ◌≡◌, refl, ◌∙◌, true, false, List, [], ◌∷◌, arith}
use my_soft_plc.Prelude.Int.{ℤ, pos, max_ℤ, min_ℤ, leb_ℤ, IsI32}
use my_soft_plc.Fb.Elapsed.{et_from_delta_lem}
use my_soft_plc.Fb.Ton.{Ton, eval}

-- Samples with the input held, at the times of the list.
abbrev pub hold : Ton → ℤ → List ℕ → Ton
hold t pt [] = t
hold t pt (now ∷ rest) = hold (eval t true pt now) pt rest

eval-running :
    (t : Ton) (pt : ℤ) (now : ℕ)
    → t.running ≡ true
    → ((eval t true pt now).running ≡ true) × ((eval t true pt now).start_ms ≡ t.start_ms)
unfolding eval
eval-running t pt now h = ground arith

hold-running :
    (t : Ton) (pt : ℤ) (times : List ℕ)
    → t.running ≡ true
    → ((hold t pt times).running ≡ true) × ((hold t pt times).start_ms ≡ t.start_ms)
hold-running t pt [] h = (h, refl)
hold-running t pt (now ∷ rest) h =
    ground (arith, eval-running t pt now h, hold-running (eval t true pt now) pt rest)

eval_starts :
    (t : Ton) (pt : ℤ) (now : ℕ)
    → t.running ≡ false
    → ((eval t true pt now).running ≡ true) × ((eval t true pt now).start_ms ≡ now)
unfolding eval
eval_starts t pt now h = ground arith

eval_measures :
    (t : Ton) (pt : ℤ) (now start : ℕ)
    → IsI32 pt
    → t.running ≡ true
    → t.start_ms ≡ start
    → let t' = eval t true pt now in
      (t'.et ≡ min_ℤ (pos (now - start)) (max_ℤ pt (pos 0))) × (t'.q ≡ leb_ℤ pt (pos (now - start)))
unfolding eval
eval_measures t pt now start i h e =
    ground (arith, et_from_delta_lem t.start_ms now (max_ℤ pt (pos 0)))

-- While the input is held from an evaluation at `start` on, whatever the times of the samples
-- between, a sample at `now` has the elapsed time since `start` cut at the preset (0 if the preset
-- is negative), and its output is true exactly when that time has reached the preset.
pub eval-hold :
    (t : Ton) (pt : ℤ) (start now : ℕ) (times : List ℕ)
    → t.running ≡ false
    → IsI32 pt
    → let t' = eval (hold (eval t true pt start) pt times) true pt now in
      (t'.et ≡ min_ℤ (pos (now - start)) (max_ℤ pt (pos 0))) × (t'.q ≡ leb_ℤ pt (pos (now - start)))
eval-hold t pt start now times h i =
    let fresh = eval_starts t pt start h in
    let held = hold-running (eval t true pt start) pt times fresh.0 in
    eval_measures (hold (eval t true pt start) pt times) pt now start i held.0 (held.1 ∙ fresh.1)
