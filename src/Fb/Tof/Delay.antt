-- ===== src/Fb/Tof/Delay.antt =====
-- How long TOF holds its output after the input falls (crates/plc-fb-primitives/src/timer.rs).
use my_soft_plc.Prelude.{ℕ, ◌-◌, ◌≡◌, true, false, not, List, [], ◌∷◌, arith}
use my_soft_plc.Prelude.Int.{ℤ, pos, ltb_ℤ, leb_ℤ, min_ℤ, IsI32}
use my_soft_plc.Fb.Elapsed.{et_from_delta_lem}
use my_soft_plc.Fb.Tof.{Tof, eval}

-- Samples with the input low, at the times of the list.
abbrev pub release : Tof → ℤ → List ℕ → Tof
release t pt [] = t
release t pt (now ∷ rest) = release (eval t false pt now) pt rest

-- Each time of the list comes before the preset has passed since `fall`.
abbrev pub InTime : ℕ → ℤ → List ℕ → Type 0
InTime fall pt [] = Unit
InTime fall pt (now ∷ rest) = (ltb_ℤ (pos (now - fall)) pt ≡ true) × InTime fall pt rest

record IsDelaying (fall : ℕ) (t : Tof) : Type 0 where
  on : t.q ≡ true
  delaying : t.delaying ≡ true
  since : t.fall_ms ≡ fall

eval_falls :
    (t : Tof) (pt : ℤ) (fall : ℕ)
    → IsI32 pt
    → ltb_ℤ (pos 0) pt ≡ true
    → t.q ≡ true
    → t.delaying ≡ false
    → IsDelaying fall (eval t false pt fall)
unfolding eval
eval_falls t pt fall i p q d = ground (arith, et_from_delta_lem fall fall pt)

eval_holds :
    (t : Tof) (pt : ℤ) (fall now : ℕ)
    → IsI32 pt
    → ltb_ℤ (pos (now - fall)) pt ≡ true
    → IsDelaying fall t
    → IsDelaying fall (eval t false pt now)
unfolding eval
eval_holds t pt fall now i p h = ground (arith, et_from_delta_lem t.fall_ms now pt)

eval_measures :
    (t : Tof) (pt : ℤ) (fall now : ℕ)
    → IsI32 pt
    → ltb_ℤ (pos 0) pt ≡ true
    → IsDelaying fall t
    → let t' = eval t false pt now in
      (t'.q ≡ not (leb_ℤ pt (pos (now - fall)))) × (t'.et ≡ min_ℤ (pos (now - fall)) pt)
unfolding eval
eval_measures t pt fall now i p h = ground (arith, et_from_delta_lem t.fall_ms now pt)

release-IsDelaying :
    (t : Tof) (pt : ℤ) (fall : ℕ) (times : List ℕ)
    → IsI32 pt
    → InTime fall pt times
    → IsDelaying fall t
    → IsDelaying fall (release t pt times)
release-IsDelaying t pt fall [] i p h = h
release-IsDelaying t pt fall (now ∷ rest) i p h =
    release-IsDelaying (eval t false pt now) pt fall rest i p.1 (eval_holds t pt fall now i p.0 h)

-- From a timer that is on and not yet delaying, with a positive preset: after the input falls at
-- `fall` and is low at samples that come before the preset has passed, a sample with a low input
-- at `now` is off exactly when the preset has passed since `fall`, and its elapsed time is the
-- time since `fall` cut at the preset.
pub eval-release :
    (t : Tof) (pt : ℤ) (fall now : ℕ) (times : List ℕ)
    → t.q ≡ true
    → t.delaying ≡ false
    → IsI32 pt
    → ltb_ℤ (pos 0) pt ≡ true
    → InTime fall pt times
    → let t' = eval (release (eval t false pt fall) pt times) false pt now in
      (t'.q ≡ not (leb_ℤ pt (pos (now - fall)))) × (t'.et ≡ min_ℤ (pos (now - fall)) pt)
eval-release t pt fall now times q d i p within =
    eval_measures (release (eval t false pt fall) pt times) pt fall now i p (
      release-IsDelaying (eval t false pt fall) pt fall times i within
        (eval_falls t pt fall i p q d))
