-- ===== src/Fb/Sr/Latch.antt =====
-- The two latches over a run of samples (crates/plc-fb-primitives/src/latch.rs).
use my_soft_plc.Prelude.{◌≡◌, Bool, not, List, [], ◌∷◌, arith}
use my_soft_plc.Fb.Rs
use my_soft_plc.Fb.Rs.{Rs}
use my_soft_plc.Fb.Sr
use my_soft_plc.Fb.Sr.{Sr}

-- Samples of the inputs S and R.
abbrev pub run_rs : Rs → List (Bool × Bool) → Rs
run_rs l [] = l
run_rs l ((s, r) ∷ rest) = run_rs (Rs.eval l s r) rest

abbrev pub run_sr : Sr → List (Bool × Bool) → Sr
run_sr l [] = l
run_sr l ((s, r) ∷ rest) = run_sr (Sr.eval l s r) rest

abbrev pub swapped : List (Bool × Bool) → List (Bool × Bool)
swapped [] = []
swapped ((s, r) ∷ rest) = (r, s) ∷ swapped rest

eval-dual :
    (a : Rs) (b : Sr) (s r : Bool) → b.q ≡ not a.q → (Sr.eval b r s).q ≡ not (Rs.eval a s r).q
unfolding Rs.eval Sr.eval
eval-dual a b s r h = ground arith

-- The latches are dual: SR on the inputs exchanged has at all times the opposite output of RS, if
-- it had so at the start.
pub run-dual :
    (a : Rs) (b : Sr) (samples : List (Bool × Bool))
    → b.q ≡ not a.q
    → (run_sr b (swapped samples)).q ≡ not (run_rs a samples).q
run-dual a b [] h = h
run-dual a b ((s, r) ∷ rest) h = run-dual (Rs.eval a s r) (Sr.eval b r s) rest (eval-dual a b s r h)
