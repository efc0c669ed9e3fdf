-- ===== src/Fb/Ctu/Count.antt =====
-- CTU counts the rising edges of its input (crates/plc-fb-primitives/src/counter.rs).
use my_soft_plc.Prelude.{
  ℕ, ◌+◌, ◌-◌, ◌^◌, ◌≤◌, ◌≡◌, refl, ap, ◌∙◌, Bool, false, not, ◌&&◌, List, [], ◌∷◌, arith, min, bit,
}
use my_soft_plc.Prelude.Int.{ℤ, pos, leb_ℤ}
use my_soft_plc.Fb.Edge.{edges}
use my_soft_plc.Fb.Ctu.{Ctu, new, eval}

-- Samples of the counted input with the reset low.
abbrev pub count_up : Ctu → ℤ → List Bool → Ctu
count_up c pv [] = c
count_up c pv (cu ∷ rest) = count_up (eval c cu false pv) pv rest

eval_counts :
    (c : Ctu) (cu : Bool) (pv : ℤ) (n : ℕ)
    → c.cv ≡ pos n
    → n ≤ 2 ^ 31 - 1
    → let c' = eval c cu false pv in
      (c'.cv ≡ pos (min (n + bit (cu && not c.prev_cu)) (2 ^ 31 - 1))) × (c'.prev_cu ≡ cu)
unfolding eval
eval_counts c cu pv n e h = ground arith

eval_reached : (c : Ctu) (cu : Bool) (pv : ℤ) → let c' = eval c cu false pv in c'.q ≡ leb_ℤ pv c'.cv
unfolding eval
eval_reached c cu pv = refl

count_up_counts :
    (c : Ctu) (pv : ℤ) (n : ℕ) (prev : Bool) (cus : List Bool)
    → c.cv ≡ pos n
    → c.prev_cu ≡ prev
    → n ≤ 2 ^ 31 - 1
    → (count_up c pv cus).cv ≡ pos (min (n + edges prev cus) (2 ^ 31 - 1))
count_up_counts c pv n prev [] e p h = ground arith
count_up_counts c pv n prev (cu ∷ rest) e p h =
    let k : ℕ = min (n + bit (cu && not prev)) (2 ^ 31 - 1) in
    let counted = eval_counts c cu pv n e h in
    count_up_counts (eval c cu false pv) pv k cu rest (rw (← p) counted.0) counted.1 (omega arith)
    ∙ ap pos (omega arith)

count_up_reached :
    (c : Ctu) (pv : ℤ) (cus : List Bool)
    → c.q ≡ leb_ℤ pv c.cv
    → (count_up c pv cus).q ≡ leb_ℤ pv (count_up c pv cus).cv
count_up_reached c pv [] h = h
count_up_reached c pv (cu ∷ rest) h =
    count_up_reached (eval c cu false pv) pv rest (eval_reached c cu pv)

-- From a cold start with the reset low, after one sample or more, the count is the number of
-- rising edges of the input, held at the largest `i32`, and the output is true exactly when the
-- count has reached the preset.
pub cv-count_up :
    (pv : ℤ) (cu : Bool) (cus : List Bool)
    → let c = count_up new pv (cu ∷ cus) in
      (c.cv ≡ pos (min (edges false (cu ∷ cus)) (2 ^ 31 - 1))) × (c.q ≡ leb_ℤ pv c.cv)
cv-count_up pv cu cus = (
  count_up_counts new pv 0 false (cu ∷ cus) refl refl (omega arith) ∙ ap pos (omega arith),
  count_up_reached (eval new cu false pv) pv cus (eval_reached new cu pv),
)
