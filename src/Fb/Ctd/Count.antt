-- ===== src/Fb/Ctd/Count.antt =====
-- CTD counts down from the loaded preset (crates/plc-fb-primitives/src/counter.rs).
use my_soft_plc.Prelude.{ℕ, ◌+◌, ◌≡◌, ◌∙◌, Bool, true, false, not, ◌&&◌, List, [], ◌∷◌, arith, bit}
use my_soft_plc.Prelude.Int.{ℤ, pos, leb_ℤ, max_ℤ, i32_min, ◌-ℤ◌, IsI32}
use my_soft_plc.Fb.Edge.{edges}
use my_soft_plc.Fb.Ctd.{Ctd, eval}

-- Samples of the counted input with the load input low.
abbrev pub count_down : Ctd → ℤ → List Bool → Ctd
count_down c pv [] = c
count_down c pv (cd ∷ rest) = count_down (eval c cd false pv) pv rest

eval_counts :
    (c : Ctd) (cd : Bool) (pv : ℤ)
    → IsI32 c.cv
    → let c' = eval c cd false pv in
      (c'.cv ≡ max_ℤ i32_min (c.cv -ℤ pos (bit (cd && not c.prev_cd))))
      × (c'.prev_cd ≡ cd)
      × (c'.q ≡ leb_ℤ c'.cv (pos 0))
unfolding eval
eval_counts c cd pv h = ground arith

eval_loads :
    (c : Ctd) (cd : Bool) (pv : ℤ)
    → c.prev_ld ≡ false
    → let c' = eval c cd true pv in (c'.cv ≡ pv) × (c'.prev_cd ≡ cd) × (c'.q ≡ leb_ℤ c'.cv (pos 0))
unfolding eval
eval_loads c cd pv h = ground arith

floor-IsI32 : (a : ℤ) (n : ℕ) → IsI32 a → IsI32 (max_ℤ i32_min (a -ℤ pos n))
floor-IsI32 a n h = ground arith

floor-floor :
    (a : ℤ) (m n : ℕ)
    → max_ℤ i32_min (max_ℤ i32_min (a -ℤ pos m) -ℤ pos n) ≡ max_ℤ i32_min (a -ℤ pos (m + n))
floor-floor a m n = ground arith

floor-zero : (a : ℤ) → IsI32 a → a ≡ max_ℤ i32_min (a -ℤ pos 0)
floor-zero a h = ground arith

count_down_counts :
    (c : Ctd) (pv v : ℤ) (prev : Bool) (cds : List Bool)
    → c.cv ≡ v
    → c.prev_cd ≡ prev
    → IsI32 v
    → c.q ≡ leb_ℤ c.cv (pos 0)
    → let c' = count_down c pv cds in
      (c'.cv ≡ max_ℤ i32_min (v -ℤ pos (edges prev cds))) × (c'.q ≡ leb_ℤ c'.cv (pos 0))
count_down_counts c pv v prev [] e p h q = (e ∙ floor-zero v h, q)
count_down_counts c pv v prev (cd ∷ rest) e p h q =
    let (counted, sampled, reached) = eval_counts c cd pv (rw e h) in
    let n : ℕ = bit (cd && not prev) in
    let (more, done) =
      count_down_counts (eval c cd false pv) pv (max_ℤ i32_min (v -ℤ pos n)) cd rest
        (counted ∙ rw (e, p)) sampled (floor-IsI32 v n h) reached in
    (more ∙ floor-floor v n (edges cd rest), done)

-- A rising edge of the load input sets the count to the preset. After it, with the load input low,
-- the count is the preset less the number of rising edges of the counted input, held at the
-- smallest `i32`, and the output is true exactly when the count is not positive.
pub cv-count_down :
    (c : Ctd) (cd : Bool) (pv : ℤ) (cds : List Bool)
    → c.prev_ld ≡ false
    → IsI32 pv
    → let c' = count_down (eval c cd true pv) pv cds in
      (c'.cv ≡ max_ℤ i32_min (pv -ℤ pos (edges cd cds))) × (c'.q ≡ leb_ℤ c'.cv (pos 0))
cv-count_down c cd pv cds e h =
    let (loaded, sampled, reached) = eval_loads c cd pv e in
    count_down_counts (eval c cd true pv) pv pv cd cds loaded sampled h reached
