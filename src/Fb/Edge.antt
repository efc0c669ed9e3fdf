-- ===== src/Fb/Edge.antt =====
-- What the edge detectors and the counters are about: the changes of a sampled level. This is a
-- description of the samples, with no code behind it.
use my_soft_plc.Prelude.{ℕ, ◌+◌, Bool, not, ◌&&◌, List, [], ◌∷◌, bit}

-- The number of samples that are true after a sample that was false, `prev` the first of all.
abbrev pub edges : Bool → List Bool → ℕ
edges prev [] = 0
edges prev (level ∷ rest) = bit (level && not prev) + edges level rest

-- The number of samples that are false after a sample that was true.
abbrev pub falls : Bool → List Bool → ℕ
falls prev [] = 0
falls prev (level ∷ rest) = bit (not level && prev) + falls level rest

-- The last sample, or `prev` if there is none.
abbrev pub last_level : Bool → List Bool → Bool
last_level prev [] = prev
last_level prev (level ∷ rest) = last_level level rest
