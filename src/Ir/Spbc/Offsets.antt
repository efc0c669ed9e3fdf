-- ===== src/Ir/Spbc/Offsets.antt =====
-- Reading at an offset of a text that is known from there on.
use my_soft_plc.Prelude.{
  ℕ, zero, suc, ◌+◌, ◌^◌, ◌<◌, ◌≡◌, ◌∙◌, refl, ap, sym, List, [], ◌∷◌, ◌++◌, arith, length,
  length-append, drop, take-length, drop-length, get_or,
}
use my_soft_plc.Ir.Bytes.{
  to_le_bytes, from_le_bytes, slice, length-to_le_bytes, from-to_u16, from-to_u32,
}

-- From `off` on, the bytes are `rest`, and `off` is in range.
pub record At (bs : List ℕ) (off : ℕ) (rest : List ℕ) : Type 0 where
  pub suffix : drop off bs ≡ rest
  pub total : length bs ≡ off + length rest

pub At-zero : (bs : List ℕ) → At bs 0 bs
At-zero bs = record { suffix = refl; total = omega arith }

drop-nil : (n : ℕ) → ◌≡◌ {A = List ℕ} (drop n []) []
drop-nil zero = refl
drop-nil (suc n) = refl

drop-drop : (m n : ℕ) (bs : List ℕ) → drop (m + n) bs ≡ drop n (drop m bs)
drop-drop zero n bs = ap (λ k. drop k bs) (omega arith)
drop-drop (suc m) n [] = drop-nil (suc m + n) ∙ sym (drop-nil n)
drop-drop (suc m) n (b ∷ bs) =
    let k : suc m + n ≡ suc (m + n) = omega arith in ap (λ j. drop j (b ∷ bs)) k ∙ drop-drop m n bs

pub At-skip :
    (bs : List ℕ) (off n : ℕ) (part rest : List ℕ)
    → At bs off (part ++ rest)
    → length part ≡ n
    → At bs (off + n) rest
At-skip bs off n part rest at e = record {
  suffix = drop-drop off n bs ∙ rw (at.suffix, ← e) (drop-length part rest);
  total = omega (arith, at.total, length-append part rest);
}

pub slice-At :
    (bs : List ℕ) (off n : ℕ) (part rest : List ℕ)
    → At bs off (part ++ rest)
    → length part ≡ n
    → slice bs off n ≡ part
unfolding slice
slice-At bs off n part rest at e = rw (at.suffix, ← e) (take-length part rest)

-- A field of two or of four bytes.
pub u16-At :
    (bs : List ℕ) (off v : ℕ) (rest : List ℕ)
    → At bs off (to_le_bytes 2 v ++ rest)
    → v < 2 ^ 16
    → (from_le_bytes (slice bs off 2) ≡ v) × At bs (off + 2) rest
u16-At bs off v rest at h =
    let part = to_le_bytes 2 v in
    (
      ap from_le_bytes (slice-At bs off 2 part rest at (length-to_le_bytes 2 v)) ∙ from-to_u16 v h,
      At-skip bs off 2 part rest at (length-to_le_bytes 2 v),
    )

pub u32-At :
    (bs : List ℕ) (off v : ℕ) (rest : List ℕ)
    → At bs off (to_le_bytes 4 v ++ rest)
    → v < 2 ^ 32
    → (from_le_bytes (slice bs off 4) ≡ v) × At bs (off + 4) rest
u32-At bs off v rest at h =
    let part = to_le_bytes 4 v in
    (
      ap from_le_bytes (slice-At bs off 4 part rest at (length-to_le_bytes 4 v)) ∙ from-to_u32 v h,
      At-skip bs off 4 part rest at (length-to_le_bytes 4 v),
    )

get_or-drop :
    (bs : List ℕ) (off b : ℕ) (rest : List ℕ) → drop off bs ≡ b ∷ rest → get_or bs off 0 ≡ b
get_or-drop [] zero b rest h = cc
get_or-drop [] (suc off) b rest h = cc
get_or-drop (x ∷ bs) zero b rest h = cc
get_or-drop (x ∷ bs) (suc off) b rest h = get_or-drop bs off b rest h

-- A single byte.
pub byte-At :
    (bs : List ℕ) (off b : ℕ) (rest : List ℕ)
    → At bs off (b ∷ rest)
    → (get_or bs off 0 ≡ b) × At bs (off + 1) rest
byte-At bs off b rest at =
    (get_or-drop bs off b rest at.suffix, At-skip bs off 1 (b ∷ []) rest at refl)
