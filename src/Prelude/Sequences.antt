-- ===== src/Prelude/Sequences.antt =====
-- Subsequences of a list, and a predicate on all members.
use mathlib.Core.List.{List, [], ◌∷◌, ◌++◌}

module _ {ℓ} {A : Type ℓ} where
  abbrev pub All {κ} : (A → Type κ) → List A → Type κ
  All P [] = Unit {κ}
  All P (x ∷ xs) = P x × All P xs

  -- The first list is the second with some members left out, in the same order.
  pub data Subseq : List A → List A → Type ℓ where
    nil : Subseq [] []
    keep : (x : A) {xs ys : List A} → Subseq xs ys → Subseq (x ∷ xs) (x ∷ ys)
    skip : (x : A) {xs ys : List A} → Subseq xs ys → Subseq xs (x ∷ ys)

  pub Subseq-refl : (xs : List A) → Subseq xs xs
  Subseq-refl [] = nil
  Subseq-refl (x ∷ xs) = keep x (Subseq-refl xs)

  pub Subseq-snoc : {xs ys : List A} → Subseq xs ys → (v : A) → Subseq (xs ++ v ∷ []) (ys ++ v ∷ [])
  Subseq-snoc nil v = keep v nil
  Subseq-snoc (keep x s) v = keep x (Subseq-snoc s v)
  Subseq-snoc (skip x s) v = skip x (Subseq-snoc s v)

  pub Subseq-skip_last : {xs ys : List A} → Subseq xs ys → (v : A) → Subseq xs (ys ++ v ∷ [])
  Subseq-skip_last nil v = skip v nil
  Subseq-skip_last (keep x s) v = keep x (Subseq-skip_last s v)
  Subseq-skip_last (skip x s) v = skip x (Subseq-skip_last s v)

  pub Subseq-trans : {ys zs : List A} → Subseq ys zs → {xs : List A} → Subseq xs ys → Subseq xs zs
  Subseq-trans nil s = s
  Subseq-trans (skip x t) s = skip x (Subseq-trans t s)
  Subseq-trans (keep x t) (keep _ s) = keep x (Subseq-trans t s)
  Subseq-trans (keep x t) (skip _ s) = skip x (Subseq-trans t s)

  -- A member left out from the middle.
  pub Subseq-middle : (xs : List A) (v : A) (ys : List A) → Subseq (xs ++ ys) (xs ++ v ∷ ys)
  Subseq-middle [] v ys = skip v (Subseq-refl ys)
  Subseq-middle (x ∷ xs) v ys = keep x (Subseq-middle xs v ys)
