-- ===== src/Ir/Table.antt =====
-- A `match` on literals, as a table of its arms: the first arm whose literal fits.
use my_soft_plc.Prelude.{
  ℕ, ◌≡◌, Bool, true, false, ◌&&◌, Option, none, some, List, [], ◌∷◌, arith, ◌==◌, All,
  if◌then◌else◌,
}

abbrev pub bytes_eq : List ℕ → List ℕ → Bool
bytes_eq [] [] = true
bytes_eq (a ∷ xs) (b ∷ ys) = a == b && bytes_eq xs ys
bytes_eq _ _ = false

module _ {ℓ} {A : Type ℓ} where
  abbrev pub lookup_u8 : ℕ → List (ℕ × A) → Option A
  lookup_u8 v [] = none
  lookup_u8 v ((k, a) ∷ rest) = if v == k then some a else lookup_u8 v rest

  abbrev pub lookup_text : List ℕ → List (List ℕ × A) → Option A
  lookup_text s [] = none
  lookup_text s ((k, a) ∷ rest) = if bytes_eq s k then some a else lookup_text s rest

  -- If `code` gives each value its own literal, it gives what is found the literal looked for.
  pub lookup_u8-code :
      (code : A → ℕ) (v : ℕ) (a : A) (table : List (ℕ × A))
      → All (λ (e : ℕ × A). code e.1 ≡ e.0) table
      → lookup_u8 v table ≡ some a
      → code a ≡ v
  lookup_u8-code code v a [] h e = cc
  lookup_u8-code code v a ((k, b) ∷ rest) h e = ground (arith, lookup_u8-code code v a rest h.1)
