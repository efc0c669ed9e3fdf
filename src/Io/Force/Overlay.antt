-- ===== src/Io/Force/Overlay.antt =====
-- The table of forces as a map from slots (crates/plc-io/src/force.rs).
use my_soft_plc.Prelude.{
  ℕ, ◌≡◌, ◌∙◌, ◌↔◌, refl, sym, true, Option, none, some, List, [], ◌∷◌, arith, ◌==◌, if◌then◌else◌,
}
use my_soft_plc.Io.Force.{
  ForceTable, new, set, clear, clear_all, get, is_empty, is_nil, lookup, remove,
}

pub data ForceOp {ℓ} (V : Type ℓ) : Type ℓ where
  sets : ℕ → V → ForceOp V
  clears : ℕ → ForceOp V
  clears_all : ForceOp V

module _ {ℓ} {V : Type ℓ} where
  abbrev pub apply : ForceTable V → ForceOp V → ForceTable V
  apply t (sets slot value) = set t slot value
  apply t (clears slot) = clear t slot
  apply t clears_all = clear_all t

  -- The operations, the newest first.
  abbrev pub run : List (ForceOp V) → ForceTable V
  run [] = new
  run (op ∷ older) = apply (run older) op

  -- What the newest operation that speaks of the slot says.
  abbrev pub latest : List (ForceOp V) → ℕ → Option V
  latest [] slot = none
  latest (sets k value ∷ older) slot =
      let before = latest older slot in if k == slot then some value else before
  latest (clears k ∷ older) slot =
      let before = latest older slot in if k == slot then none else before
  latest (clears_all ∷ older) slot = none

  lookup-remove :
      (slot k : ℕ) (forces : List (ℕ × V))
      → lookup slot (remove k forces) ≡ (if k == slot then none else lookup slot forces)
  lookup-remove slot k [] = ground arith
  lookup-remove slot k ((j, v) ∷ rest) = ground (arith, lookup-remove slot k rest)

  get-run : (ops : List (ForceOp V)) (slot : ℕ) → get (run ops) slot ≡ latest ops slot
  unfolding get set clear clear_all
  get-run [] slot = refl
  get-run (sets k value ∷ older) slot =
      ground (arith, lookup-remove slot k (run older).forces, get-run older slot)
  get-run (clears k ∷ older) slot =
      ground (arith, lookup-remove slot k (run older).forces, get-run older slot)
  get-run (clears_all ∷ older) slot = refl

  empty_forces :
      (forces : List (ℕ × V)) → (is_nil forces ≡ true) ↔ ((slot : ℕ) → lookup slot forces ≡ none)
  empty_forces [] = (λ e slot. refl, λ h. refl)
  empty_forces ((k, v) ∷ rest) = (λ e slot. cc, λ h. ground (arith, h k))

  empty-get : (t : ForceTable V) → (is_empty t ≡ true) ↔ ((slot : ℕ) → get t slot ≡ none)
  unfolding is_empty get
  empty-get t = empty_forces t.forces

  -- After any operations, a slot has the force that the newest operation on it, or on all, has left,
  -- and the table is empty exactly when no slot has a force.
  pub get-run-latest :
      (ops : List (ForceOp V))
      → ((slot : ℕ) → get (run ops) slot ≡ latest ops slot)
        × ((is_empty (run ops) ≡ true) ↔ ((slot : ℕ) → latest ops slot ≡ none))
  get-run-latest ops = (
    get-run ops,
    (
      λ e slot. sym (get-run ops slot) ∙ (empty-get (run ops)).0 e slot,
      λ h. (empty-get (run ops)).1 (λ slot. get-run ops slot ∙ h slot),
    ),
  )
