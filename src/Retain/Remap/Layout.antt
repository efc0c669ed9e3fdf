-- ===== src/Retain/Remap/Layout.antt =====
-- The layouts that `RetainLayout::new` of crates/plc-ir/src/retain.rs accepts, as the remap uses them.
use my_soft_plc.Prelude.{
  ℕ, ◌+◌, ◌≤◌, ◌≡◌, ◌≢◌, ◌⊎◌, inl, inr, sym, ◌∙◌, subst, arith, Bool-cases, some, List, [], ◌∷◌,
  All,
}
use my_soft_plc.Ir.IrType.{byte_width}
use my_soft_plc.Ir.Table.{bytes_eq}
use my_soft_plc.Retain.Codec.{RetainSymbol, RetainLayout}
use my_soft_plc.Retain.Remap.{find, get}
use my_soft_plc.Retain.Remap.Values.{IsPlaced, eq-of-bytes_eq}

-- The value lies in a segment of the size.
abbrev pub Inside : ℕ → RetainSymbol → Type 0
Inside size s = s.offset + byte_width s.ty ≤ size

abbrev pub Apart : RetainSymbol → RetainSymbol → Type 0
Apart s t = (s.offset + byte_width s.ty ≤ t.offset) ⊎ (t.offset + byte_width t.ty ≤ s.offset)

-- Each symbol lies apart from the later ones.
abbrev pub AllApart : List RetainSymbol → Type 0
AllApart [] = Unit {0}
AllApart (s ∷ rest) = All (Apart s) rest × AllApart rest

pub record IsLayout (layout : RetainLayout) : Type 0 where
  pub inside : All (Inside layout.retain_size) layout.symbols
  pub apart : AllApart layout.symbols

find-All :
    (P : RetainSymbol → Type 0) (symbols : List RetainSymbol) (name : List ℕ) {s : RetainSymbol}
    → All P symbols
    → find symbols name ≡ some s
    → P s
find-All P [] name h found = cc
find-All P (t ∷ rest) name {s = s} (first, others) found =
    elim (Bool-cases (bytes_eq t.name name)) [
      | inl same ↦ subst P {x = t} {y = s} (ground (arith, same, found)) first
      | inr other ↦ find-All P rest name {s = s} others (ground (arith, other, found))
    ]

pub Apart-sym : (s t : RetainSymbol) → Apart s t → Apart t s
Apart-sym s t (inl h) = inr h
Apart-sym s t (inr h) = inl h

find-AllApart :
    (symbols : List RetainSymbol) (a b : List ℕ) (s t : RetainSymbol)
    → AllApart symbols
    → find symbols a ≡ some s
    → find symbols b ≡ some t
    → a ≢ b
    → Apart s t
find-AllApart [] a b s t h at_a at_b differ = cc
find-AllApart (u ∷ rest) a b s t (first, others) at_a at_b differ =
    elim (Bool-cases (bytes_eq u.name a)) [
      | inl is_a ↦ elim (Bool-cases (bytes_eq u.name b)) [
        | inl is_b ↦
            absurd (differ (sym (eq-of-bytes_eq u.name a is_a) ∙ eq-of-bytes_eq u.name b is_b))
        | inr not_b ↦
            subst (λ x. Apart x t) {x = u} {y = s} (ground (arith, is_a, at_a))
              (find-All (Apart u) rest b {s = t} first (ground (arith, not_b, at_b)))
      ]
      | inr not_a ↦ elim (Bool-cases (bytes_eq u.name b)) [
        | inl is_b ↦ Apart-sym t s (
            subst (λ x. Apart x s) {x = u} {y = t} (ground (arith, is_b, at_b))
              (find-All (Apart u) rest a {s = s} first (ground (arith, not_a, at_a))))
        | inr not_b ↦
            find-AllApart rest a b s t others (ground (arith, not_a, at_a))
              (ground (arith, not_b, at_b)) differ
      ]
    ]

pub IsLayout-IsPlaced : (layout : RetainLayout) → IsLayout layout → IsPlaced layout
unfolding get
IsLayout-IsPlaced layout l = record {
  inside = λ name s found.
      find-All (Inside layout.retain_size) layout.symbols name {s = s} l.inside found;
  apart = λ a b s t at_a at_b differ. find-AllApart layout.symbols a b s t l.apart at_a at_b differ;
}
