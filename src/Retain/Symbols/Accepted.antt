-- ===== src/Retain/Symbols/Accepted.antt =====
-- The layouts that `RetainLayout::new` of crates/plc-ir/src/retain.rs accepts.
use my_soft_plc.Prelude.{
  ℕ, ◌+◌, ◌^◌, ◌≤◌, ◌<◌, ◌≡◌, inl, inr, subst, refl, arith, Bool, Bool-cases, List, [], ◌∷◌, ok,
  >>=-eq-ok, reject_if, leb, ltb, All,
}
use my_soft_plc.Ir.IrType.{byte_width}
use my_soft_plc.Ir.Table.{bytes_eq}
use my_soft_plc.Retain.Codec.{RetainSymbol, RetainLayout}
use my_soft_plc.Retain.Symbols
use my_soft_plc.Retain.Symbols.{
  duplicate, empty_name, exceeds, overlap, end_offset, insert, sort, name_before, offset_before,
  check_names, check_symbols, check_overlaps,
}
use my_soft_plc.Retain.Remap.Layout.{Inside, Apart, Apart-sym, AllApart, IsLayout}

-- What holds of all members of a list holds of all of the sorted one, and back.
module _ {ℓ κ} {A : Type ℓ} (P : A → Type κ) (before : A → A → Bool) where
  All-insert : (x : A) (ys : List A) → P x → All P ys → All P (insert before x ys)
  All-insert x [] h hs = (h, hs)
  All-insert x (y ∷ ys) h (first, others) = elim (Bool-cases (before x y)) [
    | inl e ↦ rw e (h, (first, others))
    | inr e ↦ rw e (first, All-insert x ys h others)
  ]

  All-of-insert : (x : A) (ys : List A) → All P (insert before x ys) → P x × All P ys
  All-of-insert x [] hs = hs
  All-of-insert x (y ∷ ys) hs = elim (Bool-cases (before x y)) [
    | inl e ↦ subst (All P) {y = x ∷ y ∷ ys} (rw e refl) hs
    | inr e ↦
        let (first, more) : All P (y ∷ insert before x ys) =
          subst (All P) {y = y ∷ insert before x ys} (rw e refl) hs in
        let (h, others) = All-of-insert x ys more in (h, (first, others))
  ]

  All-sort : (xs : List A) → All P xs → All P (sort before xs)
  All-sort [] hs = hs
  All-sort (x ∷ xs) (h, hs) = All-insert x (sort before xs) h (All-sort xs hs)

  All-of-sort : (xs : List A) → All P (sort before xs) → All P xs
  All-of-sort [] hs = hs
  All-of-sort (x ∷ xs) hs =
      let (h, others) = All-of-insert x (sort before xs) hs in (h, All-of-sort xs others)

module _ {ℓ κ μ} {A : Type ℓ} {P : A → Type κ} {Q : A → Type μ} where
  All-map : (xs : List A) → ((x : A) → P x → Q x) → All P xs → All Q xs
  All-map [] f h = tt
  All-map (x ∷ xs) f (h, hs) = (f x h, All-map xs f hs)

-- Symbols apart from each other are so in every order.
AllApart-of-insert :
    (before : RetainSymbol → RetainSymbol → Bool) (x : RetainSymbol) (ys : List RetainSymbol)
    → AllApart (insert before x ys)
    → All (Apart x) ys × AllApart ys
AllApart-of-insert before x [] h = h
AllApart-of-insert before x (y ∷ ys) h = elim (Bool-cases (before x y)) [
  | inl e ↦ subst AllApart {y = x ∷ y ∷ ys} (rw e refl) h
  | inr e ↦
      let (first, more) : AllApart (y ∷ insert before x ys) =
        subst AllApart {y = y ∷ insert before x ys} (rw e refl) h in
      let (y_x, y_others) = All-of-insert (Apart y) before x ys first in
      let (x_others, others) = AllApart-of-insert before x ys more in
      ((Apart-sym y x y_x, x_others), (y_others, others))
]

AllApart-of-sort :
    (before : RetainSymbol → RetainSymbol → Bool) (xs : List RetainSymbol)
    → AllApart (sort before xs)
    → AllApart xs
AllApart-of-sort before [] h = h
AllApart-of-sort before (x ∷ xs) h =
    let (x_others, others) = AllApart-of-insert before x (sort before xs) h in
    (All-of-sort (Apart x) before xs x_others, AllApart-of-sort before xs others)

-- The symbols in the order of their offsets.
Ordered : List RetainSymbol → Type 0
Ordered [] = Unit {0}
Ordered (s ∷ rest) = All (λ (t : RetainSymbol). s.offset ≤ t.offset) rest × Ordered rest

insert-Ordered :
    (x : RetainSymbol) (ys : List RetainSymbol) → Ordered ys → Ordered (insert offset_before x ys)
unfolding Ordered
insert-Ordered x [] h = (tt, tt)
insert-Ordered x (y ∷ ys) (first, others) = elim (Bool-cases (leb x.offset y.offset)) [
  | inl e ↦
      let below : x.offset ≤ y.offset = ground (arith, e) in
      rw e ((below, All-map ys (λ t h. omega (arith, below, h)) first), (first, others))
  | inr e ↦
      let above : y.offset ≤ x.offset = ground (arith, e) in
      rw e (
        All-insert (λ (t : RetainSymbol). y.offset ≤ t.offset) offset_before x ys above first,
        insert-Ordered x ys others,
      )
]

sort-Ordered : (xs : List RetainSymbol) → Ordered (sort offset_before xs)
unfolding Ordered
sort-Ordered [] = tt
sort-Ordered (x ∷ xs) = insert-Ordered x (sort offset_before xs) (sort-Ordered xs)

check_symbols_lem :
    (size : ℕ) (xs : List RetainSymbol) → check_symbols size xs ≡ ok tt → All (Inside size) xs
unfolding check_symbols
check_symbols_lem size [] e = tt
check_symbols_lem size (s ∷ rest) e =
    let (_, named, e1) = >>=-eq-ok (reject_if (bytes_eq s.name []) empty_name) _ e in
    let (_, fits, e2) =
      >>=-eq-ok (reject_if (ltb size (s.offset + byte_width s.ty)) exceeds) _ e1 in
    (ground (arith, fits), check_symbols_lem size rest e2)

check_overlaps_lem :
    (size : ℕ) (xs : List RetainSymbol)
    → size < 2 ^ 32
    → All (Inside size) xs
    → Ordered xs
    → check_overlaps xs ≡ ok tt
    → AllApart xs
unfolding check_overlaps end_offset Ordered
check_overlaps_lem size [] small inside ordered e = tt
check_overlaps_lem size (s ∷ []) small inside ordered e = (tt, tt)
check_overlaps_lem size (s ∷ t ∷ rest) small (inside_s, inside) (_, (later, ordered)) e =
    let (_, apart, e1) = >>=-eq-ok (reject_if (ltb t.offset (end_offset s)) overlap) _ e in
    let end : s.offset + byte_width s.ty ≤ t.offset = ground (arith, apart, inside_s, small) in
    (
      (inl end, All-map rest (λ u h. inl (omega (arith, end, h))) later),
      check_overlaps_lem size (t ∷ rest) small inside (later, ordered) e1,
    )

new-IsLayout :
    (size : ℕ) (symbols : List RetainSymbol) {layout : RetainLayout}
    → size < 2 ^ 32
    → Symbols.new size symbols ≡ ok layout
    → IsLayout layout
unfolding Symbols.new
new-IsLayout size symbols {layout = layout} small e =
    let sorted = sort name_before symbols in
    let (_, names, e1) = >>=-eq-ok (check_names sorted) _ e in
    let (_, fits, e2) = >>=-eq-ok (check_symbols size sorted) _ e1 in
    let (_, overlaps, e3) = >>=-eq-ok (check_overlaps (sort offset_before sorted)) _ e2 in
    let inside = check_symbols_lem size sorted fits in
    let apart =
      check_overlaps_lem size (sort offset_before sorted) small
        (All-sort (Inside size) offset_before sorted inside) (sort-Ordered sorted) overlaps in
    let it : record { retain_size = size; symbols = sorted } ≡ layout = cc in
    subst IsLayout it
      record { inside = inside; apart = AllApart-of-sort offset_before sorted apart }

-- `RetainLayout::new` gives the layout for some symbols.
pub record IsAccepted (layout : RetainLayout) : Type 0 where
  pub given : List RetainSymbol
  pub small : layout.retain_size < 2 ^ 32
  pub accepted : Symbols.new layout.retain_size given ≡ ok layout

pub IsAccepted-IsLayout : (layout : RetainLayout) → IsAccepted layout → IsLayout layout
IsAccepted-IsLayout layout h = new-IsLayout layout.retain_size h.given h.small h.accepted
