-- ===== src/Retain/Remap/Values.antt =====
-- What the symbols hold after the remap of crates/plc-retain/src/map.rs.
use my_soft_plc.Prelude.{
  ℕ, ◌+◌, ◌≤◌, ◌≡◌, ◌≢◌, ◌⊎◌, inl, inr, refl, sym, ap, ◌∙◌, subst, arith, true, false, ◌&&◌,
  Bool-cases, Option, none, some, List, [], ◌∷◌, ◌++◌, ok, length, ◌==◌, if◌then◌else◌,
}
use mathlib.Core.List.{append-nil}
use my_soft_plc.Ir.IrType.{IrType, byte_width, type_eq}
use my_soft_plc.Ir.Table.{bytes_eq}
use my_soft_plc.Vm.Memory.{write_at}
use my_soft_plc.Vm.Memory.Patch.{
  length-write_at, slice-write_at, slice-write_at_after, slice-write_at_before,
}
use my_soft_plc.Retain.Codec.{RetainSymbol, RetainLayout, RetainRecord, value_of}
use my_soft_plc.Retain.Remap.{Remap, find, get, with_value, keep, apply_found}

-- The values of the symbols that are found lie in the segment, and those of different names
-- apart from each other.
pub record IsPlaced (layout : RetainLayout) : Type 0 where
  pub inside :
      (name : List ℕ) (s : RetainSymbol)
      → get layout name ≡ some s
      → s.offset + byte_width s.ty ≤ layout.retain_size
  pub apart :
      (a b : List ℕ) (s t : RetainSymbol)
      → get layout a ≡ some s
      → get layout b ≡ some t
      → a ≢ b
      → (s.offset + byte_width s.ty ≤ t.offset) ⊎ (t.offset + byte_width t.ty ≤ s.offset)

-- The value of a symbol after a record: that of the record if the name and the type agree.
unfoldable pub carried : RetainRecord → RetainSymbol → List ℕ → List ℕ
carried rec s v = if bytes_eq s.name rec.name && type_eq s.ty rec.ty then rec.value else v

unfoldable pub carried_all : List RetainRecord → RetainSymbol → List ℕ → List ℕ
unfolding carried
carried_all [] s v = v
carried_all (rec ∷ rest) s v = carried_all rest s (carried rec s v)

abbrev pub conflict_with : Option RetainSymbol → RetainRecord → List (List ℕ)
conflict_with none rec = []
conflict_with (some s) rec = if type_eq s.ty rec.ty then [] else rec.name ∷ []

-- The names of the records whose type is not that of the symbol, in their order.
unfoldable pub conflicts : RetainLayout → List RetainRecord → List (List ℕ)
conflicts layout [] = []
conflicts layout (rec ∷ rest) = conflict_with (get layout rec.name) rec ++ conflicts layout rest

pub eq-of-bytes_eq : (a b : List ℕ) → bytes_eq a b ≡ true → a ≡ b
eq-of-bytes_eq [] [] h = refl
eq-of-bytes_eq [] (b ∷ ys) h = cc
eq-of-bytes_eq (a ∷ xs) [] h = cc
eq-of-bytes_eq (a ∷ xs) (b ∷ ys) h = ground (arith, eq-of-bytes_eq xs ys, h)

bytes_eq_refl : (a : List ℕ) → bytes_eq a a ≡ true
bytes_eq_refl [] = refl
bytes_eq_refl (a ∷ xs) = ground (arith, bytes_eq_refl xs)

find_name :
    (symbols : List RetainSymbol) (name : List ℕ) {s : RetainSymbol}
    → find symbols name ≡ some s
    → s.name ≡ name
find_name [] name h = cc
find_name (s ∷ rest) name {s = found} h = elim (Bool-cases (bytes_eq s.name name)) [
  | inl same ↦
      let it : s ≡ found = ground (arith, same, h) in
      ap (λ (x : RetainSymbol). x.name) (sym it) ∙ eq-of-bytes_eq s.name name same
  | inr other ↦ find_name rest name {s = found} (ground (arith, other, h))
]

get_name :
    (layout : RetainLayout) (name : List ℕ) {s : RetainSymbol}
    → get layout name ≡ some s
    → s.name ≡ name
unfolding get
get_name layout name h = find_name layout.symbols name h

-- A symbol that has the name of a record is the one that the record finds.
get-record :
    (layout : RetainLayout) (rec : RetainRecord) (name : List ℕ) {s : RetainSymbol}
    → get layout name ≡ some s
    → bytes_eq s.name rec.name ≡ true
    → get layout rec.name ≡ some s
get-record layout rec name {s = s} found same =
    subst (λ n. get layout n ≡ some s)
      (sym (get_name layout name found) ∙ eq-of-bytes_eq s.name rec.name same) found

byte_width-type_eq : (a b : IrType) → type_eq a b ≡ true → byte_width a ≡ byte_width b
byte_width-type_eq a b h = ground arith

carried_other :
    (rec : RetainRecord) (s : RetainSymbol) (v : List ℕ)
    → bytes_eq s.name rec.name ≡ false
    → carried rec s v ≡ v
unfolding carried
carried_other rec s v other = rw other refl

-- What one record does.
pub record Does (layout : RetainLayout) (rec : RetainRecord) (m next : Remap) : Type 0 where
  pub size : length next.image ≡ length m.image
  pub names : next.incompat ≡ m.incompat ++ conflict_with (get layout rec.name) rec
  pub values :
      (name : List ℕ) (s : RetainSymbol)
      → get layout name ≡ some s
      → value_of next.image s ≡ carried rec s (value_of m.image s)

dropped_lem :
    (layout : RetainLayout) (rec : RetainRecord) (m : Remap) (n : ℕ)
    → get layout rec.name ≡ none
    → Does layout rec m (record m { dropped = n })
dropped_lem layout rec m n nobody = record {
  size = refl;
  names = rw nobody (sym (append-nil m.incompat));
  values = λ name s found. elim (Bool-cases (bytes_eq s.name rec.name)) [
    | inl same ↦ absurd (ground (arith, get-record layout rec name {s = s} found same, nobody))
    | inr other ↦ sym (carried_other rec s (value_of m.image s) other)
  ];
}

refused_lem :
    (layout : RetainLayout) (rec : RetainRecord) (t : RetainSymbol) (m : Remap)
    → get layout rec.name ≡ some t
    → type_eq t.ty rec.ty ≡ false
    → Does layout rec m (record m { incompat = m.incompat ++ rec.name ∷ [] })
unfolding carried
refused_lem layout rec t m at differs = record {
  size = refl;
  names = rw (at, differs) refl;
  values = λ name s found. elim (Bool-cases (bytes_eq s.name rec.name)) [
    | inl same ↦
        let it : s ≡ t = ground (arith, get-record layout rec name {s = s} found same, at) in
        let apart : type_eq s.ty rec.ty ≡ false =
          ap (λ (x : RetainSymbol). type_eq x.ty rec.ty) it ∙ differs in
        rw (same, apart) refl
    | inr other ↦ sym (carried_other rec s (value_of m.image s) other)
  ];
}

-- A value that is written over the one of a symbol.
written_over :
    (layout : RetainLayout) (image : List ℕ) (rec : RetainRecord) (name : List ℕ)
    (s t : RetainSymbol)
    → IsPlaced layout
    → length image ≡ layout.retain_size
    → length rec.value ≡ byte_width rec.ty
    → get layout rec.name ≡ some t
    → type_eq t.ty rec.ty ≡ true
    → get layout name ≡ some s
    → value_of (write_at image t.offset rec.value) s ≡ carried rec s (value_of image s)
unfolding carried
written_over layout image rec name s t l sized width at agrees found =
    elim (Bool-cases (bytes_eq s.name rec.name)) [
      | inl same ↦
          let it : s ≡ t = ground (arith, get-record layout rec name {s = s} found same, at) in
          let agrees_s : type_eq s.ty rec.ty ≡ true =
            ap (λ (x : RetainSymbol). type_eq x.ty rec.ty) it ∙ agrees in
          let placed : value_of (write_at image s.offset rec.value) s ≡ rec.value =
            slice-write_at image rec.value s.offset (byte_width s.ty)
              (omega (arith, l.inside name s found, sized))
              (width ∙ sym (byte_width-type_eq s.ty rec.ty agrees_s)) in
          ap (λ (x : RetainSymbol). value_of (write_at image x.offset rec.value) s) (sym it)
          ∙ placed
          ∙ sym (rw (same, agrees_s) refl)
      | inr other ↦
          let wide : length rec.value ≡ byte_width t.ty =
            width ∙ sym (byte_width-type_eq t.ty rec.ty agrees) in
          let differ : name ≢ rec.name = λ e.
            let same : bytes_eq s.name rec.name ≡ true =
              subst (λ n. bytes_eq s.name n ≡ true) (get_name layout name found ∙ e)
                (bytes_eq_refl s.name) in
            absurd (ground (arith, same, other)) in
          let room : t.offset + byte_width t.ty ≤ length image =
            omega (arith, l.inside rec.name t at, sized) in
          elim (l.apart name rec.name s t found at differ) [
            | inl before ↦
                slice-write_at_before image rec.value t.offset s.offset (byte_width s.ty)
                  (omega arith) before
                ∙ sym (carried_other rec s (value_of image s) other)
            | inr after ↦
                slice-write_at_after image rec.value t.offset s.offset (byte_width s.ty)
                  (omega (arith, wide, room)) (omega (arith, wide, after))
                ∙ sym (carried_other rec s (value_of image s) other)
          ]
    ]

kept_lem :
    (layout : RetainLayout) (rec : RetainRecord) (t : RetainSymbol) (m : Remap)
    → IsPlaced layout
    → length m.image ≡ layout.retain_size
    → length rec.value ≡ byte_width rec.ty
    → get layout rec.name ≡ some t
    → type_eq t.ty rec.ty ≡ true
    → Does layout rec m (with_value layout rec t m)
unfolding with_value
kept_lem layout rec t m l sized width at agrees = record {
  size =
      length-write_at m.image rec.value t.offset (
        omega (arith, l.inside rec.name t at, sized, width, byte_width-type_eq t.ty rec.ty agrees));
  names = rw (at, agrees) (sym (append-nil m.incompat));
  values = λ name s found. written_over layout m.image rec name s t l sized width at agrees found;
}

pub apply_found_lem :
    (layout : RetainLayout) (rec : RetainRecord) (m : Remap) (o : Option RetainSymbol)
    → IsPlaced layout
    → length m.image ≡ layout.retain_size
    → length rec.value ≡ byte_width rec.ty
    → get layout rec.name ≡ o
    → (next : Remap) × (apply_found layout rec o m ≡ ok next) × Does layout rec m next
unfolding apply_found keep
apply_found_lem layout rec m none l sized width at = (_, refl, dropped_lem layout rec m _ at)
apply_found_lem layout rec m (some t) l sized width at = elim (Bool-cases (type_eq t.ty rec.ty)) [
  | inl agrees ↦
      let fits : (length rec.value == byte_width rec.ty) ≡ true = ground (arith, width) in
      (
        with_value layout rec t m,
        rw (agrees, fits) refl,
        kept_lem layout rec t m l sized width at agrees,
      )
  | inr differs ↦ (_, rw differs refl, refused_lem layout rec t m at differs)
]
