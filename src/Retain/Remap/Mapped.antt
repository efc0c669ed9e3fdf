-- ===== src/Retain/Remap/Mapped.antt =====
-- The results of the remap of crates/plc-retain/src/map.rs.
use my_soft_plc.Prelude.{
  subst, ℕ, zero, suc, ◌+◌, ◌≤◌, ◌≡◌, ◌≢◌, ◌⊎◌, inl, inr, refl, sym, ap, ◌∙◌, arith, Bool, true,
  false, some, List, [], ◌∷◌, ◌++◌, Result, ok, err, length, replicate, length-replicate, map, All,
  ◌==◌, take,
}
use mathlib.Core.List.{append-nil, append_assoc}
use my_soft_plc.Ir.IrType.{byte_width}
use my_soft_plc.Ir.Bytes.{slice}
use my_soft_plc.Retain.Codec.{
  RetainSymbol, RetainLayout, RetainRecord, RetainError, incompatible, value_of, record_of,
  records_from_image,
}
use my_soft_plc.Retain.Codec.RoundTrip.{length-value_of}
use my_soft_plc.Retain.Remap.Layout.{Inside, IsLayout-IsPlaced}
use my_soft_plc.Retain.Symbols.Accepted.{IsAccepted, IsAccepted-IsLayout}
use my_soft_plc.Retain.Remap.Values.{
  IsPlaced, carried_all, conflict_with, conflicts, apply_found_lem,
}
use my_soft_plc.Retain.Remap.{
  is_nil, MappedRetain, Remap, get, apply_loop, report_of, mapped_of, start, apply_records,
  map_retain,
}

-- The values of the records have the widths of their types.
abbrev HasWidth : RetainRecord → Type 0
HasWidth rec = length rec.value ≡ byte_width rec.ty

-- What the records have done.
record DoesAll (layout : RetainLayout) (recs : List RetainRecord) (m next : Remap) : Type 0 where
  pub size : length next.image ≡ length m.image
  pub names : next.incompat ≡ m.incompat ++ conflicts layout recs
  pub values :
      (name : List ℕ) (s : RetainSymbol)
      → get layout name ≡ some s
      → value_of next.image s ≡ carried_all recs s (value_of m.image s)

apply_loop_lem :
    (layout : RetainLayout) (recs : List RetainRecord) (m : Remap)
    → IsPlaced layout
    → length m.image ≡ layout.retain_size
    → All HasWidth recs
    → (next : Remap) × (apply_loop layout recs m ≡ ok next) × DoesAll layout recs m next
unfolding apply_loop carried_all conflicts
apply_loop_lem layout [] m l sized widths = (
  m,
  refl,
  record { size = refl; names = sym (append-nil m.incompat); values = λ name s found. refl },
)
apply_loop_lem layout (rec ∷ rest) m l sized (width, widths) =
    let (mid, ran, first) = apply_found_lem layout rec m (get layout rec.name) l sized width refl in
    let (next, ran_rest, others) = apply_loop_lem layout rest mid l (first.size ∙ sized) widths in
    (
      next,
      rw ran ran_rest,
      record {
        size = others.size ∙ first.size;
        names =
            others.names
            ∙ ap (λ ns. ns ++ conflicts layout rest) first.names
            ∙ append_assoc m.incompat (conflict_with (get layout rec.name) rec)
                (conflicts layout rest);
        values = λ name s found.
            others.values name s found ∙ ap (carried_all rest s) (first.values name s found);
      },
    )

take-replicate : (n w : ℕ) → w ≤ n → take {A = ℕ} w (replicate n 0) ≡ replicate w 0
take-replicate n zero h = refl
take-replicate zero (suc w) h = absurd (omega arith)
take-replicate (suc n) (suc w) h = ap (λ xs. 0 ∷ xs) (take-replicate n w (omega arith))

-- The values of the empty image are zeros.
slice-replicate : (n off w : ℕ) → off + w ≤ n → slice (replicate n 0) off w ≡ replicate w 0
unfolding slice
slice-replicate n zero w h = take-replicate n w (omega arith)
slice-replicate zero (suc off) w h = absurd (omega arith)
slice-replicate (suc n) (suc off) w h = slice-replicate n off w (omega arith)

records-HasWidth :
    (image : List ℕ) (symbols : List RetainSymbol)
    → All (λ (s : RetainSymbol). s.offset + byte_width s.ty ≤ length image) symbols
    → All HasWidth (map (record_of image) symbols)
records-HasWidth image [] h = tt
records-HasWidth image (s ∷ rest) (inside, others) =
    (length-value_of image s inside, records-HasWidth image rest others)

-- What a remap that succeeds has made: an image of the new size, in which each symbol holds the value
-- that the records give it, and zeros where they give none.
pub record IsMapped (new : RetainLayout) (recs : List RetainRecord) (force : Bool)
    (mapped : MappedRetain) : Type 0 where
  pub size : length mapped.image ≡ new.retain_size
  pub values :
      (name : List ℕ) (s : RetainSymbol)
      → get new name ≡ some s
      → value_of mapped.image s ≡ carried_all recs s (replicate (byte_width s.ty) 0)
  pub zeroed : mapped.report.zeroed_incompat ≡ conflicts new recs
  pub allowed : (conflicts new recs ≡ []) ⊎ (force ≡ true)

abbrev pub IsRefused :
    RetainLayout → List RetainRecord → Bool → Result MappedRetain RetainError → Type 0
IsRefused new recs force r =
    (conflicts new recs ≢ []) × (force ≡ false) × (r ≡ err (incompatible (conflicts new recs)))

is_nil-cases :
    (xs : List (List ℕ)) → ((is_nil xs ≡ true) × (xs ≡ [])) ⊎ ((is_nil xs ≡ false) × (xs ≢ []))
is_nil-cases [] = inl (refl, refl)
is_nil-cases (x ∷ xs) = inr (refl, λ h. cc)

mapped_lem :
    (new : RetainLayout) (recs : List RetainRecord) (force : Bool) (m : Remap)
    (zeroed : List (List ℕ))
    → IsPlaced new
    → DoesAll new recs (start new) m
    → zeroed ≡ conflicts new recs
    → (conflicts new recs ≡ []) ⊎ (force ≡ true)
    → IsMapped new recs force (mapped_of m zeroed)
mapped_lem new recs force m zeroed l d named allowed = record {
  size = d.size ∙ length-replicate new.retain_size 0;
  values = λ name s found.
      d.values name s found
      ∙ ap (carried_all recs s)
          (slice-replicate new.retain_size s.offset (byte_width s.ty) (l.inside name s found));
  zeroed = named;
  allowed = allowed;
}

report_of_lem :
    (new : RetainLayout) (recs : List RetainRecord) (force : Bool) (m : Remap)
    → IsPlaced new
    → DoesAll new recs (start new) m
    → ((mapped : MappedRetain) × (report_of force m ≡ ok mapped) × IsMapped new recs force mapped)
      ⊎ IsRefused new recs force (report_of force m)
unfolding report_of
report_of_lem new recs true m l d = elim (is_nil-cases m.incompat) [
  | inl (empty, e) ↦ inl (
    mapped_of m m.incompat,
    rw empty refl,
    mapped_lem new recs true m m.incompat l d d.names (inr refl),
  )
  | inr (full, e) ↦ inl (
    mapped_of m m.incompat,
    rw full refl,
    mapped_lem new recs true m m.incompat l d d.names (inr refl),
  )
]
report_of_lem new recs false m l d = elim (is_nil-cases m.incompat) [
  | inl (empty, e) ↦
      let none_named : [] ≡ conflicts new recs = sym e ∙ d.names in
      inl (
        mapped_of m [],
        rw empty refl,
        mapped_lem new recs false m [] l d none_named (inl (sym none_named)),
      )
  | inr (full, e) ↦
      inr (λ h. e (d.names ∙ h), refl, rw full (ap (λ ns. err (incompatible ns)) d.names))
]

-- When the old and the new layout are ones that `RetainLayout::new` gives for some symbols, and the
-- old image has the size of the old layout, the remap has one of two results. It makes an image of
-- the new size, in which each symbol that is found by a name holds the old value of the last old
-- symbol of its name and type, or zeros if there is none; the old names that are found with another
-- type are reported as zeroed, and there are none of them unless `force_incompat` is set. Or it is
-- refused with these names, which are some, and `force_incompat` is not set.
pub map_retain_lem :
    (old : RetainLayout) (old_image : List ℕ) (new : RetainLayout) (force : Bool)
    → IsAccepted old
    → IsAccepted new
    → length old_image ≡ old.retain_size
    → let recs = map (record_of old_image) old.symbols in
      ((mapped : MappedRetain) × (map_retain old old_image new force ≡ ok mapped)
        × IsMapped new recs force mapped)
      ⊎ IsRefused new recs force (map_retain old old_image new force)
unfolding map_retain records_from_image apply_records
map_retain_lem old old_image new force from to sized =
    let recs = map (record_of old_image) old.symbols in
    let placed = IsLayout-IsPlaced new (IsAccepted-IsLayout new to) in
    let inside : All (Inside (length old_image)) old.symbols =
      subst (λ n. All (Inside n) old.symbols) (sym sized) (IsAccepted-IsLayout old from).inside in
    let fits : (length old_image == old.retain_size) ≡ true = ground (arith, sized) in
    let (m, ran, d) =
      apply_loop_lem new recs (start new) placed (length-replicate new.retain_size 0)
        (records-HasWidth old_image old.symbols inside) in
    rw (fits, ran) (report_of_lem new recs force m placed d)
