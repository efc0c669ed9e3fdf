-- ===== src/Retain/Remap.antt =====
-- The remap of retained values onto the layout of a new program (crates/plc-retain/src/map.rs, with
-- `RetainLayout::get` of crates/plc-ir/src/retain.rs). The binary search over symbols that are sorted
-- by distinct names finds the one of the name; a slice out of range, where the code panics, does not
-- come up with a layout that `RetainLayout::new` has accepted.
pub mod Values
pub mod Layout
pub mod Mapped
use my_soft_plc.Prelude.{
  ℕ, ◌+◌, ◌-◌, ◌%◌, ◌^◌, Bool, true, false, not, ◌&&◌, Option, none, some, List, [], ◌∷◌, ◌++◌,
  Result, ok, err, ◌>>=◌, ◌>>◌, reject_if, length, replicate, ◌==◌, if◌then◌else◌,
}
use my_soft_plc.Ir.IrType.{byte_width, type_eq}
use my_soft_plc.Ir.Table.{bytes_eq}
use my_soft_plc.Vm.Memory.{write_at}
use my_soft_plc.Retain.Codec.{
  RetainSymbol, RetainLayout, RetainRecord, RetainError, incompatible, value_width,
  records_from_image,
}

pub record MapReport : Type 0 where
  pub kept : ℕ  -- u32
  pub cold_defaults : ℕ  -- u32
  pub dropped : ℕ  -- u32
  pub zeroed_incompat : List (List ℕ)

pub record MappedRetain : Type 0 where
  pub image : List ℕ
  pub report : MapReport

abbrev pub find : List RetainSymbol → List ℕ → Option RetainSymbol
find [] name = none
find (s ∷ rest) name = let later = find rest name in if bytes_eq s.name name then some s else later

unfoldable pub get : RetainLayout → List ℕ → Option RetainSymbol
get layout name = find layout.symbols name

-- The flag of the symbol of the name is set.
abbrev pub mark : List RetainSymbol → List ℕ → List Bool → List Bool
mark (s ∷ rest) name (u ∷ used) =
    let later = mark rest name used in if bytes_eq s.name name then true ∷ used else u ∷ later
mark _ name used = used

-- The variables of the loop of `apply_records`.
pub record Remap : Type 0 where
  pub image : List ℕ
  pub kept : ℕ  -- u32
  pub dropped : ℕ  -- u32
  pub incompat : List (List ℕ)
  pub used : List Bool

abbrev pub count_up : ℕ → ℕ
count_up n = (n + 1) % 2 ^ 32

-- The value of the record is copied to the place of the symbol.
unfoldable pub with_value : RetainLayout → RetainRecord → RetainSymbol → Remap → Remap
unfolding write_at
with_value layout rec sym m = record m {
  image = write_at m.image sym.offset rec.value;
  kept = count_up m.kept;
  used = mark layout.symbols rec.name m.used;
}

unfoldable pub keep : RetainLayout → RetainRecord → RetainSymbol → Remap → Result Remap RetainError
unfolding with_value
keep layout rec sym m = do
  reject_if (not (length rec.value == byte_width rec.ty)) value_width
  ok (with_value layout rec sym m)

unfoldable pub apply_found :
    RetainLayout → RetainRecord → Option RetainSymbol → Remap → Result Remap RetainError
unfolding keep
apply_found layout rec none m = ok (record m { dropped = count_up m.dropped })
apply_found layout rec (some sym) m =
    if type_eq sym.ty rec.ty
    then keep layout rec sym m
    else ok (record m { incompat = m.incompat ++ rec.name ∷ [] })

unfoldable pub apply_loop : RetainLayout → List RetainRecord → Remap → Result Remap RetainError
unfolding get apply_found
apply_loop layout [] m = ok m
apply_loop layout (rec ∷ rest) m = do
  next ← apply_found layout rec (get layout rec.name) m
  apply_loop layout rest next

abbrev pub count_unused : List Bool → ℕ
count_unused [] = 0
count_unused (true ∷ used) = count_unused used
count_unused (false ∷ used) = count_up (count_unused used)

abbrev pub is_nil : List (List ℕ) → Bool
is_nil [] = true
is_nil _ = false

abbrev pub mapped_of : Remap → List (List ℕ) → MappedRetain
mapped_of m zeroed = record {
  image = m.image;
  report = record {
    kept = m.kept;
    cold_defaults = count_unused m.used - length zeroed % 2 ^ 32;
    dropped = m.dropped;
    zeroed_incompat = zeroed;
  };
}

-- What follows the loop.
unfoldable pub report_of : Bool → Remap → Result MappedRetain RetainError
report_of force_incompat m = do
  reject_if (not (is_nil m.incompat) && not force_incompat) (incompatible m.incompat)
  ok (mapped_of m (if force_incompat then m.incompat else []))

abbrev pub start : RetainLayout → Remap
start layout = record {
  image = replicate layout.retain_size 0;
  kept = 0;
  dropped = 0;
  incompat = [];
  used = replicate (length layout.symbols) false;
}

unfoldable pub apply_records :
    List RetainRecord → RetainLayout → Bool → Result MappedRetain RetainError
unfolding apply_loop report_of
apply_records records layout force_incompat = do
  m ← apply_loop layout records (start layout)
  report_of force_incompat m

unfoldable pub map_retain :
    RetainLayout → List ℕ → RetainLayout → Bool → Result MappedRetain RetainError
unfolding records_from_image apply_records
map_retain old old_image new force_incompat = do
  records ← records_from_image old old_image
  apply_records records new force_incompat
