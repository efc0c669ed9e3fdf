-- ===== src/Retain/Symbols.antt =====
-- The layout of a retain segment that is accepted (`RetainLayout::new` and `end_offset` of
-- crates/plc-ir/src/retain.rs). A text is its bytes, which `cmp` compares in order; the sorts are
-- stable.
pub mod Accepted
use my_soft_plc.Prelude.{
  ℕ, ◌+◌, ◌-◌, ◌^◌, Bool, true, false, List, [], ◌∷◌, Result, ok, err, ◌>>=◌, ◌>>◌, reject_if, min,
  leb, ltb, ◌==◌, if◌then◌else◌,
}
use my_soft_plc.Ir.IrType.{byte_width}
use my_soft_plc.Ir.Table.{bytes_eq}
use my_soft_plc.Retain.Codec.{RetainSymbol, RetainLayout}

pub data LayoutError : Type 0 where
  duplicate empty_name exceeds overlap : LayoutError

unfoldable pub end_offset : RetainSymbol → ℕ
end_offset s = min (s.offset + byte_width s.ty) (2 ^ 32 - 1)

abbrev pub text_leb : List ℕ → List ℕ → Bool
text_leb [] ys = true
text_leb (x ∷ xs) [] = false
text_leb (x ∷ xs) (y ∷ ys) = let later = text_leb xs ys in if x == y then later else ltb x y

module _ {ℓ} {A : Type ℓ} where
  abbrev pub insert : (A → A → Bool) → A → List A → List A
  insert before x [] = x ∷ []
  insert before x (y ∷ ys) =
      let later = insert before x ys in if before x y then x ∷ y ∷ ys else y ∷ later

  abbrev pub sort : (A → A → Bool) → List A → List A
  sort before [] = []
  sort before (x ∷ xs) = insert before x (sort before xs)

abbrev pub name_before : RetainSymbol → RetainSymbol → Bool
name_before s t = text_leb s.name t.name

abbrev pub offset_before : RetainSymbol → RetainSymbol → Bool
offset_before s t = leb s.offset t.offset

-- The windows of two symbols.
unfoldable pub check_names : List RetainSymbol → Result (Unit {0}) LayoutError
check_names (s ∷ t ∷ rest) = do reject_if (bytes_eq s.name t.name) duplicate; check_names (t ∷ rest)
check_names _ = ok tt

unfoldable pub check_symbols : ℕ → List RetainSymbol → Result (Unit {0}) LayoutError
check_symbols size [] = ok tt
check_symbols size (s ∷ rest) = do
  reject_if (bytes_eq s.name []) empty_name
  reject_if (ltb size (s.offset + byte_width s.ty)) exceeds
  check_symbols size rest

unfoldable pub check_overlaps : List RetainSymbol → Result (Unit {0}) LayoutError
unfolding end_offset
check_overlaps (s ∷ t ∷ rest) = do
  reject_if (ltb t.offset (end_offset s)) overlap
  check_overlaps (t ∷ rest)
check_overlaps _ = ok tt

unfoldable pub new : ℕ → List RetainSymbol → Result RetainLayout LayoutError
unfolding check_names check_symbols check_overlaps
new retain_size symbols = do
  let sorted = sort name_before symbols
  check_names sorted
  check_symbols retain_size sorted
  check_overlaps (sort offset_before sorted)
  ok (record { retain_size = retain_size; symbols = sorted })
