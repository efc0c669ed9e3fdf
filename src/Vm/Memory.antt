-- ===== src/Vm/Memory.antt =====
-- The byte segments and the slots of the process image (crates/plc-vm/src/memory.rs). A function
-- that changes a segment or an image returns it; after an error it is as it was.
pub mod Patch
pub mod LoadStore
use my_soft_plc.Prelude.{
  ℕ, ◌+◌, ◌-◌, ◌^◌, Bool, true, false, not, ◌||◌, Option, none, some, List, ◌++◌, ◌∷◌, Result, ok,
  err, ok_or, ◌>>=◌, ltb, leb, length, bit, get_elem?, get_or, set, take, drop, replicate, ◌==◌,
  if◌then◌else◌,
}
use my_soft_plc.Prelude.Word.{half16, half32, half64, unsigned}
use my_soft_plc.Ir.Bytes.{to_le_bytes, slice}
use my_soft_plc.Ir.IrType
use my_soft_plc.Ir.IrType.{IrType}
use my_soft_plc.Vm.Value
use my_soft_plc.Vm.Value.{FloatOps, VmValue, VmError, bounds}

abbrev pub tag_unset : ℕ
tag_unset = 0xFF

pub record ByteSegment : Type 0 where
  pub bytes : List ℕ
  pub tags : List ℕ

unfoldable pub zeros : ℕ → ByteSegment
zeros size = record { bytes = replicate size 0; tags = replicate size tag_unset }

-- `list[offset..offset + patch.len()].copy_from_slice(patch)`, where the caller has checked the
-- length.
unfoldable pub write_at : List ℕ → ℕ → List ℕ → List ℕ
write_at list offset patch = take offset list ++ (patch ++ drop (offset + length patch) list)

-- The tag that a load uses: BOOL where none is set.
unfoldable pub tag_type : ℕ → IrType
tag_type t =
    if t == tag_unset
    then IrType.bool
    else elim (IrType.from_u8 t) [ none ↦ IrType.bool | some ty ↦ ty ]

unfoldable pub fill_zero : ByteSegment → ByteSegment
fill_zero seg = record {
  bytes = replicate (length seg.bytes) 0;
  tags = replicate (length seg.tags) tag_unset;
}

unfoldable pub load_bool_raw : ByteSegment → ℕ → Bool
load_bool_raw seg offset = not (get_or seg.bytes offset 0 == 0)

-- The segment that is written and the segment that is read.
unfoldable pub blit_from : ByteSegment → ℕ → ByteSegment → ℕ → ℕ → Result ByteSegment VmError
unfolding write_at slice
blit_from seg dst src src_off len =
    if ltb (length seg.bytes) (dst + len) || ltb (length src.bytes) (src_off + len)
    then err (bounds 0)
    else ok (record {
      bytes = write_at seg.bytes dst (slice src.bytes src_off len);
      tags = write_at seg.tags dst (slice src.tags src_off len);
    })

module _ {ℓ} {F : Type ℓ} (fl : FloatOps F) where
  unfoldable pub value_bytes : VmValue F → List ℕ
  unfolding to_le_bytes
  value_bytes (Value.bool b) = to_le_bytes 1 (bit b)
  value_bytes (Value.int v) = to_le_bytes 2 (unsigned half16 v)
  value_bytes (Value.dint v) = to_le_bytes 4 (unsigned half32 v)
  value_bytes (Value.time v) = to_le_bytes 4 (unsigned half32 v)
  value_bytes (Value.real v) = to_le_bytes 4 (fl.to_bits v)
  value_bytes (Value.lint v) = to_le_bytes 8 (unsigned half64 v)

  unfoldable pub store : ByteSegment → ℕ → VmValue F → ℕ → Result ByteSegment VmError
  unfolding Value.byte_width Value.ir_type IrType.to_u8 write_at value_bytes
  store seg offset value pc =
      let width = Value.byte_width value in
      if ltb (length seg.bytes) (offset + width)
      then err (bounds pc)
      else ok (record {
        bytes = write_at seg.bytes offset (value_bytes value);
        tags =
            write_at (set seg.tags offset (IrType.to_u8 (Value.ir_type value))) (offset + 1)
              (replicate (width - 1) tag_unset);
      })

  unfoldable pub load_as : ByteSegment → ℕ → IrType → ℕ → Result (VmValue F) VmError
  unfolding Value.byte_width Value.zero Value.value_of_bytes
  load_as seg offset ty pc =
      let width = Value.byte_width (Value.zero fl ty) in
      if ltb (length seg.bytes) (offset + width)
      then err (bounds pc)
      else ok (Value.value_of_bytes fl ty (slice seg.bytes offset width))

  unfoldable pub load : ByteSegment → ℕ → ℕ → Result (VmValue F) VmError
  unfolding tag_type load_as
  load seg offset pc =
      if leb (length seg.bytes) offset
      then err (bounds pc)
      else load_as seg offset (tag_type (get_or seg.tags offset tag_unset)) pc

module _ {ℓ} where
  pub record SlotImage (F : Type ℓ) : Type ℓ where
    pub values : List (VmValue F)
    pub quality_good : List Bool
    pub written : List Bool

module _ {ℓ} {F : Type ℓ} where
  unfoldable pub bools : ℕ → SlotImage F
  bools n = record {
    values = replicate n (Value.bool false);
    quality_good = replicate n true;
    written = replicate n false;
  }

  unfoldable pub get : SlotImage F → ℕ → ℕ → Result (VmValue F) VmError
  get image idx pc = ok_or (get_elem? image.values idx) (bounds pc)

  unfoldable pub set_slot : SlotImage F → ℕ → VmValue F → ℕ → Result (SlotImage F) VmError
  set_slot image idx value pc = do
    old ← ok_or (get_elem? image.values idx) (bounds pc)
    ok (record image { values = set image.values idx value; written = set image.written idx true })

  unfoldable pub is_written : SlotImage F → ℕ → Bool
  is_written image idx = get_or image.written idx false

  unfoldable pub clear_written : SlotImage F → SlotImage F
  clear_written image = record image { written = replicate (length image.written) false }

  unfoldable pub fill_bool_false : SlotImage F → SlotImage F
  fill_bool_false image = record {
    values = replicate (length image.values) (Value.bool false);
    quality_good = replicate (length image.quality_good) true;
    written = replicate (length image.written) false;
  }

  unfoldable pub get_quality_good : SlotImage F → ℕ → ℕ → Result Bool VmError
  get_quality_good image idx pc = ok_or (get_elem? image.quality_good idx) (bounds pc)

  unfoldable pub set_quality_good : SlotImage F → ℕ → Bool → ℕ → Result (SlotImage F) VmError
  set_quality_good image idx good pc = do
    old ← ok_or (get_elem? image.quality_good idx) (bounds pc)
    ok (record image { quality_good = set image.quality_good idx good })
