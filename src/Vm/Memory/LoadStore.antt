-- ===== src/Vm/Memory/LoadStore.antt =====
-- A load after a store (crates/plc-vm/src/memory.rs).
use my_soft_plc.Prelude.{
  ℕ, ◌+◌, ◌-◌, ◌^◌, ◌≤◌, ◌<◌, ◌≡◌, ◌⊎◌, inl, inr, refl, ap, ◌∙◌, arith, true, false, List, [], ◌∷◌,
  take, length, ok, bit, get_or, set, replicate, length-set, length-replicate, ltb, leb,
}
use my_soft_plc.Prelude.Word.{
  half16, half32, half64, unsigned, signed, IsWord, signed-unsigned16, signed-unsigned32,
  signed-unsigned64, unsigned_bound16, unsigned_bound32, unsigned_bound64,
}
use my_soft_plc.Ir.Bytes.{
  to_le_bytes, from_le_bytes, slice, length-to_le_bytes, from-to_u16, from-to_u32,
}
use my_soft_plc.Ir.IrType
use my_soft_plc.Ir.IrType.{IrType}
use my_soft_plc.Vm.Value
use my_soft_plc.Vm.Value.{FloatOps, VmValue, bool, int, dint, real, time, lint}
use my_soft_plc.Vm.Memory.{
  ByteSegment, tag_unset, write_at, tag_type, value_bytes, store, load, load_as,
}
use my_soft_plc.Vm.Memory.Patch.{
  length-write_at, slice-write_at, slice-write_at_after, slice-write_at_before,
  get_or-write_at_after, get_or-write_at_before, get_or-set_self, get_or-set_before,
  get_or-set_after,
}

-- A tag for every byte.
pub record IsSegment (seg : ByteSegment) : Type 0 where
  pub tagged : length seg.tags ≡ length seg.bytes

module _ {ℓ} {F : Type ℓ} (fl : FloatOps F) where
  -- The bits of the value fit the width of its type.
  unfoldable pub Fits : VmValue F → Type 0
  Fits (bool b) = Unit {0}
  Fits (int v) = IsWord half16 v
  Fits (dint v) = IsWord half32 v
  Fits (time v) = IsWord half32 v
  Fits (lint v) = IsWord half64 v
  Fits (real v) = fl.to_bits v < 2 ^ 32

  -- The bits of a float give the float back.
  unfoldable pub HasBits : VmValue F → Type ℓ
  HasBits (real v) = fl.from_bits (fl.to_bits v) ≡ v
  HasBits _ = Unit {ℓ}

  length-value_bytes : (v : VmValue F) → length (value_bytes fl v) ≡ Value.byte_width v
  unfolding value_bytes Value.byte_width
  length-value_bytes (bool b) = length-to_le_bytes 1 (bit b)
  length-value_bytes (int v) = length-to_le_bytes 2 (unsigned half16 v)
  length-value_bytes (dint v) = length-to_le_bytes 4 (unsigned half32 v)
  length-value_bytes (real v) = length-to_le_bytes 4 (fl.to_bits v)
  length-value_bytes (time v) = length-to_le_bytes 4 (unsigned half32 v)
  length-value_bytes (lint v) = length-to_le_bytes 8 (unsigned half64 v)

  byte_width-zero :
      (v : VmValue F) → Value.byte_width (Value.zero fl (Value.ir_type v)) ≡ Value.byte_width v
  unfolding Value.byte_width Value.zero Value.ir_type
  byte_width-zero (bool b) = refl
  byte_width-zero (int v) = refl
  byte_width-zero (dint v) = refl
  byte_width-zero (real v) = refl
  byte_width-zero (time v) = refl
  byte_width-zero (lint v) = refl

  tag_type-to_u8 : (ty : IrType) → tag_type (IrType.to_u8 ty) ≡ ty
  unfolding tag_type IrType.to_u8 IrType.from_u8
  tag_type-to_u8 IrType.bool = refl
  tag_type-to_u8 IrType.int = refl
  tag_type-to_u8 IrType.dint = refl
  tag_type-to_u8 IrType.real = refl
  tag_type-to_u8 IrType.time = refl
  tag_type-to_u8 IrType.lint = refl

  from-to_u64 : (v : ℕ) → v < 2 ^ 64 → from_le_bytes (to_le_bytes 8 v) ≡ v
  unfolding to_le_bytes from_le_bytes
  from-to_u64 v h = omega arith

  take-all : (xs : List ℕ) → take (length xs) xs ≡ xs
  take-all [] = refl
  take-all (x ∷ xs) = ap (λ ys. x ∷ ys) (take-all xs)

  slice-all : (bytes : List ℕ) (n : ℕ) → length bytes ≡ n → slice bytes 0 n ≡ bytes
  unfolding slice
  slice-all bytes n e = rw (← e) (take-all bytes)

  word_of_bytes :
      (n v : ℕ)
      → from_le_bytes (to_le_bytes n v) ≡ v
      → from_le_bytes (slice (to_le_bytes n v) 0 n) ≡ v
  word_of_bytes n v h =
      ap from_le_bytes (slice-all (to_le_bytes n v) n (length-to_le_bytes n v)) ∙ h

  value_of-value_bytes :
      (v : VmValue F)
      → Fits v
      → HasBits v
      → Value.value_of_bytes fl (Value.ir_type v) (value_bytes fl v) ≡ v
  unfolding value_bytes Value.value_of_bytes Value.ir_type Fits HasBits
  value_of-value_bytes (bool true) f b = unfold from_le_bytes slice to_le_bytes in refl
  value_of-value_bytes (bool false) f b = unfold from_le_bytes slice to_le_bytes in refl
  value_of-value_bytes (int v) f b =
      let n = unsigned half16 v in
      ap (λ k. int (signed half16 k)) (word_of_bytes 2 n (from-to_u16 n (unsigned_bound16 v)))
      ∙ ap int (signed-unsigned16 v f)
  value_of-value_bytes (dint v) f b =
      let n = unsigned half32 v in
      ap (λ k. dint (signed half32 k)) (word_of_bytes 4 n (from-to_u32 n (unsigned_bound32 v)))
      ∙ ap dint (signed-unsigned32 v f)
  value_of-value_bytes (time v) f b =
      let n = unsigned half32 v in
      ap (λ k. time (signed half32 k)) (word_of_bytes 4 n (from-to_u32 n (unsigned_bound32 v)))
      ∙ ap time (signed-unsigned32 v f)
  value_of-value_bytes (real v) f b =
      ap (λ k. real (fl.from_bits k))
        (word_of_bytes 4 (fl.to_bits v) (from-to_u32 (fl.to_bits v) f))
      ∙ ap real b
  value_of-value_bytes (lint v) f b =
      let n = unsigned half64 v in
      ap (λ k. lint (signed half64 k)) (word_of_bytes 8 n (from-to_u64 n (unsigned_bound64 v)))
      ∙ ap lint (signed-unsigned64 v f)

  -- What a store that succeeds leaves.
  stored : ByteSegment → ℕ → VmValue F → ByteSegment
  stored seg offset v = record {
    bytes = write_at seg.bytes offset (value_bytes fl v);
    tags =
        write_at (set seg.tags offset (IrType.to_u8 (Value.ir_type v))) (offset + 1)
          (replicate (Value.byte_width v - 1) tag_unset);
  }

  store-ok :
      (seg seg' : ByteSegment) (offset : ℕ) (v : VmValue F) (pc : ℕ)
      → store fl seg offset v pc ≡ ok seg'
      → (offset + Value.byte_width v ≤ length seg.bytes) × (seg' ≡ stored seg offset v)
  unfolding store stored
  store-ok seg seg' offset v pc h = ground arith

  width_pos : (v : VmValue F) → 0 < Value.byte_width v
  unfolding Value.byte_width
  width_pos v = ground arith

  patch_fits :
      (seg : ByteSegment) (offset : ℕ) (v : VmValue F)
      → IsSegment seg
      → offset + Value.byte_width v ≤ length seg.bytes
      → offset + 1 + length (replicate (Value.byte_width v - 1) tag_unset)
        ≤ length (set seg.tags offset (IrType.to_u8 (Value.ir_type v)))
  patch_fits seg offset v s h = omega (
    arith,
    s.tagged,
    width_pos v,
    length-set seg.tags offset (IrType.to_u8 (Value.ir_type v)),
    length-replicate (Value.byte_width v - 1) tag_unset,
  )

  module _ (seg seg' : ByteSegment) (offset : ℕ) (v : VmValue F) (pc : ℕ)
      (run : store fl seg offset v pc ≡ ok seg') (tagged : IsSegment seg) where
    fits_segment : offset + Value.byte_width v ≤ length seg.bytes
    fits_segment = (store-ok seg seg' offset v pc run).0

    tags_after :
        seg'.tags
        ≡ write_at
            (set seg.tags offset (IrType.to_u8 (Value.ir_type v)))
            (offset + 1)
            (replicate (Value.byte_width v - 1) tag_unset)
    tags_after =
        ap (λ (s : ByteSegment). s.tags) (store-ok seg seg' offset v pc run).1
        ∙ (unfold stored in refl)

    bytes_after : seg'.bytes ≡ write_at seg.bytes offset (value_bytes fl v)
    bytes_after =
        ap (λ (s : ByteSegment). s.bytes) (store-ok seg seg' offset v pc run).1
        ∙ (unfold stored in refl)

    length_after : length seg'.bytes ≡ length seg.bytes
    length_after =
        ap length bytes_after
        ∙ length-write_at seg.bytes (value_bytes fl v) offset
            (rw (length-value_bytes v) fits_segment)

    tag_stored : get_or seg'.tags offset tag_unset ≡ IrType.to_u8 (Value.ir_type v)
    tag_stored =
        let tag = IrType.to_u8 (Value.ir_type v) in
        let tags = set seg.tags offset tag in
        let wide = patch_fits seg offset v tagged fits_segment in
        ap (λ ts. get_or ts offset tag_unset) tags_after
        ∙ get_or-write_at_before tags (replicate (Value.byte_width v - 1) tag_unset) (offset + 1)
            offset tag_unset (omega arith) (omega arith)
        ∙ get_or-set_self seg.tags offset tag tag_unset
            (omega (arith, length-set seg.tags offset tag))

    slice_stored : slice seg'.bytes offset (Value.byte_width v) ≡ value_bytes fl v
    slice_stored =
        ap (λ bs. slice bs offset (Value.byte_width v)) bytes_after
        ∙ slice-write_at seg.bytes (value_bytes fl v) offset (Value.byte_width v)
            (omega (arith, fits_segment)) (length-value_bytes v)

    load_typed :
        (ty : IrType) (pc' : ℕ)
        → Value.byte_width (Value.zero fl ty) ≡ Value.byte_width v
        → load_as fl seg' offset ty pc' ≡ ok (Value.value_of_bytes fl ty (value_bytes fl v))
    load_typed ty pc' w =
        unfold load_as in
        let k = fits_segment in
        let l = length_after in
        let e : ltb (length seg'.bytes) (offset + Value.byte_width (Value.zero fl ty)) ≡ false =
          ground arith in
        rw (e, w, slice_stored) refl

    load_stored :
        (pc' : ℕ)
        → load fl seg' offset pc'
          ≡ ok (Value.value_of_bytes fl (Value.ir_type v) (value_bytes fl v))
    load_stored pc' =
        unfold load in
        let k = fits_segment in
        let l = length_after in
        let w = width_pos v in
        let e : leb (length seg'.bytes) offset ≡ false = ground arith in
        rw (e, tag_stored, tag_type-to_u8 (Value.ir_type v))
          (load_typed (Value.ir_type v) pc' (byte_width-zero v))

  -- A load at the offset of a store that succeeds gives the value that was stored, with its type,
  -- if the segment has a tag for every byte, the value fits its width, and the bits of a float
  -- give the float back.
  pub load-store :
      (seg seg' : ByteSegment) (offset : ℕ) (v : VmValue F) (pc pc' : ℕ)
      → store fl seg offset v pc ≡ ok seg'
      → IsSegment seg
      → Fits v
      → HasBits v
      → load fl seg' offset pc' ≡ ok v
  load-store seg seg' offset v pc pc' run tagged f b =
      load_stored seg seg' offset v pc run tagged pc' ∙ ap ok (value_of-value_bytes v f b)

  -- The width of the value that a load at the offset reads.
  unfoldable pub width_at : ByteSegment → ℕ → ℕ
  unfolding Value.byte_width Value.zero tag_type
  width_at seg offset =
      Value.byte_width (Value.zero fl (tag_type (get_or seg.tags offset tag_unset)))

  width_at_pos : (seg : ByteSegment) (j : ℕ) → 0 < width_at seg j
  unfolding width_at
  width_at_pos seg j = width_pos (Value.zero fl (tag_type (get_or seg.tags j tag_unset)))

  module _ (seg seg' : ByteSegment) (offset j : ℕ) (v : VmValue F) (pc : ℕ)
      (run : store fl seg offset v pc ≡ ok seg') (tagged : IsSegment seg) where
    IsApart : Type 0
    IsApart = (j + width_at seg j ≤ offset) ⊎ (offset + Value.byte_width v ≤ j)

    abbrev start_tags : List ℕ
    start_tags = set seg.tags offset (IrType.to_u8 (Value.ir_type v))

    abbrev rest_tags : List ℕ
    rest_tags = replicate (Value.byte_width v - 1) tag_unset

    wide : offset + 1 + length rest_tags ≤ length start_tags
    wide = patch_fits seg offset v tagged (fits_segment seg seg' offset v pc run tagged)

    wide_bytes : offset + length (value_bytes fl v) ≤ length seg.bytes
    wide_bytes = rw (length-value_bytes v) (fits_segment seg seg' offset v pc run tagged)

    tag_kept : IsApart → get_or seg'.tags j tag_unset ≡ get_or seg.tags j tag_unset
    unfolding IsApart
    tag_kept (inl before) =
        let w = width_at_pos seg j in
        ap (λ ts. get_or ts j tag_unset) (tags_after seg seg' offset v pc run tagged)
        ∙ get_or-write_at_before start_tags rest_tags (offset + 1) j tag_unset (omega (arith, wide))
            (omega arith)
        ∙ get_or-set_after seg.tags offset j (IrType.to_u8 (Value.ir_type v)) tag_unset
            (omega arith)
    tag_kept (inr after) =
        let w = width_pos v in
        let l = length-replicate (Value.byte_width v - 1) tag_unset in
        ap (λ ts. get_or ts j tag_unset) (tags_after seg seg' offset v pc run tagged)
        ∙ get_or-write_at_after start_tags rest_tags (offset + 1) j tag_unset wide (omega arith)
        ∙ get_or-set_before seg.tags offset j (IrType.to_u8 (Value.ir_type v)) tag_unset
            (omega arith)

    slice_kept : IsApart → slice seg'.bytes j (width_at seg j) ≡ slice seg.bytes j (width_at seg j)
    unfolding IsApart
    slice_kept (inl before) =
        ap (λ bs. slice bs j (width_at seg j)) (bytes_after seg seg' offset v pc run tagged)
        ∙ slice-write_at_before seg.bytes (value_bytes fl v) offset j (width_at seg j)
            (omega (arith, wide_bytes)) before
    slice_kept (inr after) =
        ap (λ bs. slice bs j (width_at seg j)) (bytes_after seg seg' offset v pc run tagged)
        ∙ slice-write_at_after seg.bytes (value_bytes fl v) offset j (width_at seg j) wide_bytes
            (rw (length-value_bytes v) after)

  -- A store that succeeds does not change what is loaded at another offset, value or error, if the
  -- bytes that the load reads lie before or after the bytes that are written, and the segment has a
  -- tag for every byte.
  pub load-store_apart :
      (seg seg' : ByteSegment) (offset j : ℕ) (v : VmValue F) (pc pc' : ℕ)
      → store fl seg offset v pc ≡ ok seg'
      → IsSegment seg
      → (j + width_at seg j ≤ offset) ⊎ (offset + Value.byte_width v ≤ j)
      → load fl seg' j pc' ≡ load fl seg j pc'
  load-store_apart seg seg' offset j v pc pc' run tagged apart =
      let t = tag_kept seg seg' offset j v pc run tagged (unfold IsApart in apart) in
      let s = slice_kept seg seg' offset j v pc run tagged (unfold IsApart in apart) in
      let l = length_after seg seg' offset v pc run tagged in
      unfold load load_as in (unfold width_at in rw (t, l, s) refl)
