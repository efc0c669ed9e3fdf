-- ===== src/Retain/Codec/RoundTrip.antt =====
-- Records that are encoded are decoded (crates/plc-retain/src/codec.rs).
use my_soft_plc.Prelude.{
  ℕ, zero, suc, ◌+◌, ◌^◌, ◌<◌, ◌≤◌, ◌≡◌, refl, ap, subst, true, false, not, some, List, [], ◌∷◌,
  ◌++◌, arith, length, length-take, length-drop, ok, >>=-eq-ok, reject_if, leb, ltb, All, map, drop,
  ◌==◌,
}
use my_soft_plc.Ir.IrType
use my_soft_plc.Ir.IrType.{IrType, byte_width, bool, int, dint, real, time, lint}
use my_soft_plc.Ir.Bytes.{to_le_bytes, slice}
use my_soft_plc.Ir.Spbc.{is_utf8}
use my_soft_plc.Ir.Spbc.Offsets.{At, At-zero, At-skip, slice-At, u16-At, byte-At}
use my_soft_plc.Retain.Codec.{
  RetainSymbol, RetainLayout, long_name, image_size, value_of, encode_symbols, encode_records,
  decode_record, decode_loop, decode_records, record_of, records_from_image,
}

-- What `RetainLayout::new` checks of a symbol, and that its name is a text.
pub record IsSymbol (size : ℕ) (s : RetainSymbol) : Type 0 where
  pub inside : s.offset + byte_width s.ty ≤ size
  pub utf8 : is_utf8 s.name ≡ true

tag_read : (ty : IrType) → IrType.from_u8 (IrType.to_u8 ty) ≡ some ty
unfolding IrType.from_u8 IrType.to_u8
tag_read ty = ground arith

byte_width-pos : (ty : IrType) → 1 ≤ byte_width ty
unfolding byte_width
byte_width-pos ty = ground arith

pub length-value_of :
    (image : List ℕ) (s : RetainSymbol)
    → s.offset + byte_width s.ty ≤ length image
    → length (value_of image s) ≡ byte_width s.ty
unfolding slice
length-value_of image s h =
    omega (arith, length-take (byte_width s.ty) (drop s.offset image), length-drop s.offset image)

-- The bytes of one symbol, and what follows.
abbrev laid : List ℕ → RetainSymbol → List ℕ → List ℕ
laid image s rest =
    to_le_bytes 2 (length s.name)
    ++ (s.name ++ (IrType.to_u8 s.ty ∷ 0 ∷ (value_of image s ++ rest)))

record-At :
    (bs : List ℕ) (off : ℕ) (image : List ℕ) (s : RetainSymbol) (rest : List ℕ)
    → IsSymbol (length image) s
    → length s.name < 2 ^ 16
    → At bs off (laid image s rest)
    → let next = off + 2 + length s.name + 2 + byte_width s.ty in
      (decode_record bs off ≡ ok (record_of image s, next)) × At bs next rest
unfolding decode_record
record-At bs off image s rest h short at =
    let width = length-value_of image s h.inside in
    let tail = IrType.to_u8 s.ty ∷ 0 ∷ (value_of image s ++ rest) in
    let (len, at2) = u16-At bs off (length s.name) (s.name ++ tail) at short in
    let named = slice-At bs (off + 2) (length s.name) s.name tail at2 refl in
    let at3 = At-skip bs (off + 2) (length s.name) s.name tail at2 refl in
    let (tag, at4) =
      byte-At bs (off + 2 + length s.name) (IrType.to_u8 s.ty) (0 ∷ (value_of image s ++ rest))
        at3 in
    let (pad, _) = byte-At bs (off + 2 + length s.name + 1) 0 (value_of image s ++ rest) at4 in
    let at5 =
      At-skip bs (off + 2 + length s.name) 2 (IrType.to_u8 s.ty ∷ 0 ∷ []) (value_of image s ++ rest)
        at3 refl in
    let value =
      slice-At bs (off + 2 + length s.name + 2) (byte_width s.ty) (value_of image s) rest at5
        width in
    let at6 =
      At-skip bs (off + 2 + length s.name + 2) (byte_width s.ty) (value_of image s) rest at5
        width in
    let room1 : ltb (length bs) (off + 2) ≡ false = ground (arith, at2.total) in
    let room2 : ltb (length bs) (off + 2 + length s.name + 2) ≡ false = ground (arith, at5.total) in
    let room3 : ltb (length bs) (off + 2 + length s.name + 2 + byte_width s.ty) ≡ false =
      ground (arith, at6.total) in
    (rw (room1, len, room2, named, h.utf8, pad, tag, tag_read s.ty, room3, value) refl, at6)

symbols-At :
    (fuel : ℕ) (bs : List ℕ) (off : ℕ) (image : List ℕ) (symbols : List RetainSymbol)
    (part : List ℕ)
    → All (IsSymbol (length image)) symbols
    → encode_symbols image symbols ≡ ok part
    → At bs off part
    → length part < fuel
    → decode_loop fuel bs off ≡ some (ok (map (record_of image) symbols))
unfolding encode_symbols decode_loop
symbols-At zero bs off image symbols part h e at f = absurd (omega arith)
symbols-At (suc fuel) bs off image [] part h e at f =
    let empty : [] ≡ part = cc in
    let over : leb (length bs) off ≡ true = ground (arith, at.total, ap length empty) in
    rw over refl
symbols-At (suc fuel) bs off image (s ∷ symbols) part (first, others) e at f =
    let (_, short, e1) = >>=-eq-ok (reject_if (leb (2 ^ 16) (length s.name)) long_name) _ e in
    let (more, encoded, e2) = >>=-eq-ok (encode_symbols image symbols) _ e1 in
    let parts : part ≡ laid image s more = cc in
    let (decoded, next) =
      record-At bs off image s more first (ground arith) (subst (At bs off) parts at) in
    let within : leb (length bs) off ≡ false = ground (arith, next.total, byte_width-pos s.ty) in
    let shorter : length more < fuel = omega (arith, at.total, next.total, byte_width-pos s.ty) in
    let rest =
      symbols-At fuel bs (off + 2 + length s.name + 2 + byte_width s.ty) image symbols more others
        encoded next shorter in
    rw (within, decoded, rest) refl

-- A payload that is encoded from the image of a layout whose symbols lie in the image and whose
-- names are UTF-8 is decoded, without an error, to the records of that image.
pub decode_records-encode_records :
    (layout : RetainLayout) (image payload : List ℕ)
    → All (IsSymbol layout.retain_size) layout.symbols
    → encode_records layout image ≡ ok payload
    → (decode_records payload ≡ some (ok (map (record_of image) layout.symbols)))
      × (records_from_image layout image ≡ ok (map (record_of image) layout.symbols))
unfolding encode_records decode_records records_from_image
decode_records-encode_records layout image payload h e =
    let (_, fits, e1) =
      >>=-eq-ok (reject_if (not (length image == layout.retain_size)) image_size) _ e in
    let sized : layout.retain_size ≡ length image = ground arith in
    (
      symbols-At (length payload + 1) payload 0 image layout.symbols payload
          (subst (λ n. All (IsSymbol n) layout.symbols) sized h) e1 (At-zero payload) (omega arith),
      rw fits refl,
    )
