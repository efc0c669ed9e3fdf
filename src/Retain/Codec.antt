-- ===== src/Retain/Codec.antt =====
-- The payload of the store (crates/plc-retain/src/codec.rs), with the layout of
-- crates/plc-ir/src/retain.rs. The loop takes fuel; `none` means that it ran out.
pub mod RoundTrip
pub mod Termination
use my_soft_plc.Prelude.{
  ℕ, zero, suc, ◌+◌, ◌^◌, Bool, true, false, not, Option, none, some, List, [], ◌∷◌, ◌++◌, Result,
  ok, err, ok_or, ◌>>=◌, ◌>>◌, reject_if, leb, ltb, length, map, get_or, ◌==◌, if◌then◌else◌,
}
use my_soft_plc.Ir.IrType
use my_soft_plc.Ir.IrType.{IrType, byte_width}
use my_soft_plc.Ir.Bytes.{to_le_bytes, from_le_bytes, slice}
use my_soft_plc.Ir.Spbc.{is_utf8}

pub record RetainSymbol : Type 0 where
  pub name : List ℕ
  pub ty : IrType
  pub offset : ℕ  -- u32

pub record RetainLayout : Type 0 where
  pub retain_size : ℕ  -- u32
  pub symbols : List RetainSymbol

pub record RetainRecord : Type 0 where
  pub name : List ℕ
  pub ty : IrType
  pub value : List ℕ

pub data RetainError : Type 0 where
  image_size long_name truncated_name_len truncated_name not_utf8 nonzero_pad unknown_tag
        truncated_value value_width :
      RetainError
  incompatible : List (List ℕ) → RetainError

-- `image[start..start + width]`.
abbrev pub value_of : List ℕ → RetainSymbol → List ℕ
value_of image sym = slice image sym.offset (byte_width sym.ty)

unfoldable pub encode_symbols : List ℕ → List RetainSymbol → Result (List ℕ) RetainError
encode_symbols image [] = ok []
encode_symbols image (sym ∷ rest) = do
  reject_if (leb (2 ^ 16) (length sym.name)) long_name
  more ← encode_symbols image rest
  ok (
      to_le_bytes 2 (length sym.name)
      ++ (sym.name ++ (IrType.to_u8 sym.ty ∷ 0 ∷ (value_of image sym ++ more))))

unfoldable pub encode_records : RetainLayout → List ℕ → Result (List ℕ) RetainError
encode_records layout image = do
  reject_if (not (length image == layout.retain_size)) image_size
  encode_symbols image layout.symbols

-- The value at `i`, of the type that the tag names.
unfoldable pub decode_value : List ℕ → ℕ → List ℕ → IrType → Result (RetainRecord × ℕ) RetainError
decode_value payload i name ty = do
  reject_if (ltb (length payload) (i + byte_width ty)) truncated_value
  ok (record { name = name; ty = ty; value = slice payload i (byte_width ty) }, i + byte_width ty)

-- The body of the loop: the record at `i`, and the place after it.
unfoldable pub decode_record : List ℕ → ℕ → Result (RetainRecord × ℕ) RetainError
unfolding decode_value
decode_record payload i = do
  reject_if (ltb (length payload) (i + 2)) truncated_name_len
  let name_len = from_le_bytes (slice payload i 2)
  reject_if (ltb (length payload) (i + 2 + name_len + 2)) truncated_name
  let name = slice payload (i + 2) name_len
  reject_if (not (is_utf8 name)) not_utf8
  reject_if (not (get_or payload (i + 2 + name_len + 1) 0 == 0)) nonzero_pad
  ty ← ok_or (IrType.from_u8 (get_or payload (i + 2 + name_len) 0)) unknown_tag
  decode_value payload (i + 2 + name_len + 2) name ty

abbrev pub Decoded : Type 0
Decoded = Option (Result (List RetainRecord) RetainError)

abbrev pub push_front : RetainRecord → Decoded → Decoded
push_front r none = none
push_front r (some (err e)) = some (err e)
push_front r (some (ok rs)) = some (ok (r ∷ rs))

abbrev pub next_record : Result (RetainRecord × ℕ) RetainError → (ℕ → Decoded) → Decoded
next_record (err e) loop = some (err e)
next_record (ok (r, i)) loop = push_front r (loop i)

unfoldable pub decode_loop : ℕ → List ℕ → ℕ → Decoded
decode_loop zero payload i = none
decode_loop (suc fuel) payload i =
    let following = next_record (decode_record payload i) (λ j. decode_loop fuel payload j) in
    if leb (length payload) i then some (ok []) else following

-- A record has a byte at least.
unfoldable pub decode_records : List ℕ → Decoded
decode_records payload = decode_loop (length payload + 1) payload 0

abbrev pub record_of : List ℕ → RetainSymbol → RetainRecord
record_of image sym = record { name = sym.name; ty = sym.ty; value = value_of image sym }

unfoldable pub records_from_image : RetainLayout → List ℕ → Result (List RetainRecord) RetainError
records_from_image layout image = do
  reject_if (not (length image == layout.retain_size)) image_size
  ok (map (record_of image) layout.symbols)
