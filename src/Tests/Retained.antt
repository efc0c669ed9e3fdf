-- ===== src/Tests/Retained.antt =====
-- Runs of the retain store (crates/plc-retain).
use my_soft_plc.Prelude.{
  ℕ, ◌^◌, ◌<◌, ◌≡◌, ◌≢◌, refl, none, some, List, [], ◌∷◌, ◌++◌, ok, arith, length, map, All, sym,
  ◌∙◌, subst,
}
use my_soft_plc.Types.Ascii.{bytes}
use my_soft_plc.Ir.IrType
use my_soft_plc.Ir.IrType.{bool, int, byte_width}
use my_soft_plc.Ir.Bytes.{to_le_bytes, from_le_bytes, slice}
use my_soft_plc.Ir.Spbc.{is_utf8}
use my_soft_plc.Retain.Crc.{crc32}
use my_soft_plc.Retain.Codec.{
  RetainSymbol, RetainLayout, encode_records, encode_symbols, decode_records, decode_loop,
  record_of, records_from_image,
}
use my_soft_plc.Retain.Codec.RoundTrip.{IsSymbol, decode_records-encode_records}
use my_soft_plc.Retain.Codec.Termination.{decode_records-total}
use my_soft_plc.Retain.Store.{
  IdxRecord, DecodedSlot, Disk, read_idx, read_slot, encode_slot, encode_idx, decode_slot,
  decode_idx, recovered, committed, flush, job_of, is_valid_program_id,
}
use my_soft_plc.Retain.Store.Crash.{
  Cut, tearing_slot, done, after_cut, IsCommitted, outcome, fresh_slot, fresh_idx, recovered-flush,
  recovered-flush_corrupt,
}
use my_soft_plc.Retain.Store.Names.{IsPlain, is_valid_program_id-IsPlain}

abbrev flag : RetainSymbol
flag = record { name = bytes "flag"; ty = bool; offset = 0 }

abbrev count : RetainSymbol
count = record { name = bytes "n"; ty = int; offset = 2 }

abbrev pub layout : RetainLayout
layout = record { retain_size = 4; symbols = flag ∷ count ∷ [] }

abbrev pub image : List ℕ
image = 1 ∷ 0 ∷ 7 ∷ 2 ∷ []

abbrev payload : List ℕ
payload = 4 ∷ 0 ∷ (bytes "flag" ++ (0 ∷ 0 ∷ 1 ∷ 1 ∷ 0 ∷ (bytes "n" ++ (1 ∷ 0 ∷ 7 ∷ 2 ∷ []))))

encoded : encode_records layout image ≡ ok payload
unfolding encode_records encode_symbols to_le_bytes slice IrType.to_u8 byte_width
encoded = refl

symbols_inside : All (IsSymbol 4) (flag ∷ count ∷ [])
unfolding byte_width is_utf8
symbols_inside = (
  record { inside = omega arith; utf8 = refl },
  (record { inside = omega arith; utf8 = refl }, tt),
)

decode_records-encode_records_example :
    (decode_records payload ≡ some (ok (map (record_of image) (flag ∷ count ∷ []))))
    × (records_from_image layout image ≡ ok (map (record_of image) (flag ∷ count ∷ [])))
decode_records-encode_records_example =
    decode_records-encode_records layout image payload symbols_inside encoded

-- An empty payload in slot 0, of generation 1.
abbrev old : DecodedSlot
old = record { generation = 1; records = [] }

abbrev idx : IdxRecord
idx = record { slot = 0; generation = 1 }

abbrev disk : Disk
disk = record { slot0 = some (encode_slot 1 0 0 []); slot1 = none; idx = some (encode_idx 0 1) }

disk-IsCommitted : IsCommitted disk idx old
unfolding encode_slot decode_slot encode_idx decode_idx crc32 to_le_bytes from_le_bytes slice
    decode_records decode_loop
disk-IsCommitted = record { indexed = refl; binary = omega arith; held = refl; current = refl }

flushed : flush disk layout image ≡ ok (job_of (0, 1) layout payload)
unfolding flush committed encode_slot decode_slot encode_idx decode_idx crc32 to_le_bytes
    from_le_bytes slice decode_records decode_loop encode_records encode_symbols IrType.to_u8
    byte_width
flushed = refl

payload_short : (p : List ℕ) → encode_records layout image ≡ ok p → length p < 2 ^ 32
payload_short p e =
    let same : ok payload ≡ ok p = sym encoded ∙ e in
    let q : payload ≡ p = cc in subst (λ (z : List ℕ). length z < 2 ^ 32) q (omega arith)

abbrev torn : Cut
torn = tearing_slot (83 ∷ 80 ∷ 82 ∷ [])

torn_detected : decode_slot (83 ∷ 80 ∷ 82 ∷ []) ≡ none
unfolding decode_slot
torn_detected = refl

recovered-flush_example :
    (recovered (after_cut disk (job_of (0, 1) layout payload) torn)
      ≡ some (outcome idx old (fresh_slot idx layout image) torn))
    × IsCommitted
        (after_cut disk (job_of (0, 1) layout payload) done)
        (fresh_idx idx)
        (fresh_slot idx layout image)
recovered-flush_example =
    recovered-flush disk idx old layout image (job_of (0, 1) layout payload) torn disk-IsCommitted
      (omega arith) symbols_inside payload_short flushed torn_detected

is_valid_program_id-IsPlain_example :
    (bytes "line-1.a" ≢ [])
    × (bytes "line-1.a" ≢ bytes ".")
    × (bytes "line-1.a" ≢ bytes "..")
    × All IsPlain (bytes "line-1.a")
unfolding is_valid_program_id
is_valid_program_id-IsPlain_example = is_valid_program_id-IsPlain (bytes "line-1.a") refl

-- The index names slot 0, which is corrupt.
abbrev damaged : Disk
damaged = record {
  slot0 = some (1 ∷ 2 ∷ []);
  slot1 = some (encode_slot 1 0 0 []);
  idx = some (encode_idx 0 2);
}

damaged_idx : read_idx damaged ≡ some (record { slot = 0; generation = 2 })
unfolding encode_idx decode_idx crc32 to_le_bytes from_le_bytes slice
damaged_idx = refl

damaged_slot : read_slot damaged 1 ≡ some old
unfolding encode_slot decode_slot crc32 to_le_bytes from_le_bytes slice decode_records decode_loop
damaged_slot = refl

corrupt_slot : read_slot damaged 0 ≡ none
unfolding decode_slot
corrupt_slot = refl

flushed_damaged : flush damaged layout image ≡ ok (job_of (0, 2) layout payload)
unfolding flush committed encode_slot decode_slot encode_idx decode_idx crc32 to_le_bytes
    from_le_bytes slice decode_records decode_loop encode_records encode_symbols IrType.to_u8
    byte_width
flushed_damaged = refl

recovered-flush_corrupt_example :
    (recovered damaged ≡ some (1, old))
    × (recovered (after_cut damaged (job_of (0, 2) layout payload) torn) ≡ none)
recovered-flush_corrupt_example =
    recovered-flush_corrupt damaged (record { slot = 0; generation = 2 }) old layout image
      (job_of (0, 2) layout payload) (83 ∷ 80 ∷ 82 ∷ []) damaged_idx (omega arith) corrupt_slot
      damaged_slot (omega arith) flushed_damaged torn_detected

decode_records-total_example : decode_records (4 ∷ 0 ∷ 1 ∷ []) ≢ none
decode_records-total_example = decode_records-total (4 ∷ 0 ∷ 1 ∷ [])
