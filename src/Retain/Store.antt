-- ===== src/Retain/Store.antt =====
-- The A/B store of crates/plc-retain/src/store.rs and layout.rs. A disk holds the three files of one
-- program, each missing or a list of bytes; `flush` gives what it writes, and the two writes are
-- steps of their own, so that a run can be cut between them or in one of them.
pub mod Files
pub mod Crash
pub mod Names
use my_soft_plc.Prelude.{
  ℕ, zero, suc, ◌+◌, ◌-◌, ◌%◌, ◌^◌, Bool, true, false, not, ◌&&◌, ◌||◌, Option, none, some, List,
  [], ◌∷◌, ◌++◌, Result, ok, err, ◌>>=◌, ◌>>◌, reject_if, leb, ltb, length, take, drop, replicate,
  get_or, max, min, ◌==◌, if◌then◌else◌,
}
use my_soft_plc.Types.Ascii.{bytes}
use my_soft_plc.Ir.IrType
use my_soft_plc.Ir.Table.{bytes_eq}
use my_soft_plc.Ir.Bytes.{to_le_bytes, from_le_bytes, slice}
use my_soft_plc.Retain.Crc.{crc32}
use my_soft_plc.Retain.Codec.{
  RetainSymbol, RetainLayout, RetainRecord, RetainError, image_size, encode_records, decode_records,
  Decoded,
}

abbrev pub slot_magic : List ℕ
slot_magic = bytes "SPRT"

abbrev pub idx_magic : List ℕ
idx_magic = bytes "SPRI"

abbrev pub retain_version : ℕ
retain_version = 1

pub record IdxRecord : Type 0 where
  pub slot : ℕ
  pub generation : ℕ

pub record DecodedSlot : Type 0 where
  pub generation : ℕ
  pub records : List RetainRecord

abbrev pub schema_bytes : ℕ → List RetainSymbol → List ℕ
schema_bytes size [] = []
schema_bytes size (sym ∷ rest) =
    sym.name
    ++ (0
        ∷ IrType.to_u8 sym.ty
        ∷ (to_le_bytes 4 sym.offset ++ (to_le_bytes 4 size ++ schema_bytes size rest)))

unfoldable pub schema_hash : RetainLayout → ℕ
schema_hash layout = crc32 (schema_bytes layout.retain_size layout.symbols)

-- The header of a slot up to the checksum.
abbrev pub slot_head : ℕ → ℕ → ℕ → ℕ → List ℕ
slot_head generation schema_crc record_count payload_len =
    slot_magic
    ++ (to_le_bytes 2 retain_version
        ++ (to_le_bytes 2 0
            ++ (to_le_bytes 8 generation
                ++ (to_le_bytes 4 schema_crc
                    ++ (to_le_bytes 4 record_count ++ to_le_bytes 4 payload_len)))))

-- The checksum is taken with its own field zero.
unfoldable pub encode_slot : ℕ → ℕ → ℕ → List ℕ → List ℕ
encode_slot generation schema_crc record_count payload =
    let head = slot_head generation schema_crc record_count (length payload % 2 ^ 32) in
    head ++ (to_le_bytes 4 (crc32 (head ++ (0 ∷ 0 ∷ 0 ∷ 0 ∷ payload))) ++ payload)

abbrev pub slot_of : ℕ → Decoded → Option DecodedSlot
slot_of generation none = none
slot_of generation (some (err e)) = none
slot_of generation (some (ok records)) =
    some (record { generation = generation; records = records })

unfoldable pub decode_slot : List ℕ → Option DecodedSlot
decode_slot bs =
    let hashed = take 28 bs ++ (0 ∷ 0 ∷ 0 ∷ 0 ∷ drop 32 bs) in
    if ltb (length bs) 32
    then none
    else if not (bytes_eq (slice bs 0 4) slot_magic)
    then none
    else if not (from_le_bytes (slice bs 4 2) == retain_version)
    then none
    else if not (length bs == 32 + from_le_bytes (slice bs 24 4))
    then none
    else if not (crc32 hashed == from_le_bytes (slice bs 28 4))
    then none
    else slot_of (from_le_bytes (slice bs 8 8)) (decode_records (drop 32 bs))

abbrev pub idx_head : ℕ → ℕ → List ℕ
idx_head slot generation =
    idx_magic ++ (to_le_bytes 2 retain_version ++ (slot ∷ 0 ∷ to_le_bytes 8 generation))

unfoldable pub encode_idx : ℕ → ℕ → List ℕ
encode_idx slot generation =
    idx_head slot generation ++ (to_le_bytes 4 (crc32 (idx_head slot generation)) ++ replicate 44 0)

unfoldable pub decode_idx : List ℕ → Option IdxRecord
decode_idx bs =
    let slot = get_or bs 6 0 in
    if not (length bs == 64)
    then none
    else if not (bytes_eq (slice bs 0 4) idx_magic)
    then none
    else if not (from_le_bytes (slice bs 4 2) == retain_version)
    then none
    else if ltb 1 slot
    then none
    else if not (crc32 (slice bs 0 16) == from_le_bytes (slice bs 16 4))
    then none
    else some (record { slot = slot; generation = from_le_bytes (slice bs 8 8) })

pub record Disk : Type 0 where
  pub slot0 : Option (List ℕ)
  pub slot1 : Option (List ℕ)
  pub idx : Option (List ℕ)

abbrev pub and_then : Option (List ℕ) → (List ℕ → Option DecodedSlot) → Option DecodedSlot
and_then none f = none
and_then (some bs) f = f bs

-- `read_slot(…).ok()`.
abbrev pub read_slot : Disk → ℕ → Option DecodedSlot
read_slot d slot = and_then (if slot == 0 then d.slot0 else d.slot1) decode_slot

abbrev pub read_idx_file : Option (List ℕ) → Option IdxRecord
read_idx_file none = none
read_idx_file (some bs) = decode_idx bs

abbrev pub read_idx : Disk → Option IdxRecord
read_idx d = read_idx_file d.idx

-- The newer of the two slots, slot 0 if they are of one generation.
abbrev pub newest : Option DecodedSlot → Option DecodedSlot → Option (ℕ × DecodedSlot)
newest (some a) (some b) = if leb b.generation a.generation then some (0, a) else some (1, b)
newest (some a) none = some (0, a)
newest none (some b) = some (1, b)
newest none none = none

abbrev pub fall_back : ℕ → Option DecodedSlot → Option (ℕ × DecodedSlot)
fall_back slot none = none
fall_back slot (some s) = some (slot, s)

abbrev pub prefer : IdxRecord → Option DecodedSlot → Option DecodedSlot → Option (ℕ × DecodedSlot)
prefer i none other = fall_back (1 - i.slot) other
prefer i (some s) other =
    if s.generation == i.generation then some (i.slot, s) else fall_back (1 - i.slot) other

unfoldable pub choose_slot :
    Option IdxRecord → Option DecodedSlot → Option DecodedSlot → Option (ℕ × DecodedSlot)
choose_slot none slot0 slot1 = newest slot0 slot1
choose_slot (some i) slot0 slot1 =
    if i.slot == 0 then prefer i slot0 slot1 else prefer i slot1 slot0

-- What `load` chooses.
unfoldable pub recovered : Disk → Option (ℕ × DecodedSlot)
unfolding choose_slot
recovered d = choose_slot (read_idx d) (read_slot d 0) (read_slot d 1)

abbrev pub committed_slot : Option (ℕ × DecodedSlot) → ℕ × ℕ
committed_slot none = (1, 0)
committed_slot (some (slot, s)) = (slot, s.generation)

abbrev pub committed_from : Option IdxRecord → Option DecodedSlot → Option DecodedSlot → ℕ × ℕ
committed_from (some i) slot0 slot1 = (i.slot, i.generation)
committed_from none slot0 slot1 = committed_slot (newest slot0 slot1)

unfoldable pub committed : Disk → ℕ × ℕ
committed d = committed_from (read_idx d) (read_slot d 0) (read_slot d 1)

-- What a flush writes, in this order: the bytes of the slot, and those of the index.
pub record Job : Type 0 where
  pub slot : ℕ
  pub generation : ℕ
  pub slot_bytes : List ℕ
  pub idx_bytes : List ℕ

-- The argument is what is committed: the slot and its generation.
abbrev pub job_of : ℕ × ℕ → RetainLayout → List ℕ → Job
job_of (active, gen) layout payload =
    let slot = 1 - active in
    let generation = max (min (gen + 1) (2 ^ 64 - 1)) 1 in
    record {
      slot = slot;
      generation = generation;
      slot_bytes =
          encode_slot generation (schema_hash layout) (length layout.symbols % 2 ^ 32) payload;
      idx_bytes = encode_idx slot generation;
    }

unfoldable pub flush : Disk → RetainLayout → List ℕ → Result Job RetainError
flush d layout image = do
  reject_if (not (length image == layout.retain_size)) image_size
  payload ← encode_records layout image
  ok (job_of (committed d) layout payload)

unfoldable pub write_slot : Disk → ℕ → List ℕ → Disk
write_slot d slot bs =
    if slot == 0 then record d { slot0 = some bs } else record d { slot1 = some bs }

unfoldable pub write_idx : Disk → List ℕ → Disk
write_idx d bs = record d { idx = some bs }

-- A byte of `[A-Za-z0-9._-]`.
abbrev pub is_id_byte : ℕ → Bool
is_id_byte b =
    (leb 48 b && leb b 57)
    || (leb 65 b && leb b 90)
    || (leb 97 b && leb b 122)
    || b == 46
    || b == 95
    || b == 45

abbrev pub all_id_bytes : List ℕ → Bool
all_id_bytes [] = true
all_id_bytes (b ∷ rest) = is_id_byte b && all_id_bytes rest

abbrev pub is_nil : List ℕ → Bool
is_nil [] = true
is_nil _ = false

-- `validate_program_id(id).is_ok()`.
unfoldable pub is_valid_program_id : List ℕ → Bool
is_valid_program_id id =
    not (is_nil id || bytes_eq id (bytes ".") || bytes_eq id (bytes "..") || not (all_id_bytes id))
