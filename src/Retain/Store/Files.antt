-- ===== src/Retain/Store/Files.antt =====
-- The files of the store are read back (crates/plc-retain/src/store.rs).
use my_soft_plc.Prelude.{
  ℕ, ◌+◌, ◌%◌, ◌^◌, ◌<◌, ◌≤◌, ◌≡◌, ◌∙◌, refl, ap, subst, true, false, some, List, ◌∷◌, ◌++◌, arith,
  length, take, take-length, get_or, ltb, replicate, ◌==◌,
}
use mathlib.Core.List.{append_assoc}
use my_soft_plc.Ir.Bytes.{to_le_bytes, from_le_bytes, slice, length-to_le_bytes}
use my_soft_plc.Ir.Spbc.Offsets.{At, At-zero, At-skip, slice-At, u16-At, u32-At, byte-At}
use my_soft_plc.Retain.Crc.{crc32, crc32-lt}
use my_soft_plc.Retain.Codec.{decode_records}
use my_soft_plc.Retain.Store.{
  slot_magic, idx_magic, retain_version, slot_head, encode_slot, slot_of, decode_slot, idx_head,
  encode_idx, decode_idx,
}

from-to_u64 : (v : ℕ) → v < 2 ^ 64 → from_le_bytes (to_le_bytes 8 v) ≡ v
unfolding to_le_bytes from_le_bytes
from-to_u64 v h = omega arith

u64-At :
    (bs : List ℕ) (off v : ℕ) (rest : List ℕ)
    → At bs off (to_le_bytes 8 v ++ rest)
    → v < 2 ^ 64
    → (from_le_bytes (slice bs off 8) ≡ v) × At bs (off + 8) rest
u64-At bs off v rest at h =
    let part = to_le_bytes 8 v in
    (
      ap from_le_bytes (slice-At bs off 8 part rest at (length-to_le_bytes 8 v)) ∙ from-to_u64 v h,
      At-skip bs off 8 part rest at (length-to_le_bytes 8 v),
    )

length-slot_head : (g s n l : ℕ) → length (slot_head g s n l) ≡ 28
unfolding to_le_bytes
length-slot_head g s n l = refl

take-head : (head rest : List ℕ) (n : ℕ) → length head ≡ n → take n (head ++ rest) ≡ head
take-head head rest n e = rw (← e) (take-length head rest)

-- The fields of a slot one after another.
abbrev fields : ℕ → ℕ → ℕ → ℕ → List ℕ → List ℕ
fields g s n len tail =
    slot_magic
    ++ (to_le_bytes 2 retain_version
        ++ (to_le_bytes 2 0
            ++ (to_le_bytes 8 g
                ++ (to_le_bytes 4 s ++ (to_le_bytes 4 n ++ (to_le_bytes 4 len ++ tail))))))

slot_head-fields :
    (g s n len : ℕ) (tail : List ℕ) → slot_head g s n len ++ tail ≡ fields g s n len tail
slot_head-fields g s n len tail = simp append_assoc refl

-- What the reader finds in a slot.
record Slot (bs : List ℕ) (g len crc : ℕ) (payload : List ℕ) : Type 0 where
  marked : slice bs 0 4 ≡ slot_magic
  version : from_le_bytes (slice bs 4 2) ≡ retain_version
  generation : from_le_bytes (slice bs 8 8) ≡ g
  payload_len : from_le_bytes (slice bs 24 4) ≡ len
  stored : from_le_bytes (slice bs 28 4) ≡ crc
  body : At bs 32 payload

fields-Slot :
    (bs : List ℕ) (g s n len crc : ℕ) (payload : List ℕ)
    → g < 2 ^ 64
    → s < 2 ^ 32
    → n < 2 ^ 32
    → len < 2 ^ 32
    → crc < 2 ^ 32
    → At bs 0 (fields g s n len (to_le_bytes 4 crc ++ payload))
    → Slot bs g len crc payload
fields-Slot bs g s n len crc payload hg hs hn hl hc at =
    let a4 = At-skip bs 0 4 slot_magic _ at refl in
    let (version, a6) = u16-At bs 4 retain_version _ a4 (omega arith) in
    let (_, a8) = u16-At bs 6 0 _ a6 (omega arith) in
    let (generation, a16) = u64-At bs 8 g _ a8 hg in
    let (_, a20) = u32-At bs 16 s _ a16 hs in
    let (_, a24) = u32-At bs 20 n _ a20 hn in
    let (payload_len, a28) = u32-At bs 24 len _ a24 hl in
    let (stored, a32) = u32-At bs 28 crc payload a28 hc in
    record {
      marked = slice-At bs 0 4 slot_magic _ at refl;
      version = version;
      generation = generation;
      payload_len = payload_len;
      stored = stored;
      body = a32;
    }

decode_slot-Slot :
    (bs : List ℕ) (g len crc : ℕ) (payload : List ℕ)
    → Slot bs g len crc payload
    → len ≡ length payload
    → crc32 (take 28 bs ++ (0 ∷ 0 ∷ 0 ∷ 0 ∷ payload)) ≡ crc
    → decode_slot bs ≡ slot_of g (decode_records payload)
unfolding decode_slot
decode_slot-Slot bs g len crc payload f sized sums =
    let long : ltb (length bs) 32 ≡ false = ground (arith, f.body.total) in
    let whole : (length bs == 32 + len) ≡ true = ground (arith, f.body.total) in
    rw
      (long, f.marked, f.version, f.payload_len, whole, f.body.suffix, sums, f.stored, f.generation)
      (ground arith)

pub decode_slot-encode_slot :
    (g s n : ℕ) (payload : List ℕ)
    → g < 2 ^ 64
    → s < 2 ^ 32
    → n < 2 ^ 32
    → length payload < 2 ^ 32
    → decode_slot (encode_slot g s n payload) ≡ slot_of g (decode_records payload)
unfolding encode_slot
decode_slot-encode_slot g s n payload hg hs hn hl =
    let len = length payload % 2 ^ 32 in
    let head = slot_head g s n len in
    let crc = crc32 (head ++ (0 ∷ 0 ∷ 0 ∷ 0 ∷ payload)) in
    let bs = head ++ (to_le_bytes 4 crc ++ payload) in
    let at : At bs 0 (fields g s n len (to_le_bytes 4 crc ++ payload)) =
      subst (At bs 0) (slot_head-fields g s n len (to_le_bytes 4 crc ++ payload)) (At-zero bs) in
    let found =
      fields-Slot bs g s n len crc payload hg hs hn (omega arith)
        (crc32-lt (head ++ (0 ∷ 0 ∷ 0 ∷ 0 ∷ payload))) at in
    decode_slot-Slot bs g len crc payload found (omega arith) (
      ap (λ h. crc32 (h ++ (0 ∷ 0 ∷ 0 ∷ 0 ∷ payload)))
        (take-head head (to_le_bytes 4 crc ++ payload) 28 (length-slot_head g s n len)))

length-idx_head : (slot g : ℕ) → length (idx_head slot g) ≡ 16
unfolding to_le_bytes
length-idx_head slot g = refl

-- What the reader finds in an index file.
record Index (bs : List ℕ) (slot g crc : ℕ) : Type 0 where
  sized : length bs ≡ 64
  marked : slice bs 0 4 ≡ idx_magic
  version : from_le_bytes (slice bs 4 2) ≡ retain_version
  slot_byte : get_or bs 6 0 ≡ slot
  generation : from_le_bytes (slice bs 8 8) ≡ g
  stored : from_le_bytes (slice bs 16 4) ≡ crc
  hashed : slice bs 0 16 ≡ idx_head slot g

fields-Index :
    (bs : List ℕ) (slot g crc : ℕ)
    → g < 2 ^ 64
    → crc < 2 ^ 32
    → At bs 0 (idx_head slot g ++ (to_le_bytes 4 crc ++ replicate 44 0))
    → Index bs slot g crc
fields-Index bs slot g crc hg hc at =
    let tail = to_le_bytes 4 crc ++ replicate 44 0 in
    let flat : At bs 0
        (idx_magic ++ (to_le_bytes 2 retain_version ++ (slot ∷ 0 ∷ (to_le_bytes 8 g ++ tail)))) =
      simp append_assoc at at in
    let a4 = At-skip bs 0 4 idx_magic _ flat refl in
    let (version, a6) = u16-At bs 4 retain_version _ a4 (omega arith) in
    let (slot_byte, a7) = byte-At bs 6 slot _ a6 in
    let (_, a8) = byte-At bs 7 0 _ a7 in
    let (generation, _) = u64-At bs 8 g tail a8 hg in
    let a16 = At-skip bs 0 16 (idx_head slot g) tail at (length-idx_head slot g) in
    let (stored, a20) = u32-At bs 16 crc (replicate 44 0) a16 hc in
    record {
      sized = a20.total;
      marked = slice-At bs 0 4 idx_magic _ flat refl;
      version = version;
      slot_byte = slot_byte;
      generation = generation;
      stored = stored;
      hashed = slice-At bs 0 16 (idx_head slot g) tail at (length-idx_head slot g);
    }

decode_idx-Index :
    (bs : List ℕ) (slot g : ℕ)
    → slot ≤ 1
    → Index bs slot g (crc32 (idx_head slot g))
    → decode_idx bs ≡ some (record { slot = slot; generation = g })
unfolding decode_idx
decode_idx-Index bs slot g h f =
    let low : ltb 1 slot ≡ false = ground arith in
    rw (f.sized, f.marked, f.version, f.slot_byte, low, f.hashed, f.stored, f.generation)
      (ground arith)

pub decode_idx-encode_idx :
    (slot g : ℕ)
    → slot ≤ 1
    → g < 2 ^ 64
    → decode_idx (encode_idx slot g) ≡ some (record { slot = slot; generation = g })
unfolding encode_idx
decode_idx-encode_idx slot g h hg =
    let crc = crc32 (idx_head slot g) in
    let bs = idx_head slot g ++ (to_le_bytes 4 crc ++ replicate 44 0) in
    decode_idx-Index bs slot g h
      (fields-Index bs slot g crc hg (crc32-lt (idx_head slot g)) (At-zero bs))
