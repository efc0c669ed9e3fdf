-- ===== src/Retain/Store/Crash.antt =====
-- A flush that is cut off (crates/plc-retain/src/store.rs).
use my_soft_plc.Prelude.{
  ℕ, ◌+◌, ◌-◌, ◌%◌, ◌^◌, ◌<◌, ◌≤◌, ◌≡◌, ◌∙◌, refl, ap, sym, not, none, some, List, arith, length,
  map, ok, >>=-eq-ok, reject_if, min, max, All, ◌==◌,
}
use my_soft_plc.Retain.Crc.{crc32-lt}
use my_soft_plc.Retain.Codec.{RetainLayout, encode_records, record_of, image_size}
use my_soft_plc.Retain.Codec.RoundTrip.{IsSymbol, decode_records-encode_records}
use my_soft_plc.Retain.Store.{
  IdxRecord, DecodedSlot, Disk, Job, read_slot, read_idx, recovered, committed, flush, write_slot,
  write_idx, encode_slot, encode_idx, decode_slot, decode_idx, schema_hash, schema_bytes, slot_of,
  job_of,
}
use my_soft_plc.Retain.Store.Files.{decode_slot-encode_slot, decode_idx-encode_idx}

-- Where the run ends: before the writes, in the first write, which leaves some bytes in the slot,
-- between the two, in the second, which leaves some bytes in the index, or after both.
pub data Cut : Type 0 where
  before between done : Cut
  tearing_slot tearing_idx : List ℕ → Cut

abbrev pub after_cut : Disk → Job → Cut → Disk
after_cut d job before = d
after_cut d job (tearing_slot torn) = write_slot d job.slot torn
after_cut d job between = write_slot d job.slot job.slot_bytes
after_cut d job (tearing_idx torn) = write_idx (write_slot d job.slot job.slot_bytes) torn
after_cut d job done = write_idx (write_slot d job.slot job.slot_bytes) job.idx_bytes

-- Torn bytes fail the checks of their file.
abbrev pub IsDetected : Cut → Type 0
IsDetected (tearing_slot torn) = decode_slot torn ≡ none
IsDetected (tearing_idx torn) = decode_idx torn ≡ none
IsDetected _ = Unit

-- The index names a slot that holds its generation.
pub record IsCommitted (d : Disk) (i : IdxRecord) (s : DecodedSlot) : Type 0 where
  pub indexed : read_idx d ≡ some i
  pub binary : i.slot ≤ 1
  pub held : read_slot d i.slot ≡ some s
  pub current : s.generation ≡ i.generation

-- The slot of the new image once the slot has been written and the index no longer stands.
abbrev pub outcome : IdxRecord → DecodedSlot → DecodedSlot → Cut → ℕ × DecodedSlot
outcome i old fresh before = (i.slot, old)
outcome i old fresh (tearing_slot torn) = (i.slot, old)
outcome i old fresh between = (i.slot, old)
outcome i old fresh (tearing_idx torn) = (1 - i.slot, fresh)
outcome i old fresh done = (1 - i.slot, fresh)

cut_outcome :
    (d : Disk) (i : IdxRecord) (old fresh : DecodedSlot) (job : Job) (cut : Cut)
    → IsCommitted d i old
    → job.slot ≡ 1 - i.slot
    → fresh.generation ≡ i.generation + 1
    → decode_slot job.slot_bytes ≡ some fresh
    → decode_idx job.idx_bytes ≡ some (record { slot = 1 - i.slot; generation = i.generation + 1 })
    → IsDetected cut
    → recovered (after_cut d job cut) ≡ some (outcome i old fresh cut)
unfolding recovered write_slot write_idx
cut_outcome d i old fresh job before h s g ds di t = ground arith
cut_outcome d i old fresh job between h s g ds di t = ground arith
cut_outcome d i old fresh job done h s g ds di t = ground arith
cut_outcome d i old fresh job (tearing_slot torn) h s g ds di t = ground arith
cut_outcome d i old fresh job (tearing_idx torn) h s g ds di t = ground arith

-- After the whole flush the new slot is committed.
done-IsCommitted :
    (d : Disk) (slot : ℕ) (fresh : DecodedSlot) (job : Job) (i : IdxRecord)
    → job.slot ≡ i.slot
    → i.slot ≤ 1
    → fresh.generation ≡ i.generation
    → decode_slot job.slot_bytes ≡ some fresh
    → decode_idx job.idx_bytes ≡ some i
    → IsCommitted (after_cut d job done) i fresh
unfolding write_slot write_idx
done-IsCommitted d slot fresh job i s b g ds di = record {
  indexed = di;
  binary = b;
  held = ground arith;
  current = g;
}

committed-indexed :
    (d : Disk) (i : IdxRecord) → read_idx d ≡ some i → committed d ≡ (i.slot, i.generation)
unfolding committed
committed-indexed d i h = rw h refl

-- What the flush writes, from a committed disk.
record Planned (i : IdxRecord) (layout : RetainLayout) (image payload : List ℕ) (job : Job)
    : Type 0 where
  encoded : encode_records layout image ≡ ok payload
  slot : job.slot ≡ 1 - i.slot
  slot_bytes :
      job.slot_bytes
      ≡ encode_slot (i.generation + 1) (schema_hash layout) (length layout.symbols % 2 ^ 32) payload
  idx_bytes : job.idx_bytes ≡ encode_idx (1 - i.slot) (i.generation + 1)

flush-Planned :
    (d : Disk) (i : IdxRecord) (layout : RetainLayout) (image : List ℕ) (job : Job)
    → read_idx d ≡ some i
    → i.generation + 1 < 2 ^ 64
    → flush d layout image ≡ ok job
    → (payload : List ℕ) × Planned i layout image payload job
unfolding flush
flush-Planned d i layout image job h g f =
    let (_, sized, f1) =
      >>=-eq-ok (reject_if (not (length image == layout.retain_size)) image_size) _ f in
    let (payload, encoded, f2) = >>=-eq-ok (encode_records layout image) _ f1 in
    let same : job_of (committed d) layout payload ≡ job = cc in
    let c = committed-indexed d i h in
    let planned : job_of (i.slot, i.generation) layout payload ≡ job =
      ap (λ (p : ℕ × ℕ). job_of p layout payload) (sym c) ∙ same in
    let next : max (min (i.generation + 1) (2 ^ 64 - 1)) 1 ≡ i.generation + 1 = omega arith in
    let n = length layout.symbols % 2 ^ 32 in
    (
      payload,
      record {
        encoded = encoded;
        slot = sym (ap (λ (j : Job). j.slot) planned);
        slot_bytes =
            sym (ap (λ (j : Job). j.slot_bytes) planned)
            ∙ ap (λ k. encode_slot k (schema_hash layout) n payload) next;
        idx_bytes =
            sym (ap (λ (j : Job). j.idx_bytes) planned) ∙ ap (λ k. encode_idx (1 - i.slot) k) next;
      },
    )

-- The records of an image, of the next generation.
abbrev pub fresh_slot : IdxRecord → RetainLayout → List ℕ → DecodedSlot
fresh_slot i layout image = record {
  generation = i.generation + 1;
  records = map (record_of image) layout.symbols;
}

abbrev pub fresh_idx : IdxRecord → IdxRecord
fresh_idx i = record { slot = 1 - i.slot; generation = i.generation + 1 }

schema_hash-lt : (layout : RetainLayout) → schema_hash layout < 2 ^ 32
unfolding schema_hash
schema_hash-lt layout = crc32-lt (schema_bytes layout.retain_size layout.symbols)

flush-files :
    (i : IdxRecord) (layout : RetainLayout) (image payload : List ℕ) (job : Job)
    → Planned i layout image payload job
    → i.slot ≤ 1
    → i.generation + 1 < 2 ^ 64
    → All (IsSymbol layout.retain_size) layout.symbols
    → length payload < 2 ^ 32
    → (decode_slot job.slot_bytes ≡ some (fresh_slot i layout image))
      × (decode_idx job.idx_bytes ≡ some (fresh_idx i))
flush-files i layout image payload job p b g h short =
    let n = length layout.symbols % 2 ^ 32 in
    let read =
      decode_slot-encode_slot (i.generation + 1) (schema_hash layout) n payload g
        (schema_hash-lt layout) (omega arith) short in
    let records = (decode_records-encode_records layout image payload h p.encoded).0 in
    (
      rw p.slot_bytes (read ∙ ap (slot_of (i.generation + 1)) records),
      rw p.idx_bytes (decode_idx-encode_idx (1 - i.slot) (i.generation + 1) (omega arith) g),
    )

-- A disk whose index names a slot of its generation, and a flush of an image on it, cut off before
-- its writes, in one of them, between them or after them. If torn bytes fail the checks of their
-- file, the next load finds the old records while the slot is not complete or the old index stands,
-- and the records of the new image once the slot is complete and the index is torn or new: one of
-- the two, whole. After the whole flush, the disk is again one whose index names a slot of its
-- generation. The symbols of the layout lie in the image with names in UTF-8, the payload is
-- shorter than 2 ^ 32 bytes and the generation does not reach 2 ^ 64.
pub recovered-flush :
    (d : Disk) (i : IdxRecord) (old : DecodedSlot) (layout : RetainLayout) (image : List ℕ)
    (job : Job) (cut : Cut)
    → IsCommitted d i old
    → i.generation + 1 < 2 ^ 64
    → All (IsSymbol layout.retain_size) layout.symbols
    → ((payload : List ℕ) → encode_records layout image ≡ ok payload → length payload < 2 ^ 32)
    → flush d layout image ≡ ok job
    → IsDetected cut
    → (recovered (after_cut d job cut) ≡ some (outcome i old (fresh_slot i layout image) cut))
      × IsCommitted (after_cut d job done) (fresh_idx i) (fresh_slot i layout image)
recovered-flush d i old layout image job cut c g h short f t =
    let (payload, p) = flush-Planned d i layout image job c.indexed g f in
    let (slot, idx) =
      flush-files i layout image payload job p c.binary g h (short payload p.encoded) in
    (
      cut_outcome d i old (fresh_slot i layout image) job cut c p.slot refl slot idx t,
      done-IsCommitted d (1 - i.slot) (fresh_slot i layout image) job (fresh_idx i) p.slot
          (omega arith) refl slot idx,
    )

-- If the index names a slot that is corrupt and the other slot is whole, a load finds the other; but
-- a flush on that disk writes over the other, and one that is cut off in that write leaves no slot
-- that a load finds, when the torn bytes fail the checks.
pub recovered-flush_corrupt :
    (d : Disk) (i : IdxRecord) (s : DecodedSlot) (layout : RetainLayout) (image : List ℕ)
    (job : Job) (torn : List ℕ)
    → read_idx d ≡ some i
    → i.slot ≤ 1
    → read_slot d i.slot ≡ none
    → read_slot d (1 - i.slot) ≡ some s
    → i.generation + 1 < 2 ^ 64
    → flush d layout image ≡ ok job
    → decode_slot torn ≡ none
    → (recovered d ≡ some (1 - i.slot, s))
      × (recovered (after_cut d job (tearing_slot torn)) ≡ none)
unfolding recovered write_slot
recovered-flush_corrupt d i s layout image job torn h b lost kept g f t =
    let (payload, p) = flush-Planned d i layout image job h g f in
    let slot = p.slot in (ground arith, ground arith)
