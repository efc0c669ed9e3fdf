-- ===== src/Ir/Spbc/RoundTrip.antt =====
-- A module that is written is read back (crates/plc-ir/src/spbc.rs).
use my_soft_plc.Prelude.{
  ℕ, ◌+◌, ◌*◌, ◌-◌, ◌/◌, ◌%◌, ◌^◌, ◌<◌, ◌≤◌, ◌≡◌, ◌∙◌, refl, ap, sym, true, false, List, [], ◌∷◌,
  ◌++◌, arith, length, length-append, map, ok, >>=-eq-ok, reject_if, leb, ltb, All, subst,
}
use mathlib.Core.List.{append_assoc, append-nil}
use my_soft_plc.Ir.Bytes.{to_le_bytes, slice, length-to_le_bytes}
use my_soft_plc.Ir.Module.{IrModule, EntryPoint}
use my_soft_plc.Ir.Spbc.{
  is_utf8, is_user_fb_name, magic, read_u16, read_u32, parse_entry, parse_entries, parse_body,
  parse_spbc, write_entries, write_spbc, long_name,
}
use my_soft_plc.Ir.Spbc.Offsets.{At, At-zero, At-skip, slice-At, u16-At, u32-At, byte-At}

-- The name is a text of at most 255 bytes and the place a `u32`.
pub record IsEntry (e : EntryPoint) : Type 0 where
  pub utf8 : is_utf8 e.name ≡ true
  pub short : length e.name ≤ 255
  pub narrow : e.pc < 2 ^ 32

-- The container does not hold the flag of an entry: it is the one that the name asks for.
abbrev pub reflagged : EntryPoint → EntryPoint
reflagged e = record e { is_user_fb = is_user_fb_name e.name }

-- The size of the constants is the one of their data.
abbrev pub as_stored : IrModule → IrModule
as_stored m = record m { const_size = length m.const_data; entries = map reflagged m.entries }

entry-At :
    (bs : List ℕ) (off : ℕ) (e : EntryPoint) (rest : List ℕ)
    → IsEntry e
    → At bs off (length e.name % 2 ^ 8 ∷ (e.name ++ (to_le_bytes 4 e.pc ++ rest)))
    → (parse_entry bs off ≡ ok (reflagged e, off + 1 + length e.name + 4))
      × At bs (off + 1 + length e.name + 4) rest
unfolding parse_entry
entry-At bs off e rest h at =
    let k : length e.name % 2 ^ 8 ≡ length e.name = omega (arith, h.short) in
    let (len, at1) =
      byte-At bs off (length e.name % 2 ^ 8) (e.name ++ (to_le_bytes 4 e.pc ++ rest)) at in
    let named =
      slice-At bs (off + 1) (length e.name) e.name (to_le_bytes 4 e.pc ++ rest) at1 refl in
    let at2 = At-skip bs (off + 1) (length e.name) e.name (to_le_bytes 4 e.pc ++ rest) at1 refl in
    let (placed, at3) = u32-At bs (off + 1 + length e.name) e.pc rest at2 h.narrow in
    let room : leb (length bs) off ≡ false = ground (arith, at.total) in
    let fits : ltb (length bs) (off + 1 + length e.name + 4) ≡ false = ground (arith, at3.total) in
    (rw (room, len, k, fits, named, h.utf8, placed) refl, at3)

pub entries-At :
    (bs : List ℕ) (off : ℕ) (entries : List EntryPoint) (table rest : List ℕ)
    → All IsEntry entries
    → write_entries entries ≡ ok table
    → At bs off (table ++ rest)
    → (end : ℕ) × (parse_entries (length entries) bs off ≡ ok (map reflagged entries, end))
      × At bs end rest
unfolding write_entries parse_entries
entries-At bs off [] table rest h w at =
    let empty : [] ≡ table = cc in (off, refl, subst (λ t. At bs off (t ++ rest)) (sym empty) at)
entries-At bs off (e ∷ entries) table rest (first, others) w at =
    let (_, short, w1) = >>=-eq-ok (reject_if (ltb 255 (length e.name)) long_name) _ w in
    let (more, written, w2) = >>=-eq-ok (write_entries entries) _ w1 in
    let parts : table ≡ length e.name % 2 ^ 8 ∷ (e.name ++ (to_le_bytes 4 e.pc ++ more)) = cc in
    let laid : At bs off
        (length e.name % 2 ^ 8 ∷ (e.name ++ (to_le_bytes 4 e.pc ++ (more ++ rest)))) =
      subst (At bs off) (ap (λ t. t ++ rest) parts ∙ simp append_assoc refl) at in
    let (parsed, next) = entry-At bs off e (more ++ rest) first laid in
    let (end, more_parsed, last) =
      entries-At bs (off + 1 + length e.name + 4) entries more rest others written next in
    (end, rw (parsed, more_parsed) refl, last)

write_entries_long :
    (entries : List EntryPoint) (table : List ℕ)
    → write_entries entries ≡ ok table
    → 5 * length entries ≤ length table
unfolding write_entries
write_entries_long [] table w = omega arith
write_entries_long (e ∷ entries) table w =
    let (_, short, w1) = >>=-eq-ok (reject_if (ltb 255 (length e.name)) long_name) _ w in
    let (more, written, w2) = >>=-eq-ok (write_entries entries) _ w1 in
    let parts : table ≡ length e.name % 2 ^ 8 ∷ (e.name ++ (to_le_bytes 4 e.pc ++ more)) = cc in
    rw parts (
      omega (
        arith,
        write_entries_long entries more written,
        length-append e.name (to_le_bytes 4 e.pc ++ more),
        length-append (to_le_bytes 4 e.pc) more,
        length-to_le_bytes 4 e.pc,
      ))

-- The fields that are written fit their widths, and the entries are entries.
pub record IsWritable (m : IrModule) : Type 0 where
  pub major : m.ir_major < 2 ^ 16
  pub minor : m.ir_minor < 2 ^ 16
  pub consts : length m.const_data < 2 ^ 32
  pub coded : length m.code < 2 ^ 32
  pub data_size : m.data_size < 2 ^ 32
  pub retain_size : m.retain_size < 2 ^ 32
  pub input_slots : m.input_slots < 2 ^ 32
  pub output_slots : m.output_slots < 2 ^ 32
  pub counted : length m.entries < 2 ^ 32
  pub entries : All IsEntry m.entries

-- The bytes of a module with the bytes `table` of its entries.
abbrev image : IrModule → List ℕ → List ℕ
image m table =
    magic
    ++ (to_le_bytes 2 m.ir_major
        ++ (to_le_bytes 2 m.ir_minor
            ++ (to_le_bytes 4 (length m.code % 2 ^ 32)
                ++ (to_le_bytes 4 (length m.const_data % 2 ^ 32)
                    ++ (to_le_bytes 4 m.data_size
                        ++ (to_le_bytes 4 m.retain_size
                            ++ (to_le_bytes 4 m.input_slots
                                ++ (to_le_bytes 4 m.output_slots
                                    ++ (to_le_bytes 4 (length m.entries % 2 ^ 32)
                                        ++ (table ++ (m.const_data ++ m.code)))))))))))

-- What the reader finds in the header.
record Header (m : IrModule) (bs : List ℕ) (table : List ℕ) : Type 0 where
  marked : slice bs 0 4 ≡ magic
  major : read_u16 bs 4 ≡ m.ir_major
  minor : read_u16 bs 6 ≡ m.ir_minor
  code_size : read_u32 bs 8 ≡ length m.code
  const_size : read_u32 bs 12 ≡ length m.const_data
  data_size : read_u32 bs 16 ≡ m.data_size
  retain_size : read_u32 bs 20 ≡ m.retain_size
  input_slots : read_u32 bs 24 ≡ m.input_slots
  output_slots : read_u32 bs 28 ≡ m.output_slots
  entry_count : read_u32 bs 32 ≡ length m.entries
  body : At bs 36 (table ++ (m.const_data ++ m.code))

image-Header : (m : IrModule) (table : List ℕ) → IsWritable m → Header m (image m table) table
image-Header m table h =
    let bs = image m table in
    let code_len : length m.code % 2 ^ 32 ≡ length m.code = omega (arith, h.coded) in
    let const_len : length m.const_data % 2 ^ 32 ≡ length m.const_data = omega (arith, h.consts) in
    let count : length m.entries % 2 ^ 32 ≡ length m.entries = omega (arith, h.counted) in
    let a4 = At-skip bs 0 4 magic _ (At-zero bs) refl in
    let (major, a6) = u16-At bs 4 m.ir_major _ a4 h.major in
    let (minor, a8) = u16-At bs 6 m.ir_minor _ a6 h.minor in
    let (code, a12) = u32-At bs 8 (length m.code % 2 ^ 32) _ a8 (omega arith) in
    let (consts, a16) = u32-At bs 12 (length m.const_data % 2 ^ 32) _ a12 (omega arith) in
    let (ram, a20) = u32-At bs 16 m.data_size _ a16 h.data_size in
    let (retain, a24) = u32-At bs 20 m.retain_size _ a20 h.retain_size in
    let (inputs, a28) = u32-At bs 24 m.input_slots _ a24 h.input_slots in
    let (outputs, a32) = u32-At bs 28 m.output_slots _ a28 h.output_slots in
    let (entries, a36) = u32-At bs 32 (length m.entries % 2 ^ 32) _ a32 (omega arith) in
    record {
      marked = slice-At bs 0 4 magic _ (At-zero bs) refl;
      major = major;
      minor = minor;
      code_size = code ∙ code_len;
      const_size = consts ∙ const_len;
      data_size = ram;
      retain_size = retain;
      input_slots = inputs;
      output_slots = outputs;
      entry_count = entries ∙ count;
      body = a36;
    }

body-At :
    (m : IrModule) (bs table : List ℕ) (end : ℕ)
    → Header m bs table
    → At bs end (m.const_data ++ m.code)
    → parse_body bs (map reflagged m.entries) end ≡ ok (as_stored m)
unfolding parse_body
body-At m bs table end h at =
    let consts = slice-At bs end (length m.const_data) m.const_data m.code at refl in
    let at2 = At-skip bs end (length m.const_data) m.const_data m.code at refl in
    let code =
      slice-At bs (end + length m.const_data) (length m.code) m.code [] (rw append-nil at2) refl in
    let fits : ltb (length bs) (end + length m.const_data + length m.code) ≡ false =
      ground (arith, at2.total) in
    rw
      (
        h.code_size, h.const_size, fits, consts, code, h.major, h.minor, h.data_size, h.retain_size,
        h.input_slots, h.output_slots,
      )
      refl

write_entries-IsEntry :
    (entries : List EntryPoint)
    → All IsEntry entries
    → (table : List ℕ) × (write_entries entries ≡ ok table)
unfolding write_entries
write_entries-IsEntry [] h = ([], refl)
write_entries-IsEntry (e ∷ entries) (first, others) =
    let (more, written) = write_entries-IsEntry entries others in
    let short : ltb 255 (length e.name) ≡ false = ground (arith, first.short) in
    (length e.name % 2 ^ 8 ∷ (e.name ++ (to_le_bytes 4 e.pc ++ more)), rw (short, written) refl)

-- Written, and read from what was written.
abbrev pub IsRestored : IrModule → Type 0
IsRestored m = (bs : List ℕ) × (write_spbc m ≡ ok bs) × (parse_spbc bs ≡ ok (as_stored m))

-- Writing a module succeeds if the names of its entries are UTF-8 of at most 255 bytes, and its
-- versions, its sizes of data and of retained data, its counts of slots and of entries, the lengths
-- of its constants and of its code and the places of its entries fit their widths. Parsing the bytes
-- gives the module with two fields that are not written set anew: the size of the constants is the
-- length of their data, and an entry is flagged as a user block exactly when its name begins with
-- `fb.` or `FB.`.
pub parse_spbc-write_spbc : (m : IrModule) → IsWritable m → IsRestored m
unfolding parse_spbc write_spbc
parse_spbc-write_spbc m h =
    let (table, written) = write_entries-IsEntry m.entries h.entries in
    let bs = image m table in
    let found = image-Header m table h in
    let (end, parsed, at) =
      entries-At bs 36 m.entries table (m.const_data ++ m.code) h.entries written found.body in
    let long : ltb (length bs) 36 ≡ false = ground (arith, found.body.total) in
    let many : ltb ((length bs - 36) / 5) (length m.entries) ≡ false = ground (
      arith,
      found.body.total,
      write_entries_long m.entries table written,
      length-append table (m.const_data ++ m.code),
    ) in
    (
      bs,
      rw written refl,
      rw (long, found.marked, found.entry_count, many, parsed) (body-At m bs table end found at),
    )
