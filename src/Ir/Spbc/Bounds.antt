-- ===== src/Ir/Spbc/Bounds.antt =====
-- What a container that is accepted accounts for (crates/plc-ir/src/spbc.rs).
use my_soft_plc.Prelude.{
  ℕ, zero, suc, ◌+◌, ◌*◌, ◌-◌, ◌/◌, ◌≤◌, ◌≡◌, ap, not, List, [], ◌∷◌, arith, length, length-take,
  length-drop, ok, >>=-eq-ok, reject_if, leb, ltb, get_or, drop,
}
use my_soft_plc.Ir.Table.{bytes_eq}
use my_soft_plc.Ir.Bytes.{slice}
use my_soft_plc.Ir.Module.{IrModule, EntryPoint}
use my_soft_plc.Ir.Spbc.{
  magic, read_u32, parse_entry, parse_entries, parse_body, parse_spbc, short_header, bad_magic,
  truncated_entry, not_utf8, is_utf8, truncated_table,
}

length-slice : (bs : List ℕ) (off n : ℕ) → off + n ≤ length bs → length (slice bs off n) ≡ n
unfolding slice
length-slice bs off n h = omega (arith, length-take n (drop off bs), length-drop off bs)

entry_bounds :
    (bs : List ℕ) (off : ℕ) (e : EntryPoint) (next : ℕ)
    → parse_entry bs off ≡ ok (e, next)
    → (off + 5 + length e.name ≤ next) × (next ≤ length bs)
unfolding parse_entry
entry_bounds bs off e next h =
    let len = get_or bs off 0 in
    let name = slice bs (off + 1) len in
    let (_, inside, h1) = >>=-eq-ok (reject_if (leb (length bs) off) truncated_table) _ h in
    let (_, fits, h2) =
      >>=-eq-ok (reject_if (ltb (length bs) (off + 1 + len + 4)) truncated_entry) _ h1 in
    let (_, text, h3) = >>=-eq-ok (reject_if (not (is_utf8 name)) not_utf8) _ h2 in
    let room : off + 1 + len + 4 ≤ length bs = ground arith in
    let named : name ≡ e.name = cc in
    let ended : off + 1 + len + 4 ≡ next = cc in
    omega (arith, ap length named, length-slice bs (off + 1) len (omega arith))

abbrev pub names_length : List EntryPoint → ℕ
names_length [] = 0
names_length (e ∷ rest) = length e.name + names_length rest

entries_bounds :
    (n : ℕ) (bs : List ℕ) (off : ℕ) (entries : List EntryPoint) (end : ℕ)
    → off ≤ length bs
    → parse_entries n bs off ≡ ok (entries, end)
    → (off + 5 * length entries + names_length entries ≤ end)
      × (end ≤ length bs)
      × (length entries ≡ n)
unfolding parse_entries
entries_bounds zero bs off entries end h p = ground arith
entries_bounds (suc n) bs off entries end h p =
    let ((e, next), one, p1) = >>=-eq-ok (parse_entry bs off) _ p in
    let ((rest, last), more, p2) = >>=-eq-ok (parse_entries n bs next) _ p1 in
    let first = entry_bounds bs off e next one in
    let others = entries_bounds n bs next rest last first.1 more in ground arith

body_bounds :
    (bs : List ℕ) (entries : List EntryPoint) (off : ℕ) (m : IrModule)
    → parse_body bs entries off ≡ ok m
    → (m.entries ≡ entries)
      × (length m.const_data ≡ m.const_size)
      × (length m.code ≡ read_u32 bs 8)
      × (off + length m.const_data + length m.code ≤ length bs)
unfolding parse_body
body_bounds bs entries off m h = ground (
  arith,
  length-slice bs off (read_u32 bs 12),
  length-slice bs (off + read_u32 bs 12) (read_u32 bs 8),
)

-- A container that is accepted, whatever its bytes, is as long at least as all that is read of
-- it: the header, the names with five bytes for each entry, the constants and the code. The size
-- of the constants in the module is the one of its data, so that the verifier, which compares
-- them, does not refuse it for that.
pub parse_spbc_bounds :
    (bs : List ℕ) (m : IrModule)
    → parse_spbc bs ≡ ok m
    → (36 + 5 * length m.entries + names_length m.entries + length m.const_data + length m.code
        ≤ length bs)
      × (length m.const_data ≡ m.const_size)
      × (length m.entries ≡ read_u32 bs 32)
      × (length m.code ≡ read_u32 bs 8)
unfolding parse_spbc
parse_spbc_bounds bs m h =
    let (_, long, h1) = >>=-eq-ok (reject_if (ltb (length bs) 36) short_header) _ h in
    let (_, marked, h2) =
      >>=-eq-ok (reject_if (not (bytes_eq (slice bs 0 4) magic)) bad_magic) _ h1 in
    let (_, few, h3) =
      >>=-eq-ok (reject_if (ltb ((length bs - 36) / 5) (read_u32 bs 32)) truncated_table) _ h2 in
    let ((entries, off), parsed, h4) = >>=-eq-ok (parse_entries (read_u32 bs 32) bs 36) _ h3 in
    let e = entries_bounds (read_u32 bs 32) bs 36 entries off (ground arith) parsed in
    let b = body_bounds bs entries off m h4 in ground arith
