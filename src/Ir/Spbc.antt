-- ===== src/Ir/Spbc.antt =====
-- The container of crates/plc-ir/src/spbc.rs. A text is the list of its bytes, and
-- `str::from_utf8` a test on them. The texts of the errors are left out.
pub mod Offsets
pub mod RoundTrip
pub mod Bounds
use my_soft_plc.Prelude.{
  ℕ, zero, suc, ◌+◌, ◌-◌, ◌/◌, ◌%◌, ◌^◌, Bool, true, false, ◌&&◌, ◌||◌, not, Option, none, some,
  List, [], ◌∷◌, ◌++◌, Result, ok, err, ◌>>=◌, ◌>>◌, reject_if, leb, ltb, length, get_or, ◌==◌,
  if◌then◌else◌,
}
use my_soft_plc.Types.Ascii.{bytes}
use my_soft_plc.Ir.Table.{bytes_eq}
use my_soft_plc.Ir.Bytes.{to_le_bytes, from_le_bytes, slice}
use my_soft_plc.Ir.Module.{IrModule, EntryPoint}

pub data SpbcError : Type 0 where
  short_header bad_magic truncated_table truncated_entry not_utf8 truncated_code long_name :
      SpbcError

-- What the next bytes of a UTF-8 text are to be: how many continue the character, and the range of
-- the first of them.
pub record Expected : Type 0 where
  pub left : ℕ
  pub least : ℕ
  pub most : ℕ

abbrev expect : ℕ → ℕ → ℕ → Option Expected
expect left least most = some (record { left = left; least = least; most = most })

abbrev between : ℕ → ℕ → ℕ → Bool
between lo hi b = leb lo b && leb b hi

-- The first byte of a character.
unfoldable utf8_first : ℕ → Option Expected
utf8_first b =
    if leb b 0x7f
    then expect 0 0x80 0xbf
    else if between 0xc2 0xdf b
    then expect 1 0x80 0xbf
    else if b == 0xe0
    then expect 2 0xa0 0xbf
    else if b == 0xed
    then expect 2 0x80 0x9f
    else if between 0xe1 0xef b
    then expect 2 0x80 0xbf
    else if b == 0xf0
    then expect 3 0x90 0xbf
    else if between 0xf1 0xf3 b
    then expect 3 0x80 0xbf
    else if b == 0xf4
    then expect 3 0x80 0x8f
    else none

unfoldable utf8_next : ℕ → ℕ → ℕ → ℕ → Option Expected
unfolding utf8_first
utf8_next zero least most b = utf8_first b
utf8_next (suc left) least most b = if between least most b then expect left 0x80 0xbf else none

unfoldable utf8_from : Option Expected → List ℕ → Bool
unfolding utf8_next
utf8_from none bs = false
utf8_from (some e) [] = e.left == 0
utf8_from (some e) (b ∷ bs) = utf8_from (utf8_next e.left e.least e.most b) bs

-- `str::from_utf8(bytes).is_ok()`.
unfoldable pub is_utf8 : List ℕ → Bool
unfolding utf8_from
is_utf8 bs = utf8_from (expect 0 0x80 0xbf) bs

abbrev pub starts_with : List ℕ → List ℕ → Bool
starts_with [] text = true
starts_with (p ∷ prefix) [] = false
starts_with (p ∷ prefix) (c ∷ text) = p == c && starts_with prefix text

unfoldable pub is_user_fb_name : List ℕ → Bool
is_user_fb_name name = starts_with (bytes "fb.") name || starts_with (bytes "FB.") name

abbrev pub magic : List ℕ
magic = bytes "SPBC"

abbrev pub read_u16 : List ℕ → ℕ → ℕ
read_u16 bs off = from_le_bytes (slice bs off 2)

abbrev pub read_u32 : List ℕ → ℕ → ℕ
read_u32 bs off = from_le_bytes (slice bs off 4)

-- The body of the loop: the entry at `off`, and the offset after it.
unfoldable pub parse_entry : List ℕ → ℕ → Result (EntryPoint × ℕ) SpbcError
unfolding is_utf8 is_user_fb_name
parse_entry bs off = do
  reject_if (leb (length bs) off) truncated_table
  let name_len = get_or bs off 0
  reject_if (ltb (length bs) (off + 1 + name_len + 4)) truncated_entry
  let name = slice bs (off + 1) name_len
  reject_if (not (is_utf8 name)) not_utf8
  ok (
    record {
      name = name;
      pc = read_u32 bs (off + 1 + name_len);
      is_user_fb = is_user_fb_name name;
    },
    off + 1 + name_len + 4,
  )

unfoldable pub parse_entries : ℕ → List ℕ → ℕ → Result (List EntryPoint × ℕ) SpbcError
parse_entries zero bs off = ok ([], off)
parse_entries (suc n) bs off = do
  (e, next) ← parse_entry bs off
  (rest, end) ← parse_entries n bs next
  ok (e ∷ rest, end)

-- What follows the table of the entries.
unfoldable pub parse_body : List ℕ → List EntryPoint → ℕ → Result IrModule SpbcError
parse_body bs entries off = do
  let code_size = read_u32 bs 8
  let const_size = read_u32 bs 12
  reject_if (ltb (length bs) (off + const_size + code_size)) truncated_code
  ok record {
    ir_major = read_u16 bs 4;
    ir_minor = read_u16 bs 6;
    const_size = const_size;
    data_size = read_u32 bs 16;
    retain_size = read_u32 bs 20;
    input_slots = read_u32 bs 24;
    output_slots = read_u32 bs 28;
    entries = entries;
    const_data = slice bs off const_size;
    code = slice bs (off + const_size) code_size;
  }

unfoldable pub parse_spbc : List ℕ → Result IrModule SpbcError
parse_spbc bs = do
  reject_if (ltb (length bs) 36) short_header
  reject_if (not (bytes_eq (slice bs 0 4) magic)) bad_magic
  reject_if (ltb ((length bs - 36) / 5) (read_u32 bs 32)) truncated_table
  (entries, off) ← parse_entries (read_u32 bs 32) bs 36
  parse_body bs entries off

unfoldable pub write_entries : List EntryPoint → Result (List ℕ) SpbcError
write_entries [] = ok []
write_entries (e ∷ rest) = do
  reject_if (ltb 255 (length e.name)) long_name
  more ← write_entries rest
  ok (length e.name % 2 ^ 8 ∷ (e.name ++ (to_le_bytes 4 e.pc ++ more)))

-- The bytes, field after field.
unfoldable pub write_spbc : IrModule → Result (List ℕ) SpbcError
write_spbc m = do
  table ← write_entries m.entries
  ok (
      magic
      ++ (to_le_bytes 2 m.ir_major
          ++ (to_le_bytes 2 m.ir_minor
              ++ (to_le_bytes 4 (length m.code % 2 ^ 32)
                  ++ (to_le_bytes 4 (length m.const_data % 2 ^ 32)
                      ++ (to_le_bytes 4 m.data_size
                          ++ (to_le_bytes 4 m.retain_size
                              ++ (to_le_bytes 4 m.input_slots
                                  ++ (to_le_bytes 4 m.output_slots
                                      ++ (to_le_bytes 4 (length m.entries % 2 ^ 32)
                                          ++ (table ++ (m.const_data ++ m.code))))))))))))
