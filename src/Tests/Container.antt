-- ===== src/Tests/Container.antt =====
-- Runs of the container (crates/plc-ir/src/spbc.rs).
use my_soft_plc.Prelude.{
  false, ℕ, zero, suc, ◌+◌, ◌*◌, ◌≡◌, ◌≤◌, refl, true, List, [], ◌∷◌, ◌++◌, ok, err, arith, length,
}
use my_soft_plc.Types.Ascii.{bytes}
use my_soft_plc.Ir.Bytes.{from_le_bytes, slice}
use my_soft_plc.Ir.Module.{IrModule, EntryPoint}
use my_soft_plc.Ir.Spbc.{is_utf8, is_user_fb_name, parse_spbc, read_u32, truncated_table, bad_magic}
use my_soft_plc.Ir.Spbc.RoundTrip.{
  IsEntry, IsWritable, IsRestored, as_stored, reflagged, parse_spbc-write_spbc,
}
use my_soft_plc.Ir.Spbc.Bounds.{names_length, parse_spbc_bounds}

abbrev block : EntryPoint
block = record { name = bytes "fb.ramp"; pc = 4; is_user_fb = true }

block-IsEntry : IsEntry block
unfolding is_utf8
block-IsEntry = record { utf8 = refl; short = omega arith; narrow = omega arith }

abbrev stored : IrModule
stored = record {
  ir_major = 0;
  ir_minor = 1;
  const_size = 2;
  data_size = 16;
  retain_size = 8;
  input_slots = 1;
  output_slots = 1;
  entries = block ∷ [];
  const_data = 7 ∷ 9 ∷ [];
  code = 0 ∷ 0 ∷ 0 ∷ 1 ∷ [];
}

stored-IsWritable : IsWritable stored
stored-IsWritable = record {
  major = omega arith;
  minor = omega arith;
  consts = omega arith;
  coded = omega arith;
  data_size = omega arith;
  retain_size = omega arith;
  input_slots = omega arith;
  output_slots = omega arith;
  counted = omega arith;
  entries = (block-IsEntry, tt);
}

parse_spbc-write_spbc_example : IsRestored stored
parse_spbc-write_spbc_example = parse_spbc-write_spbc stored stored-IsWritable

-- The flag comes back where the name asks for it.
same_module : as_stored stored ≡ stored
unfolding is_user_fb_name
same_module = refl

-- `.entry ramp fb` of the assembler sets a flag that the container loses.
lost_flag :
    reflagged (record { name = bytes "ramp"; pc = 4; is_user_fb = true })
    ≡ record { name = bytes "ramp"; pc = 4; is_user_fb = false }
unfolding is_user_fb_name
lost_flag = refl

-- A header with no entries, one byte of constants and no code.
abbrev word : ℕ → List ℕ
word n = n ∷ 0 ∷ 0 ∷ 0 ∷ []

abbrev words : ℕ → List ℕ
words zero = []
words (suc n) = word 0 ++ words n

abbrev blob : List ℕ
blob = bytes "SPBC" ++ (0 ∷ 0 ∷ 1 ∷ 0 ∷ (word 0 ++ (word 1 ++ (word 4 ++ (words 4 ++ 5 ∷ [])))))

abbrev small : IrModule
small = record {
  ir_major = 0;
  ir_minor = 1;
  const_size = 1;
  data_size = 4;
  retain_size = 0;
  input_slots = 0;
  output_slots = 0;
  entries = [];
  const_data = 5 ∷ [];
  code = [];
}

blob_parsed : parse_spbc blob ≡ ok small
unfolding parse_spbc from_le_bytes slice my_soft_plc.Ir.Spbc.parse_body
    my_soft_plc.Ir.Spbc.parse_entries
blob_parsed = refl

parse_spbc_bounds_example :
    (36
        + 5 * length small.entries
        + names_length small.entries
        + length small.const_data
        + length small.code
      ≤ length blob)
    × (length small.const_data ≡ small.const_size)
    × (length small.entries ≡ read_u32 blob 32)
    × (length small.code ≡ read_u32 blob 8)
parse_spbc_bounds_example = parse_spbc_bounds blob small blob_parsed

-- As in the source's test: a count of entries that the bytes cannot hold.
abbrev huge : List ℕ
huge = bytes "SPBC" ++ (0 ∷ 0 ∷ 1 ∷ 0 ∷ (words 6 ++ (255 ∷ 255 ∷ 255 ∷ 255 ∷ words 2)))

huge_count : parse_spbc huge ≡ err truncated_table
unfolding parse_spbc from_le_bytes slice
huge_count = refl
