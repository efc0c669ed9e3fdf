-- ===== src/Tests/Remapped.antt =====
-- Runs of the remap of retained values (crates/plc-retain/src/map.rs).
use my_soft_plc.Prelude.{◌≡◌, ◌⊎◌, refl, true, false, [], ◌∷◌, ◌++◌, ok, err, arith, map}
use my_soft_plc.Types.Ascii.{bytes}
use my_soft_plc.Ir.IrType.{int, dint, byte_width}
use my_soft_plc.Ir.Bytes.{slice}
use my_soft_plc.Retain.Codec.{RetainLayout, incompatible, record_of, records_from_image}
use my_soft_plc.Retain.Remap.{MappedRetain, map_retain, get, apply_loop, report_of}
use my_soft_plc.Retain.Symbols
use my_soft_plc.Retain.Symbols.{end_offset, duplicate, check_names, check_symbols, check_overlaps}
use my_soft_plc.Retain.Symbols.Accepted.{IsAccepted}
use my_soft_plc.Retain.Remap.Mapped.{IsMapped, IsRefused, map_retain_lem}
use my_soft_plc.Vm.Memory.{write_at}
use my_soft_plc.Tests.Retained.{layout, image}

-- `n` has moved, and `flag` is a DINT.
abbrev newer : RetainLayout
newer = record {
  retain_size = 8;
  symbols =
      record { name = bytes "flag"; ty = dint; offset = 0 }
      ∷ record { name = bytes "n"; ty = int; offset = 4 }
      ∷ record { name = bytes "x"; ty = int; offset = 6 }
      ∷ [];
}

layout-IsAccepted : IsAccepted layout
unfolding Symbols.new end_offset byte_width
layout-IsAccepted = record { given = layout.symbols; small = omega arith; accepted = refl }

newer-IsAccepted : IsAccepted newer
unfolding Symbols.new end_offset byte_width
newer-IsAccepted = record { given = newer.symbols; small = omega arith; accepted = refl }

map_retain_lem_example :
    ((mapped : MappedRetain) × (map_retain layout image newer true ≡ ok mapped)
      × IsMapped newer (map (record_of image) layout.symbols) true mapped)
    ⊎ IsRefused newer
        (map (record_of image) layout.symbols)
        true
        (map_retain layout image newer true)
map_retain_lem_example =
    map_retain_lem layout image newer true layout-IsAccepted newer-IsAccepted refl

-- Symbols of the same name are refused.
same_names : Symbols.new 4 (newer.symbols ++ layout.symbols) ≡ err duplicate
unfolding Symbols.new
same_names = refl

refused : map_retain layout image newer false ≡ err (incompatible (bytes "flag" ∷ []))
unfolding map_retain apply_loop get byte_width slice write_at report_of records_from_image
refused = refl

forced :
    map_retain layout image newer true
    ≡ ok (record {
      image = 0 ∷ 0 ∷ 0 ∷ 0 ∷ 7 ∷ 2 ∷ 0 ∷ 0 ∷ [];
      report = record {
        kept = 1;
        cold_defaults = 1;
        dropped = 0;
        zeroed_incompat = bytes "flag" ∷ [];
      };
    })
unfolding map_retain apply_loop get byte_width slice write_at report_of records_from_image
forced = refl
