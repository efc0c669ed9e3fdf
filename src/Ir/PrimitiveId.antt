-- ===== src/Ir/PrimitiveId.antt =====
-- The ids of the native function blocks (crates/plc-ir/src/opcode.rs).
use my_soft_plc.Prelude.{ℕ, Option, List, [], ◌∷◌}
use my_soft_plc.Types.Ascii.{bytes, to_ascii_uppercase}
use my_soft_plc.Ir.Table.{lookup_u8, lookup_text}

pub data PrimitiveId : Type 0 where
  ton tof tp ctu ctd rs sr r_trig f_trig pid : PrimitiveId

-- The discriminants, and the `match` on an id that the verifier and the machine have.
abbrev pub ids : List (ℕ × PrimitiveId)
ids =
    (1, ton)
    ∷ (2, tof)
    ∷ (3, tp)
    ∷ (4, ctu)
    ∷ (5, ctd)
    ∷ (6, rs)
    ∷ (7, sr)
    ∷ (8, r_trig)
    ∷ (9, f_trig)
    ∷ (10, pid)
    ∷ []

unfoldable pub from_id : ℕ → Option PrimitiveId
from_id v = lookup_u8 v ids

abbrev primitive_names : List (List ℕ × PrimitiveId)
primitive_names =
    (bytes "TON", ton)
    ∷ (bytes "TOF", tof)
    ∷ (bytes "TP", tp)
    ∷ (bytes "CTU", ctu)
    ∷ (bytes "CTD", ctd)
    ∷ (bytes "RS", rs)
    ∷ (bytes "SR", sr)
    ∷ (bytes "R_TRIG", r_trig)
    ∷ (bytes "RTRIG", r_trig)
    ∷ (bytes "F_TRIG", f_trig)
    ∷ (bytes "FTRIG", f_trig)
    ∷ (bytes "PID", pid)
    ∷ []

unfoldable pub from_name : List ℕ → Option PrimitiveId
unfolding to_ascii_uppercase
from_name s = lookup_text (to_ascii_uppercase s) primitive_names

unfoldable pub name : PrimitiveId → List ℕ
name ton = bytes "TON"
name tof = bytes "TOF"
name tp = bytes "TP"
name ctu = bytes "CTU"
name ctd = bytes "CTD"
name rs = bytes "RS"
name sr = bytes "SR"
name r_trig = bytes "R_TRIG"
name f_trig = bytes "F_TRIG"
name pid = bytes "PID"

unfoldable pub input_count : PrimitiveId → ℕ
input_count ton = 2
input_count tof = 2
input_count tp = 2
input_count ctu = 3
input_count ctd = 3
input_count rs = 2
input_count sr = 2
input_count r_trig = 1
input_count f_trig = 1
input_count pid = 3

unfoldable pub output_count : PrimitiveId → ℕ
output_count ton = 2
output_count tof = 2
output_count tp = 2
output_count ctu = 2
output_count ctd = 2
output_count rs = 1
output_count sr = 1
output_count r_trig = 1
output_count f_trig = 1
output_count pid = 1
