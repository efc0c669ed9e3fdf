-- ===== src/Types/OperatingMode/Names.antt =====
-- The wire names of the operating modes (crates/plc-types/src/mode.rs).
use my_soft_plc.Prelude.{ℕ, ◌≡◌, ◌∙◌, refl, ◌↔◌, true, some, List, arith}
use my_soft_plc.Types.Ascii.{bytes, to_ascii_lowercase, eq_ignore_ascii_case, eq_ignore-replace}
use my_soft_plc.Types.OperatingMode.{OperatingMode, stop, run, fault, sim, as_str, parse}

parse-eq :
    (s : List ℕ) (m : OperatingMode) → parse s ≡ some m → eq_ignore_ascii_case s (as_str m) ≡ true
unfolding parse as_str
parse-eq s m h = ground arith

parse-replace : (s t : List ℕ) → eq_ignore_ascii_case s t ≡ true → parse s ≡ parse t
unfolding parse
parse-replace s t h =
    rw
      (
        eq_ignore-replace s t (bytes "STOP") h,
        eq_ignore-replace s t (bytes "RUN") h,
        eq_ignore-replace s t (bytes "FAULT") h,
        eq_ignore-replace s t (bytes "SIM") h,
      )
      refl

parse-as_str : (m : OperatingMode) → parse (as_str m) ≡ some m
unfolding parse as_str eq_ignore_ascii_case to_ascii_lowercase
parse-as_str stop = refl
parse-as_str run = refl
parse-as_str fault = refl
parse-as_str sim = refl

-- A text is read as a mode exactly when it is the wire name of that mode, but for the case of its
-- ASCII letters.
pub parse_iff :
    (s : List ℕ) (m : OperatingMode)
    → (parse s ≡ some m) ↔ (eq_ignore_ascii_case s (as_str m) ≡ true)
parse_iff s m = (parse-eq s m, λ h. parse-replace s (as_str m) h ∙ parse-as_str m)
