-- ===== src/Types/Ascii.antt =====
-- What the code uses of Rust's ASCII functions; a text is the list of its bytes.
use my_soft_plc.Prelude.{
  ℕ, ◌+◌, ◌-◌, ◌≡◌, refl, Bool, true, false, ◌&&◌, List, [], ◌∷◌, map, arith, leb, ◌==◌,
  if◌then◌else◌,
}
use Prim.Native.Char.{code}
use Prim.Native.String.{String}

abbrev pub bytes : String → List ℕ
bytes String.[] = []
bytes (String.◌∷◌ c s) = code c ∷ bytes s

unfoldable pub to_ascii_lowercase : ℕ → ℕ
to_ascii_lowercase c = if leb b'A' c && leb c b'Z' then c + 32 else c

-- `str::to_ascii_uppercase`.
unfoldable pub to_ascii_uppercase : List ℕ → List ℕ
to_ascii_uppercase = map (λ c. if leb b'a' c && leb c b'z' then c - 32 else c)

unfoldable pub eq_ignore_ascii_case : List ℕ → List ℕ → Bool
unfolding to_ascii_lowercase
eq_ignore_ascii_case [] [] = true
eq_ignore_ascii_case (a ∷ rest) (b ∷ other) =
    to_ascii_lowercase a == to_ascii_lowercase b && eq_ignore_ascii_case rest other
eq_ignore_ascii_case _ _ = false

-- The case is ignored on both sides: a text does for its lower case.
pub eq_ignore-replace :
    (s t u : List ℕ)
    → eq_ignore_ascii_case s t ≡ true
    → eq_ignore_ascii_case s u ≡ eq_ignore_ascii_case t u
unfolding eq_ignore_ascii_case
eq_ignore-replace [] [] u h = refl
eq_ignore-replace [] (b ∷ t) u h = cc
eq_ignore-replace (a ∷ s) [] u h = cc
eq_ignore-replace (a ∷ s) (b ∷ t) [] h = refl
eq_ignore-replace (a ∷ s) (b ∷ t) (c ∷ u) h = ground (arith, eq_ignore-replace s t u)
