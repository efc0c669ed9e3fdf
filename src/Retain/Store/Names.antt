-- ===== src/Retain/Store/Names.antt =====
-- Which names of programs are accepted (crates/plc-retain/src/store.rs).
use my_soft_plc.Prelude.{ℕ, ◌≡◌, ◌≢◌, true, List, [], ◌∷◌, arith, All}
use my_soft_plc.Types.Ascii.{bytes}
use my_soft_plc.Retain.Store.{is_id_byte, all_id_bytes, is_valid_program_id}

-- Neither a separator of paths nor the byte 0.
abbrev pub IsPlain : ℕ → Type 0
IsPlain b = (b ≢ b'/') × (b ≢ b'\\') × (b ≢ b':') × (b ≢ 0)

is_id_byte-IsPlain : (b : ℕ) → is_id_byte b ≡ true → IsPlain b
is_id_byte-IsPlain b h =
    (λ e. ground arith, λ e. ground arith, λ e. ground arith, λ e. ground arith)

all_id_bytes-IsPlain : (id : List ℕ) → all_id_bytes id ≡ true → All IsPlain id
all_id_bytes-IsPlain [] h = tt
all_id_bytes-IsPlain (b ∷ rest) h =
    (is_id_byte-IsPlain b (ground arith), all_id_bytes-IsPlain rest (ground arith))

-- A name of a program that is accepted is one segment of a path: it is not empty, it is neither the
-- directory nor its parent, and it has no separator, no colon and no byte 0.
pub is_valid_program_id-IsPlain :
    (id : List ℕ)
    → is_valid_program_id id ≡ true
    → (id ≢ []) × (id ≢ bytes ".") × (id ≢ bytes "..") × All IsPlain id
unfolding is_valid_program_id
is_valid_program_id-IsPlain id h = (
  λ e. ground arith,
  λ e. ground arith,
  λ e. ground arith,
  all_id_bytes-IsPlain id (ground arith),
)
