-- ===== src/Retain/Crc.antt =====
-- The checksum of crates/plc-retain/src/crc.rs. The exclusive or of two words is written out on
-- their bits.
use my_soft_plc.Prelude.{
  ℕ, zero, suc, ◌+◌, ◌-◌, ◌*◌, ◌/◌, ◌%◌, ◌^◌, ◌<◌, ◌≡◌, refl, List, [], ◌∷◌, arith, ◌==◌,
  if◌then◌else◌,
}

-- `^` on words of so many bits.
unfoldable pub xor : ℕ → ℕ → ℕ → ℕ
xor zero a b = 0
xor (suc bits) a b = (a % 2 + b % 2) % 2 + 2 * xor bits (a / 2) (b / 2)

abbrev pub poly : ℕ
poly = 0xedb88320

-- `for _ in 0..8`.
unfoldable pub shift : ℕ → ℕ → ℕ
unfolding xor
shift zero crc = crc
shift (suc n) crc = let half = crc / 2 in shift n (if crc % 2 == 0 then half else xor 32 half poly)

unfoldable pub update : ℕ → List ℕ → ℕ
unfolding shift xor
update crc [] = crc
update crc (b ∷ rest) = update (shift 8 (xor 32 crc b)) rest

-- The last step inverts the bits.
unfoldable pub crc32 : List ℕ → ℕ
unfolding update
crc32 data_bytes = (2 ^ 32 - 1) - update (2 ^ 32 - 1) data_bytes

pub crc32-lt : (bs : List ℕ) → crc32 bs < 2 ^ 32
unfolding crc32
crc32-lt bs = omega arith

empty_crc : crc32 [] ≡ 0
unfolding crc32
empty_crc = refl

-- The check value of the polynomial, for "123456789".
known_crc : crc32 (49 ∷ 50 ∷ 51 ∷ 52 ∷ 53 ∷ 54 ∷ 55 ∷ 56 ∷ 57 ∷ []) ≡ 0xcbf43926
unfolding crc32
known_crc = refl
