-- ===== src/Ir/Bytes.antt =====
-- Little-endian words and slices, as Rust's `to_le_bytes`, `from_le_bytes` and `&bytes[i..j]` give
-- them. A byte is a number below 256.
use my_soft_plc.Prelude.{
  ℕ, zero, suc, ◌+◌, ◌*◌, ◌/◌, ◌%◌, ◌^◌, ◌<◌, ◌≡◌, refl, ap, List, [], ◌∷◌, ◌++◌, arith, length,
  take, drop, take-length, drop-length, All,
}

abbrev pub IsByte : ℕ → Type 0
IsByte b = b < 256

unfoldable pub to_le_bytes : ℕ → ℕ → List ℕ
to_le_bytes zero v = []
to_le_bytes (suc n) v = v % 256 ∷ to_le_bytes n (v / 256)

unfoldable pub from_le_bytes : List ℕ → ℕ
from_le_bytes [] = 0
from_le_bytes (b ∷ bs) = b + 256 * from_le_bytes bs

-- `&bytes[off..off + n]`, where the caller has checked the length.
unfoldable pub slice : List ℕ → ℕ → ℕ → List ℕ
slice bytes off n = take n (drop off bytes)

pub length-to_le_bytes : (n v : ℕ) → length (to_le_bytes n v) ≡ n
unfolding to_le_bytes
length-to_le_bytes zero v = refl
length-to_le_bytes (suc n) v = ap suc (length-to_le_bytes n (v / 256))

pub to_le_bytes-IsByte : (n v : ℕ) → All IsByte (to_le_bytes n v)
unfolding to_le_bytes
to_le_bytes-IsByte zero v = tt
to_le_bytes-IsByte (suc n) v = (omega arith, to_le_bytes-IsByte n (v / 256))

pub from-to_u16 : (v : ℕ) → v < 2 ^ 16 → from_le_bytes (to_le_bytes 2 v) ≡ v
unfolding to_le_bytes from_le_bytes
from-to_u16 v h = omega arith

pub from-to_u32 : (v : ℕ) → v < 2 ^ 32 → from_le_bytes (to_le_bytes 4 v) ≡ v
unfolding to_le_bytes from_le_bytes
from-to_u32 v h = omega arith

-- A slice out of the middle.
pub slice-middle :
    (before middle after : List ℕ) (off n : ℕ)
    → length before ≡ off
    → length middle ≡ n
    → slice (before ++ (middle ++ after)) off n ≡ middle
unfolding slice
slice-middle before middle after off n e k =
    rw (← e, ← k) (rw drop-length (take-length middle after))
