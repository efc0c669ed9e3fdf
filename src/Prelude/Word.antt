-- ===== src/Prelude/Word.antt =====
-- Signed machine words in two's complement: the casts and the wrapping operations of Rust's `i16`,
-- `i32` and `i64`. The first argument is half of the number of words, 2 ^ (w - 1).
use my_soft_plc.Prelude.Tests.{ltb, ◌==◌, if◌then◌else◌}
use my_soft_plc.Prelude.Int.{ℤ, pos, negsuc, pos_part, neg_part, ◌-ℤ◌}
use Prim.Native.Nat.{ℕ, zero, suc, ◌+◌, ◌-◌, ◌*◌, ◌/◌, ◌%◌, ◌^◌, ◌<◌}
use mathlib.Core.Path.{◌≡◌}
use native.Mathlib.Omega.{arith}

abbrev pub half16 : ℕ
half16 = 2 ^ 15

abbrev pub half32 : ℕ
half32 = 2 ^ 31

abbrev pub half64 : ℕ
half64 = 2 ^ 63

-- The bits of the low word of an integer, `a as u32`.
abbrev pub unsigned : ℕ → ℤ → ℕ
unsigned half (pos n) = n % (2 * half)
unsigned half (negsuc n) = 2 * half - 1 - n % (2 * half)

-- A word as a signed number, `n as i32`.
abbrev pub signed : ℕ → ℕ → ℤ
signed half n = if ltb n half then pos n else negsuc (2 * half - 1 - n)

-- `a as i32` of a wider integer.
abbrev pub wrap : ℕ → ℤ → ℤ
wrap half a = signed half (unsigned half a)

-- -a - 1, that is `!a`.
abbrev pub complement : ℤ → ℤ
complement (pos n) = negsuc n
complement (negsuc n) = pos n

infixl 70 ◌*ℤ◌
abbrev pub ◌*ℤ◌ : ℤ → ℤ → ℤ
a *ℤ b =
    (pos (pos_part a * pos_part b + neg_part a * neg_part b))
    -ℤ pos (pos_part a * neg_part b + neg_part a * pos_part b)

-- The quotient rounded towards zero; the divisor is not zero.
abbrev pub quotient : ℤ → ℤ → ℤ
quotient (pos a) (pos b) = pos (a / b)
quotient (pos a) (negsuc b) = pos 0 -ℤ pos (a / suc b)
quotient (negsuc a) (pos b) = pos 0 -ℤ pos (suc a / b)
quotient (negsuc a) (negsuc b) = pos (suc a / suc b)

-- A bitwise operation, on so many bits.
abbrev pub bitwise : (ℕ → ℕ → ℕ) → ℕ → ℕ → ℕ → ℕ
bitwise op zero a b = 0
bitwise op (suc bits) a b = op (a % 2) (b % 2) + 2 * bitwise op bits (a / 2) (b / 2)

abbrev pub and_bit : ℕ → ℕ → ℕ
and_bit a b = a * b

abbrev pub or_bit : ℕ → ℕ → ℕ
or_bit a b = if a + b == 0 then 0 else 1

abbrev pub xor_bit : ℕ → ℕ → ℕ
xor_bit a b = (a + b) % 2

-- The integers of a word.
abbrev pub IsWord : ℕ → ℤ → Type 0
IsWord half a = (pos_part a < half) × (neg_part a < suc half)

pub signed-unsigned16 : (a : ℤ) → IsWord half16 a → signed half16 (unsigned half16 a) ≡ a
signed-unsigned16 (pos n) h = ground arith
signed-unsigned16 (negsuc n) h = ground arith

pub signed-unsigned32 : (a : ℤ) → IsWord half32 a → signed half32 (unsigned half32 a) ≡ a
signed-unsigned32 (pos n) h = ground arith
signed-unsigned32 (negsuc n) h = ground arith

pub signed-unsigned64 : (a : ℤ) → IsWord half64 a → signed half64 (unsigned half64 a) ≡ a
signed-unsigned64 (pos n) h = ground arith
signed-unsigned64 (negsuc n) h = ground arith

pub unsigned_bound16 : (a : ℤ) → unsigned half16 a < 2 ^ 16
unsigned_bound16 (pos n) = omega arith
unsigned_bound16 (negsuc n) = omega arith

pub unsigned_bound32 : (a : ℤ) → unsigned half32 a < 2 ^ 32
unsigned_bound32 (pos n) = omega arith
unsigned_bound32 (negsuc n) = omega arith

pub unsigned_bound64 : (a : ℤ) → unsigned half64 a < 2 ^ 64
unsigned_bound64 (pos n) = omega arith
unsigned_bound64 (negsuc n) = omega arith
