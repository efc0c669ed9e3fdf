-- ===== src/Vm/Operators/Bounds.antt =====
-- The words that the integer arithmetic gives (crates/plc-vm/src/exec.rs).
use native.Mathlib.Nat.{div-lt_self}
use my_soft_plc.Prelude.{
  ℕ_discrete, ap, ℕ, zero, suc, ◌+◌, ◌-◌, ◌/◌, ◌%◌, ◌^◌, ◌<◌, ◌≡◌, ◌⊎◌, ◌↔◌, inl, inr, refl, sym,
  subst₂, arith, Bool, Bool-cases, true, false, Result, ok, err, ◌&&◌, if◌then◌else◌,
}
use my_soft_plc.Prelude.Int.{ℤ, pos, negsuc, ◌+ℤ◌, ◌-ℤ◌, ◌==ℤ◌, eq_of_parts}
use my_soft_plc.Prelude.Word.{
  half32, signed, unsigned, wrap, IsWord, unsigned_bound32, ◌*ℤ◌, quotient,
}
use my_soft_plc.Ir.Opcode.{Opcode, add, sub, mul, div}
use my_soft_plc.Vm.Operators.{Fault, panic, divide, int_arith}

signed-IsWord : (n : ℕ) → n < 2 ^ 32 → IsWord half32 (signed half32 n)
signed-IsWord n h = ground arith

wrap-IsWord : (a : ℤ) → IsWord half32 (wrap half32 a)
wrap-IsWord a = signed-IsWord (unsigned half32 a) (unsigned_bound32 a)

negate-IsWord : (a : ℕ) → a < suc half32 → IsWord half32 (pos 0 -ℤ pos a)
negate-IsWord a h = ground arith

-- A quotient of words is a word, but for the least word by -1.
quotient-IsWord :
    (x y : ℤ)
    → IsWord half32 x
    → IsWord half32 y
    → ((x ≡ negsuc (half32 - 1)) × (y ≡ negsuc 0) → ⊥)
    → IsWord half32 (quotient x y)
quotient-IsWord (pos a) (pos b) h k ne = (omega (arith, h), omega arith)
quotient-IsWord (pos a) (negsuc b) h k ne = negate-IsWord (a / suc b) (omega (arith, h))
quotient-IsWord (negsuc a) (pos b) h k ne = negate-IsWord (suc a / b) (omega (arith, h))
quotient-IsWord (negsuc a) (negsuc zero) h k ne = elim (ℕ_discrete a (half32 - 1)) [
  | yes least ↦ absurd (ne (ap negsuc least, refl))
  | no other ↦ (omega (arith, h), omega arith)
]
quotient-IsWord (negsuc a) (negsuc (suc b)) h k ne =
    let smaller : suc a / suc (suc b) < suc a = div-lt_self (omega arith) (omega arith) in
    (omega (arith, h), omega arith)

ok_inj : {a b : ℤ} → ◌≡◌ {A = Result ℤ Fault} (ok a) (ok b) → a ≡ b
ok_inj e = cc

-- The one division that does not fit.
abbrev pub IsOverflow : Opcode → ℤ → ℤ → Type 0
IsOverflow op x y = (op ≡ div) × (x ≡ negsuc (half32 - 1)) × (y ≡ negsuc 0)

least_by_minus_one :
    (x y : ℤ)
    → (x ==ℤ (pos 0 -ℤ pos half32)) && (y ==ℤ negsuc 0) ≡ true
    → (x ≡ negsuc (half32 - 1)) × (y ≡ negsuc 0)
least_by_minus_one x y h =
    (eq_of_parts x (negsuc (half32 - 1)) (ground arith), eq_of_parts y (negsuc 0) (ground arith))

abbrev branches : Bool → Bool → ℤ → ℕ → ℕ → Result ℤ Fault
branches zero_divisor least q d d' =
    let r : ℕ × Result ℤ Fault =
      if zero_divisor then (d', ok (pos 0)) else if least then (d, err panic) else (d, ok q) in
    r.1

divided :
    (zero_divisor least : Bool) (q v : ℤ) (d d' : ℕ)
    → branches zero_divisor least q d d' ≡ ok v
    → (v ≡ pos 0) ⊎ ((least ≡ false) × (v ≡ q))
divided zero_divisor least q v d d' e = ground arith

other_words :
    (x y : ℤ)
    → (x ==ℤ (pos 0 -ℤ pos half32)) && (y ==ℤ negsuc 0) ≡ false
    → (x ≡ negsuc (half32 - 1)) × (y ≡ negsuc 0)
    → ⊥
other_words x y h (p, q) =
    let t = subst₂ (λ a b. (a ==ℤ (pos 0 -ℤ pos half32)) && (b ==ℤ negsuc 0) ≡ false) p q h in
    ground arith

divide-IsWord :
    (x y : ℤ) (d : ℕ) (v : ℤ)
    → IsWord half32 x
    → IsWord half32 y
    → (divide half32 x y d).1 ≡ ok v
    → IsWord half32 v
unfolding divide
divide-IsWord x y d v h k e =
    elim (divided (y ==ℤ pos 0) ((x ==ℤ (pos 0 -ℤ pos half32)) && (y ==ℤ negsuc 0)) (quotient x y) v
      d ((d + 1) % 2 ^ 32) e) [
        | inl zeroed ↦ rw zeroed (omega arith, omega arith)
        | inr (other, fits) ↦ rw fits (quotient-IsWord x y h k (other_words x y other))
      ]

divide-panic :
    (x y : ℤ) (d : ℕ)
    → ((divide half32 x y d).1 ≡ err panic) ↔ ((x ≡ negsuc (half32 - 1)) × (y ≡ negsuc 0))
divide-panic x y d = (
  λ e. least_by_minus_one x y (unfold divide in ground arith),
  λ (p, q). unfold divide in rw (p, q) refl,
)

int_arith-IsWord :
    (op : Opcode) (x y : ℤ) (d : ℕ) (v : ℤ)
    → IsWord half32 x
    → IsWord half32 y
    → (int_arith op x y d).1 ≡ ok v
    → IsWord half32 v
unfolding int_arith
int_arith-IsWord div x y d v h k e = divide-IsWord x y d v h k e
int_arith-IsWord add x y d v h k e = rw (ok_inj (sym e)) (wrap-IsWord (x +ℤ y))
int_arith-IsWord sub x y d v h k e = rw (ok_inj (sym e)) (wrap-IsWord (x -ℤ y))
int_arith-IsWord mul x y d v h k e = rw (ok_inj (sym e)) (wrap-IsWord (x *ℤ y))
int_arith-IsWord _ x y d v h k e = rw (ok_inj (sym e)) (omega arith, omega arith)

int_arith-panic :
    (op : Opcode) (x y : ℤ) (d : ℕ) → ((int_arith op x y d).1 ≡ err panic) ↔ IsOverflow op x y
unfolding int_arith
int_arith-panic div x y d =
    let (to, from) = divide-panic x y d in
    (λ e. let (p, q) = to e in (refl, p, q), λ (o, p, q). from (p, q))
int_arith-panic add x y d = (λ e. cc, λ (o, p, q). cc)
int_arith-panic sub x y d = (λ e. cc, λ (o, p, q). cc)
int_arith-panic mul x y d = (λ e. cc, λ (o, p, q). cc)
int_arith-panic _ x y d = (λ e. cc, λ (o, p, q). cc)

divide-outcome :
    (x y : ℤ) (d : ℕ)
    → ((v : ℤ) × ((divide half32 x y d).1 ≡ ok v)) ⊎ ((divide half32 x y d).1 ≡ err panic)
unfolding divide
divide-outcome x y d = elim (Bool-cases (y ==ℤ pos 0)) [
  | inl zeroed ↦ inl (pos 0, rw zeroed refl)
  | inr other ↦ elim (Bool-cases ((x ==ℤ (pos 0 -ℤ pos half32)) && (y ==ℤ negsuc 0))) [
    | inl least ↦ inr (rw (other, least) refl)
    | inr fits ↦ inl (quotient x y, rw (other, fits) refl)
  ]
]

int_arith-outcome :
    (op : Opcode) (x y : ℤ) (d : ℕ)
    → ((v : ℤ) × ((int_arith op x y d).1 ≡ ok v)) ⊎ ((int_arith op x y d).1 ≡ err panic)
unfolding int_arith
int_arith-outcome div x y d = divide-outcome x y d
int_arith-outcome add x y d = inl (_, refl)
int_arith-outcome sub x y d = inl (_, refl)
int_arith-outcome mul x y d = inl (_, refl)
int_arith-outcome _ x y d = inl (_, refl)

-- A 32-bit operation on words gives a word or panics, and nothing else; it panics exactly on the
-- division of the least word by -1; a division by zero does not: it gives 0 and is counted.
pub int_arith_lem :
    (op : Opcode) (x y : ℤ) (d : ℕ)
    → IsWord half32 x
    → IsWord half32 y
    → (((v : ℤ) × ((int_arith op x y d).1 ≡ ok v) × IsWord half32 v)
        ⊎ ((int_arith op x y d).1 ≡ err panic))
      × (((int_arith op x y d).1 ≡ err panic) ↔ IsOverflow op x y)
      × (int_arith div x (pos 0) d ≡ ((d + 1) % 2 ^ 32, ok (pos 0)))
int_arith_lem op x y d h k = (
  elim (int_arith-outcome op x y d) [
    | inl (v, e) ↦ inl (v, e, int_arith-IsWord op x y d v h k e)
    | inr e ↦ inr e
  ],
  int_arith-panic op x y d,
  unfold int_arith divide in refl,
)
