-- ===== src/Fb/Dispatch/Inputs.antt =====
-- The chain that reads the instance and the inputs of a call of a native block
-- (crates/plc-fb-primitives/src/dispatch.rs).
use my_soft_plc.Prelude.{◌≡◌, Option, some, ok, ok_or, ok_or-eq-ok, ◌>>=◌, >>=-eq-ok, subst}
use my_soft_plc.Fb.Dispatch.{bad_instance, type_mismatch}

-- The result of an arm that succeeds is built of the instance and of the inputs that it has read.
pub one_input {ℓ κ ρ} :
    {I : Type ℓ} {X : Type κ} {R : Type ρ} (P : R → Type ρ) (slot : Option I) (a : Option X)
    (f : I → X → R) {r : R}
    → (do inst ← ok_or slot bad_instance; x ← ok_or a type_mismatch; ok (f inst x)) ≡ ok r
    → ((inst : I) (x : X) → slot ≡ some inst → P (f inst x))
    → P r
one_input P slot a f h k =
    let (inst, found, h1) = >>=-eq-ok (ok_or slot bad_instance) _ h in
    let (x, read_x, h2) = >>=-eq-ok (ok_or a type_mismatch) _ h1 in
    subst P (cc) (k inst x (ok_or-eq-ok slot bad_instance found))

pub two_inputs {ℓ κ μ ρ} :
    {I : Type ℓ} {X : Type κ} {Y : Type μ} {R : Type ρ} (P : R → Type ρ) (slot : Option I)
    (a : Option X) (b : Option Y) (f : I → X → Y → R) {r : R}
    → (do
      inst ← ok_or slot bad_instance
      x ← ok_or a type_mismatch
      y ← ok_or b type_mismatch
      ok (f inst x y))
      ≡ ok r
    → ((inst : I) (x : X) (y : Y) → slot ≡ some inst → P (f inst x y))
    → P r
two_inputs P slot a b f h k =
    let (inst, found, h1) = >>=-eq-ok (ok_or slot bad_instance) _ h in
    let (x, read_x, h2) = >>=-eq-ok (ok_or a type_mismatch) _ h1 in
    let (y, read_y, h3) = >>=-eq-ok (ok_or b type_mismatch) _ h2 in
    subst P (cc) (k inst x y (ok_or-eq-ok slot bad_instance found))

pub three_inputs {ℓ κ μ ν ρ} :
    {I : Type ℓ} {X : Type κ} {Y : Type μ} {Z : Type ν} {R : Type ρ} (P : R → Type ρ)
    (slot : Option I) (a : Option X) (b : Option Y) (c : Option Z) (f : I → X → Y → Z → R) {r : R}
    → (do
      inst ← ok_or slot bad_instance
      x ← ok_or a type_mismatch
      y ← ok_or b type_mismatch
      z ← ok_or c type_mismatch
      ok (f inst x y z))
      ≡ ok r
    → ((inst : I) (x : X) (y : Y) (z : Z) → slot ≡ some inst → P (f inst x y z))
    → P r
three_inputs P slot a b c f h k =
    let (inst, found, h1) = >>=-eq-ok (ok_or slot bad_instance) _ h in
    let (x, read_x, h2) = >>=-eq-ok (ok_or a type_mismatch) _ h1 in
    let (y, read_y, h3) = >>=-eq-ok (ok_or b type_mismatch) _ h2 in
    let (z, read_z, h4) = >>=-eq-ok (ok_or c type_mismatch) _ h3 in
    subst P (cc) (k inst x y z (ok_or-eq-ok slot bad_instance found))
