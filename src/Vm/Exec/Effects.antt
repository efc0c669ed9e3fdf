-- ===== src/Vm/Exec/Effects.antt =====
-- What the actions of a turn of the loop do to the height of the operand stack, and the errors that
-- they may end in (crates/plc-vm/src/exec.rs).
use my_soft_plc.Prelude.{
  ℕ, zero, suc, ◌+◌, ◌≤◌, ◌<◌, ◌≡◌, refl, ap, ◌∙◌, arith, List, [], ◌∷◌, Result, ok, err, length,
}
use my_soft_plc.Ir.PrimitiveId.{PrimitiveId}
use my_soft_plc.Ir.Verify.Transfer.{max_stack}
use my_soft_plc.Fb.Dispatch.{StackValue}
use my_soft_plc.Vm.Value.{VmValue, stack_underflow, stack_overflow, ret_outside_fb, decode}
use my_soft_plc.Vm.Operators.{Fault, error}
use my_soft_plc.Vm.State.{Vm, Action, pure, resume, ◌>>=◌}
use my_soft_plc.Vm.Value.{to_stack_value}
use my_soft_plc.Vm.Exec.{push, pop, popped, pop_inputs, push_outputs}

-- An error that an accepted code may end in, if the stack has held `peak` values: an overflow
-- above the limit, and no underflow, no undecodable instruction and no RET outside a block.
abbrev pub IsTame : ℕ → Fault → Type 0
IsTame peak (error (stack_underflow pc)) = ⊥
IsTame peak (error (decode pc)) = ⊥
IsTame peak (error (ret_outside_fb pc)) = ⊥
IsTame peak (error (stack_overflow pc)) = max_stack < peak
IsTame peak _ = Unit {0}

abbrev pub IsTameResult {ℓ} : {A : Type ℓ} → ℕ → Result A Fault → Type 0
IsTameResult peak (ok a) = Unit {0}
IsTameResult peak (err e) = IsTame peak e

-- The code, the table of the blocks and the call stack are as they were.
pub record Kept {ℓ} {F : Type ℓ} (vm vm' : Vm F) : Type ℓ where
  pub code : vm'.code ≡ vm.code
  pub table : vm'.user_fb_pc ≡ vm.user_fb_pc
  pub frames : vm'.frames ≡ vm.frames

module _ {ℓ} {F : Type ℓ} where
  pub Kept-refl : (vm : Vm F) → Kept vm vm
  Kept-refl vm = record { code = refl; table = refl; frames = refl }

  pub Kept-trans : {a b c : Vm F} → Kept a b → Kept b c → Kept a c
  Kept-trans k l = record {
    code = l.code ∙ k.code;
    table = l.table ∙ k.table;
    frames = l.frames ∙ k.frames;
  }

module _ {ℓ κ} {F : Type ℓ} {A : Type κ} where
  -- An outcome with `h` operands on the stack and a result with `Q`, or an error that may be.
  unfoldable pub Post : Vm F → ℕ → ℕ → (A → Type 0) → Vm F × Result A Fault → Type ℓ
  Post vm peak h Q (vm', ok a) = (length vm'.stack ≡ h) × Kept vm vm' × Q a
  Post vm peak h Q (vm', err e) = IsTame peak e × Kept vm vm'

-- Nothing is said of the result.
abbrev pub Any {κ} : {A : Type κ} → A → Type 0
Any a = Unit {0}

module _ {ℓ κ} (F : Type ℓ) {A : Type κ} where
  -- From `h` operands the action leads to `h'`.
  unfoldable pub Does : ℕ → ℕ → ℕ → (A → Type 0) → Action F A → Type ℓ
  unfolding Post
  Does peak h h' Q act = (vm : Vm F) → length vm.stack ≡ h → Post vm peak h' Q (act vm)

  pub Does-pure :
      (peak h h' : ℕ) (Q : A → Type 0) (a : A) → h ≡ h' → Q a → Does peak h h' Q (pure a)
  unfolding Does Post
  Does-pure peak h h' Q a k q vm e = (e ∙ k, Kept-refl vm, q)

  -- An action on other parts of the machine.
  pub Does-quiet :
      (peak h : ℕ) (act : Action F A)
      → ((vm : Vm F)
          → ((act vm).0.stack ≡ vm.stack) × Kept vm (act vm).0 × IsTameResult peak (act vm).1)
      → Does peak h h Any act
  unfolding Does Post
  Does-quiet peak h act quiet vm e = outcome (act vm) (quiet vm)
    where
      outcome :
          (r : Vm F × Result A Fault)
          → (r.0.stack ≡ vm.stack) × Kept vm r.0 × IsTameResult peak r.1
          → Post vm peak h Any r
      outcome (vm', ok a) (s, k, t) = (ap length s ∙ e, k, tt)
      outcome (vm', err f) (s, k, t) = (t, k)

module _ {ℓ κ μ} {F : Type ℓ} {B : Type μ} where
  Post-after :
      (vm vm' : Vm F) (peak h : ℕ) (Q : B → Type 0) (r : Vm F × Result B Fault)
      → Kept vm vm'
      → Post vm' peak h Q r
      → Post vm peak h Q r
  unfolding Post
  Post-after vm vm' peak h Q (last, ok b) k (e, l, q) = (e, Kept-trans k l, q)
  Post-after vm vm' peak h Q (last, err e) k (t, l) = (t, Kept-trans k l)

  Post-resume :
      {A : Type κ} (vm : Vm F) (peak h h' : ℕ) (P : A → Type 0) (Q : B → Type 0)
      (r : Vm F × Result A Fault) (f : A → Action F B)
      → Post vm peak h P r
      → ((a : A) → P a → Does F peak h h' Q (f a))
      → Post vm peak h' Q (resume r f)
  unfolding Does
  Post-resume vm peak h h' P Q (mid, ok a) f p k =
      unfold Post in
      (let (e, kept, q) = p in Post-after vm mid peak h' Q (f a mid) kept (k a q mid e))
  Post-resume vm peak h h' P Q (mid, err e) f p k = unfold Post in p

  pub Does-bind :
      {A : Type κ} (peak h mid h' : ℕ) (P : A → Type 0) (Q : B → Type 0) (m : Action F A)
      (f : A → Action F B)
      → Does F peak h mid P m
      → ((a : A) → P a → Does F peak mid h' Q (f a))
      → Does F peak h h' Q (m >>= f)
  unfolding Does
  Does-bind peak h mid h' P Q m f d k vm e = Post-resume vm peak mid h' P Q (m vm) f (d vm e) k

module _ {ℓ} {F : Type ℓ} where
  popped-Post :
      (peak h : ℕ) (vm : Vm F) (pc : ℕ) (stack : List (VmValue F))
      → length stack ≡ suc h
      → Post vm peak h Any (popped vm pc stack)
  unfolding Post
  popped-Post peak h vm pc [] e = absurd (omega arith)
  popped-Post peak h vm pc (v ∷ rest) e =
      (omega arith, record { code = refl; table = refl; frames = refl }, tt)

module _ {ℓ} (F : Type ℓ) where
  pub Does-pop : (peak h h' pc : ℕ) → h ≡ suc h' → Does F peak h h' Any (pop pc)
  unfolding Does pop
  Does-pop peak h h' pc k vm e = popped-Post peak h' vm pc vm.stack (e ∙ k)

module _ {ℓ} {F : Type ℓ} where
  pub Does-push :
      (peak h h' : ℕ) (v : VmValue F) (pc : ℕ)
      → suc h ≡ h'
      → h' ≤ peak
      → Does F peak h h' Any (push v pc)
  unfolding Does push Post
  Does-push peak h h' v pc k le vm e = ground (arith, Kept-refl vm)

  pub Does-pop_inputs :
      (peak n h h' : ℕ) (inputs : List (StackValue F)) (pc : ℕ)
      → h ≡ n + h'
      → Does F peak h h' Any (pop_inputs n inputs pc)
  unfolding pop_inputs
  Does-pop_inputs peak zero h h' inputs pc k = Does-pure F peak h h' Any inputs (omega arith) tt
  Does-pop_inputs peak (suc n) h h' inputs pc k =
      Does-bind peak h (n + h') h' Any Any (pop pc)
        (λ v. pop_inputs n (to_stack_value v ∷ inputs) pc)
        (Does-pop F peak h (n + h') pc (omega arith))
        (λ v p. Does-pop_inputs peak n (n + h') h' (to_stack_value v ∷ inputs) pc refl)

  pub Does-push_outputs :
      (peak n h h' : ℕ) (id : PrimitiveId) (values : List (StackValue F)) (pc : ℕ)
      → h' ≡ n + h
      → h' ≤ peak
      → Does F peak h h' Any (push_outputs id values n pc)
  unfolding push_outputs
  Does-push_outputs peak zero h h' id values pc k le = Does-pure F peak h h' Any tt (omega arith) tt
  Does-push_outputs peak (suc n) h h' id values pc k le =
      Does-bind peak h (suc h) h' Any Any _ _ (Does-push peak h (suc h) _ pc refl (omega arith))
        (λ v p. Does-push_outputs peak n (suc h) h' id values pc (omega arith) le)
