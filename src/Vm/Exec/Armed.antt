-- ===== src/Vm/Exec/Armed.antt =====
-- A machine that runs a module: its code, and the entries of its user blocks
-- (crates/plc-vm/src/exec.rs, `load`).
use my_soft_plc.Prelude.{
  ℕ, zero, suc, ◌-◌, ◌≡◌, ◌⊎◌, inl, inr, refl, sym, ◌∙◌, arith, Bool-cases, subst, true, Option,
  none, some, List, [], ◌∷◌, ◌++◌, ok, length, get_or, set, replicate,
}
use my_soft_plc.Ir.Module.{IrModule, EntryPoint}
use my_soft_plc.Ir.Verify.Accepted.{IsMember}
use my_soft_plc.Vm.Value.{FloatOps}
use my_soft_plc.Vm.State.{Vm, VmConfig, load, armed, register, register_all, resize}

-- The id that is registered is an entry of a user block.
pub record HasEntry (m : IrModule) (pc : ℕ) : Type 0 where
  pub entry : EntryPoint
  pub member : IsMember entry m.entries
  pub place : entry.pc ≡ pc
  pub user : entry.is_user_fb ≡ true

abbrev pub IsTable : IrModule → List (Option ℕ) → Type 0
IsTable m table = (id pc : ℕ) → get_or table id none ≡ some pc → HasEntry m pc

pub record IsArmed {ℓ} {F : Type ℓ} (m : IrModule) (vm : Vm F) : Type ℓ where
  pub code : vm.code ≡ m.code
  pub table : IsTable m vm.user_fb_pc

module _ {ℓ} {A : Type ℓ} where
  get_or-replicate : (n i : ℕ) (d : A) → get_or (replicate n d) i d ≡ d
  get_or-replicate zero i d = refl
  get_or-replicate (suc n) zero d = refl
  get_or-replicate (suc n) (suc i) d = get_or-replicate n i d

  get_or-resize : (xs : List A) (n i : ℕ) (d : A) → get_or (xs ++ replicate n d) i d ≡ get_or xs i d
  get_or-resize [] n i d = get_or-replicate n i d
  get_or-resize (x ∷ xs) n zero d = refl
  get_or-resize (x ∷ xs) n (suc i) d = get_or-resize xs n i d

  get_or-set_cases :
      (xs : List A) (i j : ℕ) (v d : A)
      → (get_or (set xs i v) j d ≡ v) ⊎ (get_or (set xs i v) j d ≡ get_or xs j d)
  get_or-set_cases [] i j v d = inr refl
  get_or-set_cases (x ∷ xs) zero zero v d = inl refl
  get_or-set_cases (x ∷ xs) zero (suc j) v d = inr refl
  get_or-set_cases (x ∷ xs) (suc i) zero v d = inr refl
  get_or-set_cases (x ∷ xs) (suc i) (suc j) v d = get_or-set_cases xs i j v d

module _ (m : IrModule) where
  set-IsTable :
      (table : List (Option ℕ)) (e : EntryPoint) (n idx : ℕ)
      → IsTable m table
      → IsMember e m.entries
      → e.is_user_fb ≡ true
      → IsTable m (set (resize table n) idx (some e.pc))
  set-IsTable table e n idx t i u id pc h =
      elim (get_or-set_cases (resize table n) idx id (some e.pc) none) [
        | inl new ↦ record { entry = e; member = i; place = cc; user = u }
        | inr old ↦ t id pc (sym (get_or-resize table (n - length table) id none) ∙ sym old ∙ h)
      ]

  register-IsTable :
      (table : List (Option ℕ)) (e : EntryPoint)
      → IsTable m table
      → IsMember e m.entries
      → IsTable m (register table e)
  register-IsTable table e t i = elim (Bool-cases e.is_user_fb) [
    | inl user ↦ unfold register in rw user (set-IsTable table e _ _ t i user)
    | inr task ↦ unfold register in rw task t
  ]

  register_all-IsTable :
      (rest : List EntryPoint) (table : List (Option ℕ))
      → ((e : EntryPoint) → IsMember e rest → IsMember e m.entries)
      → IsTable m table
      → IsTable m (register_all table rest)
  unfolding register_all
  register_all-IsTable [] table sub t = t
  register_all-IsTable (e ∷ rest) table sub t =
      register_all-IsTable rest (register table e) (λ x i. sub x (inr i))
        (register-IsTable table e t (sub e (inl refl)))

module _ {ℓ} {F : Type ℓ} (fl : FloatOps F) where
  armed-IsArmed : (m : IrModule) (config : VmConfig) → IsArmed m (armed fl m config)
  unfolding armed
  armed-IsArmed m config = record {
    code = refl;
    table = register_all-IsTable m m.entries [] (λ e i. i) (λ id pc h. cc);
  }

  pub load-IsArmed :
      (m : IrModule) (config : VmConfig) (vm : Vm F) → load fl m config ≡ ok vm → IsArmed m vm
  unfolding load
  load-IsArmed m config vm h =
      let same : armed fl m config ≡ vm = ground arith in
      subst (λ v. IsArmed m v) same (armed-IsArmed m config)
