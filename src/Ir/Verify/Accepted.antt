-- ===== src/Ir/Verify/Accepted.antt =====
-- What the verdict on a whole module says of its entries (crates/plc-ir/src/verify.rs).
use my_soft_plc.Prelude.{
  ℕ, ◌%◌, ◌≡◌, ◌≢◌, ◌⊎◌, subst, none, some, List, [], ◌∷◌, ok, inl, inr, arith,
}
use my_soft_plc.Ir.Module.{IrModule, EntryPoint}
use my_soft_plc.Ir.Verify.Loop.{verify_entry, check_entry, check_entries, verify_module}
use my_soft_plc.Ir.Verify.Termination.{verify_entry-total}
use my_soft_plc.Ir.Verify.Safety.{Reach, IsSafe, verify_entry-IsSafe}

abbrev pub IsMember : EntryPoint → List EntryPoint → Type 0
IsMember e [] = ⊥
IsMember e (x ∷ rest) = (x ≡ e) ⊎ IsMember e rest

check_entry-ok :
    (m : IrModule) (e : EntryPoint)
    → check_entry m e ≡ some (ok tt)
    → (verify_entry m e.pc e.is_user_fb ≡ some (ok tt)) × (e.pc % 4 ≡ 0)
unfolding check_entry
check_entry-ok m e h = ground arith

check_entries-ok :
    (m : IrModule) (e : EntryPoint) (entries : List EntryPoint)
    → check_entries m entries ≡ some (ok tt)
    → IsMember e entries
    → check_entry m e ≡ some (ok tt)
unfolding check_entries
check_entries-ok m e [] h i = absurd i
check_entries-ok m e (x ∷ rest) h (inl same) =
    subst (λ (z : EntryPoint). check_entry m z ≡ some (ok tt)) same (ground arith)
check_entries-ok m e (x ∷ rest) h (inr later) = check_entries-ok m e rest (ground arith) later

check_entry-total : (m : IrModule) (e : EntryPoint) → check_entry m e ≢ none
unfolding check_entry
check_entry-total m e h = ground (arith, verify_entry-total m e.pc e.is_user_fb)

check_entries-total : (m : IrModule) (entries : List EntryPoint) → check_entries m entries ≢ none
unfolding check_entries
check_entries-total m [] h = cc
check_entries-total m (x ∷ rest) h =
    ground (arith, check_entry-total m x, check_entries-total m rest)

-- The verifier gives a verdict on every module: its work lists run empty within the fuel.
pub verify_module-total : (m : IrModule) → verify_module m ≢ none
unfolding verify_module
verify_module-total m h = ground (arith, check_entries-total m m.entries)

verify_module-entry :
    (m : IrModule) (e : EntryPoint)
    → verify_module m ≡ some (ok tt)
    → IsMember e m.entries
    → check_entry m e ≡ some (ok tt)
unfolding verify_module
verify_module-entry m e h i = check_entries-ok m e m.entries (ground arith) i

-- If the verifier accepts a module, then from each of its entries with an empty operand stack,
-- whichever way the branches go: every place that is reached lies in the code and holds an
-- instruction, the operands of the instruction are on the stack, and the stack holds at most 256
-- values before the instruction and after it. A call of a user block is taken to return with the
-- stack as it was.
pub verify_module-IsSafe :
    (m : IrModule) (e : EntryPoint) {pc h : ℕ}
    → verify_module m ≡ some (ok tt)
    → IsMember e m.entries
    → Reach m e.pc pc h
    → IsSafe m pc h
verify_module-IsSafe m e v i r =
    verify_entry-IsSafe m e.pc e.is_user_fb (check_entry-ok m e (verify_module-entry m e v i)).0 r
