-- ===== src/Ir/Verify/Rounds.antt =====
-- What an accepted round of the verifier did (crates/plc-ir/src/verify.rs).
use my_soft_plc.Prelude.{
  ◌<◌, ◌≡◌, refl, Bool, true, Option, none, some, ok, >>=-eq-ok, Bool-cases, inl, inr, arith,
  length, leb, ltb, reject_if,
}
use my_soft_plc.Ir.Encode.{decode_instruction}
use my_soft_plc.Ir.Module.{IrModule}
use my_soft_plc.Ir.Verify.Transfer.{rule, Stack, max_call_depth}
use my_soft_plc.Ir.Verify.Loop.{
  WorkItem, State, find, marked, run_decoded, visit, revisit, round, stacks_compatible,
}

-- The place was seen with a stack that fits, or it is new, inside the code, and its instruction
-- was accepted.
pub data RoundCase (m : IrModule) (u : Bool) (w : WorkItem) (s s' : State) : Type 0 where
  again :
      (prev : Stack)
      → find w.pc s.seen ≡ some prev
      → stacks_compatible prev w.stack ≡ true
      → s' ≡ s
      → RoundCase m u w s s'
  fresh :
      find w.pc s.seen ≡ none
      → w.pc < length m.code
      → run_decoded m u w (marked w s) (decode_instruction m.code w.pc) ≡ ok s'
      → RoundCase m u w s s'

visit_case :
    (m : IrModule) (u : Bool) (w : WorkItem) (s s' : State)
    → visit m u w s ≡ ok s'
    → (w.pc < length m.code)
      × (run_decoded m u w (marked w s) (decode_instruction m.code w.pc) ≡ ok s')
unfolding visit
visit_case m u w s s' h = elim (Bool-cases (leb (length m.code) w.pc)) [
  | inl out ↦ cc (rw out at h)
  | inr inside ↦ (ground arith, rw inside at h)
]

revisit_case :
    (m : IrModule) (u : Bool) (w : WorkItem) (s s' : State) (found : Option Stack)
    → find w.pc s.seen ≡ found
    → revisit m u w s found ≡ ok s'
    → RoundCase m u w s s'
unfolding revisit
revisit_case m u w s s' none f h = let (inside, ran) = visit_case m u w s s' h in fresh f inside ran
revisit_case m u w s s' (some prev) f h = elim (Bool-cases (stacks_compatible prev w.stack)) [
  | inl fits ↦ again prev f fits (ground arith)
  | inr clash ↦ cc (rw clash at h)
]

pub round_cases :
    (m : IrModule) (u : Bool) (w : WorkItem) (s s' : State)
    → round m u w s ≡ ok s'
    → RoundCase m u w s s'
unfolding round
round_cases m u w s s' h =
    let (_, _, more) = >>=-eq-ok (reject_if (ltb max_call_depth w.depth) (rule 5)) _ h in
    revisit_case m u w s s' (find w.pc s.seen) refl more
