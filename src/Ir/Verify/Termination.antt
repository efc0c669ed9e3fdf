-- ===== src/Ir/Verify/Termination.antt =====
-- The work list of the verifier runs empty (crates/plc-ir/src/verify.rs).
use my_soft_plc.Prelude.{
  ℕ, zero, suc, ◌+◌, ◌*◌, ◌≤◌, ◌<◌, ◌≡◌, ◌≢◌, refl, ap, Bool, Option, none, some, List, [], ◌∷◌,
  Result, ok, err, >>=-eq-ok, arith, length, bit, not, is_some,
}
use my_soft_plc.Ir.Encode.{DecodedInstr, DecodeError, decode_instruction}
use my_soft_plc.Ir.Module.{IrModule}
use my_soft_plc.Ir.Verify.Transfer.{VerifyError, Stack, Effect, transfer}
use my_soft_plc.Ir.Verify.Heights.{transfer-IsFaithful}
use my_soft_plc.Ir.Verify.Rounds.{again, fresh, round_cases}
use my_soft_plc.Ir.Verify.Loop.{
  marked, continue, WorkItem, Seen, State, find, push_each, follow, run_decoded, round, take_work,
  verify_loop, start, enough_fuel, conclude, verify_entry,
}

-- The places below `n` that are not seen.
unseen : ℕ → Seen → ℕ
unseen zero seen = 0
unseen (suc n) seen = bit (not (is_some (find n seen))) + unseen n seen

unseen-cons-le : (n pc : ℕ) (s : Stack) (seen : Seen) → unseen n ((pc, s) ∷ seen) ≤ unseen n seen
unfolding unseen
unseen-cons-le zero pc s seen = omega arith
unseen-cons-le (suc n) pc s seen = ground (arith, unseen-cons-le n pc s seen)

unseen-cons-lt :
    (n pc : ℕ) (s : Stack) (seen : Seen)
    → pc < n
    → find pc seen ≡ none
    → unseen n ((pc, s) ∷ seen) < unseen n seen
unfolding unseen
unseen-cons-lt zero pc s seen h f = absurd (omega arith)
unseen-cons-lt (suc n) pc s seen h f =
    ground (arith, unseen-cons-le n pc s seen, unseen-cons-lt n pc s seen)

unseen-nil : (n : ℕ) → unseen n [] ≡ n
unfolding unseen
unseen-nil zero = refl
unseen-nil (suc n) = omega (arith, unseen-nil n)

measure : IrModule → State → ℕ
measure m s = 2 * unseen (length m.code) s.seen + length s.work

length-push_each :
    (stack : Stack) (nexts : List (ℕ × ℕ)) (work : List WorkItem)
    → length (push_each stack nexts work) ≡ length nexts + length work
length-push_each stack [] work = omega arith
length-push_each stack ((pc, depth) ∷ rest) work =
    omega
      (arith, length-push_each stack rest (record { pc = pc; stack = stack; depth = depth } ∷ work))

follow_adds :
    (seen : Seen) (work : List WorkItem) (ended : Bool) (e : Effect) (s : State)
    → follow seen work ended e ≡ ok s
    → length e.next_pcs ≤ 2
    → (s.seen ≡ seen) × (length s.work ≤ length work + 2)
unfolding follow
follow_adds seen work ended e s h few = ground (arith, length-push_each e.stack e.next_pcs work)

run_decoded_adds :
    (m : IrModule) (u : Bool) (w : WorkItem) (s s' : State)
    (r : Result (DecodedInstr × ℕ) DecodeError)
    → run_decoded m u w s r ≡ ok s'
    → (s'.seen ≡ s.seen) × (length s'.work ≤ length s.work + 2)
unfolding run_decoded
run_decoded_adds m u w s s' (err e) h = cc
run_decoded_adds m u w s s' (ok (instr, size)) h =
    let (e, done, more) =
      >>=-eq-ok (transfer m u (w.pc + size) w.depth instr w.stack) (follow s.seen s.work s.ended_ok)
        h in
    follow_adds s.seen s.work s.ended_ok e s' more
      (transfer-IsFaithful m u (w.pc + size) w.depth instr w.stack e done).few

round_shrinks :
    (m : IrModule) (u : Bool) (w : WorkItem) (s s' : State)
    → round m u w s ≡ ok s'
    → measure m s' ≤ measure m s
unfolding measure
round_shrinks m u w s s' h = elim (round_cases m u w s s' h) [
  | again prev found fits same ↦ rw same (omega arith)
  | fresh new inside ran ↦
      let (seen, work) =
        run_decoded_adds m u w (marked w s) s' (decode_instruction m.code w.pc) ran in
      let fewer = unseen-cons-lt (length m.code) w.pc w.stack s.seen inside new in
      rw seen (omega arith)
]

take_shrinks :
    (m : IrModule) (u : Bool) (work : List WorkItem) (s s' : State)
    → s.work ≡ work
    → take_work m u work s ≡ some (ok s')
    → measure m s' < measure m s
unfolding take_work measure
take_shrinks m u [] s s' e h = cc
take_shrinks m u (w ∷ rest) s s' e h =
    let left : State = record s { work = rest } in
    let counted : length s.work ≡ suc (length rest) = ap length e in
    omega (arith, round_shrinks m u w left s' (cc))

continue_ends :
    (s : State) (taken : Option (Result State VerifyError))
    (loop : State → Option (Result State VerifyError))
    → ((next : State) → taken ≡ some (ok next) → loop next ≢ none)
    → continue s taken loop ≢ none
unfolding continue
continue_ends s none loop h = λ e. cc
continue_ends s (some (err x)) loop h = λ e. cc
continue_ends s (some (ok next)) loop h = h next refl

loop_ends :
    (fuel : ℕ) (m : IrModule) (u : Bool) (s : State)
    → measure m s < fuel
    → verify_loop fuel m u s ≢ none
unfolding verify_loop
loop_ends zero m u s h = absurd (omega arith)
loop_ends (suc fuel) m u s h =
    continue_ends s (take_work m u s.work s) (λ next. verify_loop fuel m u next)
      (λ next taken.
        loop_ends fuel m u next (omega (arith, take_shrinks m u s.work s next refl taken)))

start-measure : (m : IrModule) (pc : ℕ) → measure m (start pc) < enough_fuel m
unfolding measure
start-measure m pc = omega (arith, unseen-nil (length m.code))

concluded :
    (o : Option (Result State VerifyError))
    → o ≢ none
    → (r : Result (Unit {0}) VerifyError) × (conclude o ≡ some r)
concluded none h = absurd (h refl)
concluded (some (err e)) h = (err e, refl)
concluded (some (ok s)) h = (_, refl)

pub verify_entry-total :
    (m : IrModule) (entry_pc : ℕ) (is_user_fb : Bool)
    → (r : Result (Unit {0}) VerifyError) × (verify_entry m entry_pc is_user_fb ≡ some r)
unfolding verify_entry
verify_entry-total m entry_pc is_user_fb =
    concluded (verify_loop (enough_fuel m) m is_user_fb (start entry_pc))
      (loop_ends (enough_fuel m) m is_user_fb (start entry_pc) (start-measure m entry_pc))
