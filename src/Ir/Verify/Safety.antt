-- ===== src/Ir/Verify/Safety.antt =====
-- A code that the verifier accepts never leaves the code, never runs out of operands and never
-- overflows the operand stack (crates/plc-ir/src/verify.rs).
use my_soft_plc.Prelude.{
  ℕ, zero, suc, ◌+◌, ◌-◌, ◌≤◌, ◌<◌, ◌≡◌, refl, subst, subst₂, Bool, true, Option, none, some, List,
  [], ◌∷◌, Result, ok, err, inl, inr, arith, length, ℕ_discrete,
}
use my_soft_plc.Ir.Encode.{DecodedInstr, decode_instruction}
use my_soft_plc.Ir.Module.{IrModule}
use my_soft_plc.Ir.Verify.Transfer.{VerifyError, Stack, Effect, max_stack}
use my_soft_plc.Ir.Verify.Heights.{IsFaithful, pops, pushes, falls_through, jumps, HasPc}
use my_soft_plc.Ir.Verify.Cover.{Visited, IsCovered, Inv, round-Inv}
use my_soft_plc.Ir.Verify.Loop.{
  WorkItem, Seen, State, round, take_work, continue, verify_loop, start, enough_fuel, conclude,
  verify_entry,
}

-- A place and a height of the operand stack lead to the next: by going on, or by a jump.
pub data Step (m : IrModule) (pc h next h' : ℕ) : Type 0 where
  advance :
      (i : DecodedInstr) (size : ℕ)
      → decode_instruction m.code pc ≡ ok (i, size)
      → falls_through i ≡ true
      → next ≡ pc + size
      → h' ≡ h - pops i + pushes i
      → Step m pc h next h'
  jump :
      (i : DecodedInstr) (size : ℕ)
      → decode_instruction m.code pc ≡ ok (i, size)
      → jumps i ≡ some next
      → h' ≡ h - pops i + pushes i
      → Step m pc h next h'

-- What is reached from an entry with an empty stack, whichever way the branches go.
pub data Reach (m : IrModule) (entry_pc : ℕ) : ℕ → ℕ → Type 0 where
  enter : {pc h : ℕ} → pc ≡ entry_pc → h ≡ 0 → Reach m entry_pc pc h
  step : {pc h next h' : ℕ} → Reach m entry_pc pc h → Step m pc h next h' → Reach m entry_pc next h'

-- The place is in the code and has an instruction, its operands are on the stack, and the stack
-- holds at most 256 values before it and after it.
pub record IsSafe (m : IrModule) (pc h : ℕ) : Type 0 where
  pub inside : pc < length m.code
  pub instr : DecodedInstr
  pub size : ℕ
  pub decoded : decode_instruction m.code pc ≡ ok (instr, size)
  pub operands : pops instr ≤ h
  pub bounded : h ≤ max_stack
  pub room : h - pops instr + pushes instr ≤ max_stack

continue-ok :
    (s s' : State) (r : Result State VerifyError) (loop : State → Option (Result State VerifyError))
    → continue s (some r) loop ≡ some (ok s')
    → (next : State) × (r ≡ ok next) × (loop next ≡ some (ok s'))
unfolding continue
continue-ok s s' (err e) loop h = cc
continue-ok s s' (ok next) loop h = (next, refl, h)

taken-Inv :
    (m : IrModule) (u : Bool) (entry_pc : ℕ) (work : List WorkItem) (s s' : State)
    (loop : State → Option (Result State VerifyError))
    → ((next : State)
        → Inv m entry_pc next.seen next.work
        → loop next ≡ some (ok s')
        → Inv m entry_pc s'.seen [])
    → Inv m entry_pc s.seen work
    → continue s (take_work m u work s) loop ≡ some (ok s')
    → Inv m entry_pc s'.seen []
unfolding take_work
taken-Inv m u entry_pc [] s s' loop more v h =
    let same : s ≡ s' = unfold continue in cc in
    subst (λ (t : State). Inv m entry_pc t.seen []) same v
taken-Inv m u entry_pc (w ∷ rest) s s' loop more v h =
    let left : State = record s { work = rest } in
    let (next, ran, onward) = continue-ok s s' (round m u w left) loop h in
    more next (round-Inv m u entry_pc w left next v ran) onward

-- The loop ends with an empty work list, so that what is covered is seen.
loop-Inv :
    (fuel : ℕ) (m : IrModule) (u : Bool) (entry_pc : ℕ) (s s' : State)
    → Inv m entry_pc s.seen s.work
    → verify_loop fuel m u s ≡ some (ok s')
    → Inv m entry_pc s'.seen []
unfolding verify_loop
loop-Inv zero m u entry_pc s s' v h = cc
loop-Inv (suc fuel) m u entry_pc s s' v h =
    taken-Inv m u entry_pc s.work s s' (λ next. verify_loop fuel m u next)
      (λ next w l. loop-Inv fuel m u entry_pc next s' w l) v h

accepted :
    (o : Option (Result State VerifyError))
    → conclude o ≡ some (ok tt)
    → (s : State) × (o ≡ some (ok s))
accepted none h = cc
accepted (some (err e)) h = cc
accepted (some (ok s)) h = (s, refl)

start-Inv : (m : IrModule) (entry_pc : ℕ) → Inv m entry_pc [] (start entry_pc).work
start-Inv m entry_pc = record { done = λ pc s f. cc; entry = inr (inl (refl, refl)) }

covered-Visited : (seen : Seen) (pc n : ℕ) → IsCovered seen [] pc n → Visited seen pc n
covered-Visited seen pc n (inl v) = v
covered-Visited seen pc n (inr w) = absurd w

-- A seen place with its height, which the machine cannot exceed.
record IsKnown (seen : Seen) (pc h : ℕ) : Type 0 where
  visited : Visited seen pc h
  bounded : h ≤ max_stack

faithful_room :
    (i : DecodedInstr) (next : ℕ) (s : Stack) (e : Effect)
    → IsFaithful i next s e
    → length s ≤ max_stack
    → length e.stack ≤ max_stack
faithful_room i next s e f b = elim (ℕ_discrete (pushes i) 0) [
  | yes none_pushed ↦ omega (arith, f.room none_pushed)
  | no some_pushed ↦ f.capacity some_pushed
]

known-IsSafe :
    (m : IrModule) (entry_pc : ℕ) (seen : Seen) (pc h : ℕ)
    → Inv m entry_pc seen []
    → IsKnown seen pc h
    → IsSafe m pc h
known-IsSafe m entry_pc seen pc h v k =
    let d = v.done pc k.visited.stack k.visited.found in
    let high = k.visited.height in
    let room =
      faithful_room d.instr (pc + d.size) k.visited.stack d.effect d.faithful (rw high k.bounded) in
    record {
      inside = d.inside;
      instr = d.instr;
      size = d.size;
      decoded = d.decoded;
      operands = rw (← high) d.faithful.operands;
      bounded = k.bounded;
      room = omega (arith, d.faithful.height);
    }

-- The next place is known with the height that the machine has there.
IsKnown-on :
    (m : IrModule) (entry_pc : ℕ) (seen : Seen) (pc h next h' : ℕ) (i : DecodedInstr) (size : ℕ)
    → (v : Inv m entry_pc seen []) (k : IsKnown seen pc h)
    → decode_instruction m.code pc ≡ ok (i, size)
    → h' ≡ h - pops i + pushes i
    → ((e : Effect) → IsFaithful i (pc + size) k.visited.stack e → HasPc next e.next_pcs)
    → IsKnown seen next h'
IsKnown-on m entry_pc seen pc h next h' i size v k decoded e goes =
    let stack = k.visited.stack in
    let d = v.done pc stack k.visited.found in
    let same : d.instr ≡ i = cc (d.decoded) in
    let sized : d.size ≡ size = cc (d.decoded) in
    let f : IsFaithful i (pc + size) stack d.effect =
      subst₂ (λ j z. IsFaithful j (pc + z) stack d.effect) same sized d.faithful in
    let high : length d.effect.stack ≡ h' = omega (arith, f.height, k.visited.height, e) in
    record {
      visited =
          subst (λ n. Visited seen next n) high
            (covered-Visited seen next (length d.effect.stack) (d.covered next (goes d.effect f)));
      bounded =
          rw (← high)
            (faithful_room i (pc + size) stack d.effect f (rw k.visited.height k.bounded));
    }

IsKnown-step :
    (m : IrModule) (entry_pc : ℕ) (seen : Seen) (pc h next h' : ℕ)
    → Inv m entry_pc seen []
    → IsKnown seen pc h
    → Step m pc h next h'
    → IsKnown seen next h'
IsKnown-step m entry_pc seen pc h next h' v k (advance i size d f n e) =
    IsKnown-on m entry_pc seen pc h next h' i size v k d e
      (λ x faithful. rw n (rw f at faithful.onward))
IsKnown-step m entry_pc seen pc h next h' v k (jump i size d j e) =
    IsKnown-on m entry_pc seen pc h next h' i size v k d e (λ x faithful. rw j at faithful.target)

Reach-IsKnown :
    (m : IrModule) (entry_pc : ℕ) (seen : Seen) {pc h : ℕ}
    → Inv m entry_pc seen []
    → Reach m entry_pc pc h
    → IsKnown seen pc h
Reach-IsKnown m entry_pc seen v (enter e z) =
    rw (e, z) (record { visited = covered-Visited seen entry_pc 0 v.entry; bounded = omega arith })
Reach-IsKnown m entry_pc seen v (step r s) =
    IsKnown-step m entry_pc seen _ _ _ _ v (Reach-IsKnown m entry_pc seen v r) s

-- The entry with an empty stack.
pub verify_entry-IsSafe :
    (m : IrModule) (entry_pc : ℕ) (is_user_fb : Bool) {pc h : ℕ}
    → verify_entry m entry_pc is_user_fb ≡ some (ok tt)
    → Reach m entry_pc pc h
    → IsSafe m pc h
unfolding verify_entry
verify_entry-IsSafe m entry_pc is_user_fb v r =
    let (s, ended) = accepted (verify_loop (enough_fuel m) m is_user_fb (start entry_pc)) v in
    let inv =
      loop-Inv (enough_fuel m) m is_user_fb entry_pc (start entry_pc) s (start-Inv m entry_pc)
        ended in
    known-IsSafe m entry_pc s.seen _ _ inv (Reach-IsKnown m entry_pc s.seen inv r)
