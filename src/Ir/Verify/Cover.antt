-- ===== src/Ir/Verify/Cover.antt =====
-- The invariant of the work list: the instruction at each seen place was accepted, and each place
-- that it may go to is seen with the same height or waits (crates/plc-ir/src/verify.rs).
use my_soft_plc.Prelude.{
  ℕ, ◌+◌, ◌<◌, ◌≡◌, ◌≢◌, ◌∙◌, ◌⊎◌, refl, ap, sym, subst, subst₂, Bool, true, none, some, List, [],
  ◌∷◌, Result, ok, err, >>=-eq-ok, inl, inr, arith, length, ◌==◌, ==_iff, Bool-cases,
}
use my_soft_plc.Ir.Encode.{DecodedInstr, DecodeError, decode_instruction}
use my_soft_plc.Ir.Module.{IrModule}
use my_soft_plc.Ir.Verify.Transfer.{Stack, Effect, transfer}
use my_soft_plc.Ir.Verify.Heights.{IsFaithful, transfer-IsFaithful, HasPc}
use my_soft_plc.Ir.Verify.Rounds.{again, fresh, round_cases}
use my_soft_plc.Ir.Verify.Loop.{
  WorkItem, Seen, State, find, marked, push_each, follow, run_decoded, round, is_empty,
  stacks_compatible,
}

pub record Visited (seen : Seen) (pc n : ℕ) : Type 0 where
  pub stack : Stack
  pub found : find pc seen ≡ some stack
  pub height : length stack ≡ n

abbrev pub Waits : ℕ → ℕ → List WorkItem → Type 0
Waits pc n [] = ⊥
Waits pc n (w ∷ rest) = ((w.pc ≡ pc) × (length w.stack ≡ n)) ⊎ Waits pc n rest

-- The place is seen with this height, or will be looked at with it.
abbrev pub IsCovered : Seen → List WorkItem → ℕ → ℕ → Type 0
IsCovered seen work pc n = Visited seen pc n ⊎ Waits pc n work

-- The instruction at a seen place was accepted, and where it may go is covered.
pub record IsDone (m : IrModule) (seen : Seen) (work : List WorkItem) (pc : ℕ) (s : Stack)
    : Type 0 where
  pub inside : pc < length m.code
  pub instr : DecodedInstr
  pub size : ℕ
  pub decoded : decode_instruction m.code pc ≡ ok (instr, size)
  pub effect : Effect
  pub faithful : IsFaithful instr (pc + size) s effect
  pub covered :
      (next : ℕ) → HasPc next effect.next_pcs → IsCovered seen work next (length effect.stack)

pub record Inv (m : IrModule) (entry_pc : ℕ) (seen : Seen) (work : List WorkItem) : Type 0 where
  pub done : (pc : ℕ) (s : Stack) → find pc seen ≡ some s → IsDone m seen work pc s
  pub entry : IsCovered seen work entry_pc 0

length-compatible : (a b : Stack) → stacks_compatible a b ≡ true → length a ≡ length b
unfolding stacks_compatible
length-compatible [] [] h = refl
length-compatible [] (b ∷ bs) h = cc
length-compatible (a ∷ rest) [] h = cc
length-compatible (a ∷ rest) (b ∷ bs) h = ground (arith, length-compatible rest bs)

map-IsDone :
    (m : IrModule) (seen seen' : Seen) (work work' : List WorkItem)
    → ((pc n : ℕ) → IsCovered seen work pc n → IsCovered seen' work' pc n)
    → (pc : ℕ) (s : Stack) → IsDone m seen work pc s
    → IsDone m seen' work' pc s
map-IsDone m seen seen' work work' f pc s d = record {
  inside = d.inside;
  instr = d.instr;
  size = d.size;
  decoded = d.decoded;
  effect = d.effect;
  faithful = d.faithful;
  covered = λ next h. f next (length d.effect.stack) (d.covered next h);
}

-- A work item whose place was seen with a stack that fits.
again-covers :
    (w : WorkItem) (seen : Seen) (work : List WorkItem) (prev : Stack)
    → find w.pc seen ≡ some prev
    → stacks_compatible prev w.stack ≡ true
    → (pc n : ℕ) → IsCovered seen (w ∷ work) pc n
    → IsCovered seen work pc n
again-covers w seen work prev f c pc n (inl v) = inl v
again-covers w seen work prev f c pc n (inr (inr later)) = inr later
again-covers w seen work prev f c pc n (inr (inl (at, high))) = inl (record {
  stack = prev;
  found = subst (λ (k : ℕ). find k seen ≡ some prev) at f;
  height = length-compatible prev w.stack c ∙ high;
})

find-cons_ne :
    (pc k : ℕ) (s : Stack) (seen : Seen) → k ≢ pc → find pc ((k, s) ∷ seen) ≡ find pc seen
find-cons_ne pc k s seen n = ground arith

find-cons_self : (pc : ℕ) (s : Stack) (seen : Seen) → find pc ((pc, s) ∷ seen) ≡ some s
find-cons_self pc s seen = ground arith

Waits-push_each :
    (stack : Stack) (nexts : List (ℕ × ℕ)) (work : List WorkItem) (pc n : ℕ)
    → Waits pc n work
    → Waits pc n (push_each stack nexts work)
Waits-push_each stack [] work pc n h = h
Waits-push_each stack ((p, d) ∷ rest) work pc n h = Waits-push_each stack rest _ pc n (inr h)

HasPc-push_each :
    (stack : Stack) (nexts : List (ℕ × ℕ)) (work : List WorkItem) (pc : ℕ)
    → HasPc pc nexts
    → Waits pc (length stack) (push_each stack nexts work)
HasPc-push_each stack [] work pc h = absurd h
HasPc-push_each stack ((p, d) ∷ rest) work pc (inl e) =
    Waits-push_each stack rest _ pc (length stack) (inl (e, refl))
HasPc-push_each stack ((p, d) ∷ rest) work pc (inr h) = HasPc-push_each stack rest _ pc h

-- A new place with its work item taken, and what it pushed.
fresh-covers :
    (w : WorkItem) (seen : Seen) (work work' : List WorkItem)
    → find w.pc seen ≡ none
    → ((pc n : ℕ) → Waits pc n work → Waits pc n work')
    → (pc n : ℕ) → IsCovered seen (w ∷ work) pc n
    → IsCovered ((w.pc, w.stack) ∷ seen) work' pc n
fresh-covers w seen work work' f keep pc n (inl v) = inl (record {
  stack = v.stack;
  found =
      find-cons_ne pc w.pc w.stack seen (λ e. cc (sym f ∙ ap (λ (k : ℕ). find k seen) e ∙ v.found))
      ∙ v.found;
  height = v.height;
})
fresh-covers w seen work work' f keep pc n (inr (inr later)) = inr (keep pc n later)
fresh-covers w seen work work' f keep pc n (inr (inl (at, high))) = inl (record {
  stack = w.stack;
  found =
      subst (λ (k : ℕ). find k ((w.pc, w.stack) ∷ seen) ≡ some w.stack) at
        (find-cons_self w.pc w.stack seen);
  height = high;
})

-- What an accepted new place leaves: the work list grew, and the place is done.
pub record Followed (m : IrModule) (w : WorkItem) (seen : Seen) (work : List WorkItem) (s' : State)
    : Type 0 where
  pub same : s'.seen ≡ (w.pc, w.stack) ∷ seen
  pub keeps : (pc n : ℕ) → Waits pc n work → Waits pc n s'.work
  pub done : IsDone m s'.seen s'.work w.pc w.stack

abbrev pub HasFollowed : Seen → List WorkItem → Effect → State → Type 0
HasFollowed seen work e s' =
    (s'.seen ≡ seen)
    × ((pc n : ℕ) → Waits pc n work → Waits pc n s'.work)
    × ((pc : ℕ) → HasPc pc e.next_pcs → Waits pc (length e.stack) s'.work)

follow_done :
    (seen : Seen) (work : List WorkItem) (ended : Bool) (e : Effect) (s' : State)
    → (e.terminal ≡ true → e.next_pcs ≡ [])
    → follow seen work ended e ≡ ok s'
    → HasFollowed seen work e s'
unfolding follow
follow_done seen work ended e s' final h = elim (Bool-cases e.terminal) [
  | inl stops ↦
      let same : record { seen = seen; work = work; ended_ok = true } ≡ s' = cc (rw stops at h) in
      subst (HasFollowed seen work e) same
        (refl, (λ pc n later. later), (λ pc has. absurd (rw (final stops) at has)))
  | inr on ↦ elim (Bool-cases (is_empty e.next_pcs)) [
    | inl empty ↦ cc (rw (on, empty) at h)
    | inr more ↦
        let same : record {
          seen = seen;
          work = push_each e.stack e.next_pcs work;
          ended_ok = ended;
        }
            ≡ s' =
          cc (rw (on, more) at h) in
        subst (HasFollowed seen work e) same
          (refl, Waits-push_each e.stack e.next_pcs work, HasPc-push_each e.stack e.next_pcs work)
  ]
]

run_decoded-Followed :
    (m : IrModule) (u : Bool) (w : WorkItem) (s s' : State)
    (r : Result (DecodedInstr × ℕ) DecodeError)
    → w.pc < length m.code
    → decode_instruction m.code w.pc ≡ r
    → run_decoded m u w (marked w s) r ≡ ok s'
    → Followed m w s.seen s.work s'
unfolding run_decoded
run_decoded-Followed m u w s s' (err e) inside d h = cc
run_decoded-Followed m u w s s' (ok (instr, size)) inside d h =
    let seen = (w.pc, w.stack) ∷ s.seen in
    let (e, accepted, more) =
      >>=-eq-ok (transfer m u (w.pc + size) w.depth instr w.stack) (follow seen s.work s.ended_ok)
        h in
    let faithful = transfer-IsFaithful m u (w.pc + size) w.depth instr w.stack e accepted in
    let (same, keeps, pushed) = follow_done seen s.work s.ended_ok e s' faithful.final more in
    record {
      same = same;
      keeps = keeps;
      done = record {
        inside = inside;
        instr = instr;
        size = size;
        decoded = d;
        effect = e;
        faithful = faithful;
        covered = λ next has. inr (pushed next has);
      };
    }

fresh-Inv :
    (m : IrModule) (entry_pc : ℕ) (w : WorkItem) (seen : Seen) (work work' : List WorkItem)
    → find w.pc seen ≡ none
    → ((pc n : ℕ) → Waits pc n work → Waits pc n work')
    → IsDone m ((w.pc, w.stack) ∷ seen) work' w.pc w.stack
    → Inv m entry_pc seen (w ∷ work)
    → Inv m entry_pc ((w.pc, w.stack) ∷ seen) work'
fresh-Inv m entry_pc w seen work work' new keeps d v = record {
  done = at;
  entry = covers entry_pc 0 v.entry;
}
  where
    grown : Seen
    grown = (w.pc, w.stack) ∷ seen

    covers : (pc n : ℕ) → IsCovered seen (w ∷ work) pc n → IsCovered grown work' pc n
    covers = fresh-covers w seen work work' new keeps

    at : (pc : ℕ) (s : Stack) → find pc grown ≡ some s → IsDone m grown work' pc s
    at pc s f = elim (Bool-cases (w.pc == pc)) [
      | inl here ↦
          let same : w.pc ≡ pc = (==_iff w.pc pc).0 here in
          let top : w.stack ≡ s = cc (rw here at f) in
          subst₂ (λ k t. IsDone m grown work' k t) same top d
      | inr there ↦
          map-IsDone m seen grown (w ∷ work) work' covers pc s (v.done pc s (rw there at f))
    ]

pub round-Inv :
    (m : IrModule) (u : Bool) (entry_pc : ℕ) (w : WorkItem) (s s' : State)
    → Inv m entry_pc s.seen (w ∷ s.work)
    → round m u w s ≡ ok s'
    → Inv m entry_pc s'.seen s'.work
round-Inv m u entry_pc w s s' v h = elim (round_cases m u w s s' h) [
  | again prev found fits same ↦
      let covers = again-covers w s.seen s.work prev found fits in
      let kept : Inv m entry_pc s.seen s.work = record {
        done =
            λ pc st f. map-IsDone m s.seen s.seen (w ∷ s.work) s.work covers pc st (v.done pc st f);
        entry = covers entry_pc 0 v.entry;
      } in
      subst (λ (t : State). Inv m entry_pc t.seen t.work) (sym same) kept
  | fresh new inside ran ↦
      let f = run_decoded-Followed m u w s s' (decode_instruction m.code w.pc) inside refl ran in
      subst (λ (z : Seen). Inv m entry_pc z s'.work) (sym f.same)
        (fresh-Inv m entry_pc w s.seen s.work s'.work new f.keeps
          (subst (λ (z : Seen). IsDone m z s'.work w.pc w.stack) f.same f.done) v)
]
