-- ===== src/Auth/Lockout/Kept.antt =====
-- The locks that other addresses leave in place (crates/plc-auth/src/lockout.rs). In a map that is
-- full of locked addresses the eviction takes one of them.
use my_soft_plc.Prelude.{
  ℕ, zero, suc, ◌+◌, ◌≤◌, ◌<◌, ◌≡◌, ◌≢◌, refl, sym, ap, ◌∙◌, subst, arith, false, Bool-cases,
  Option, none, some, List, [], ◌∷◌, length, ltb, ◌==◌, inl, inr, Option-cases, All,
}
use my_soft_plc.Auth.Lockout.{
  IpState, LockoutTracker, lookup, put, locked, swept, is_idle, sweep, age_failures, victim, evict,
  evict_for_capacity, remaining_of, remaining_secs, locked_remaining, with_room, note_failure,
  after_check, record_failure,
}
use my_soft_plc.Auth.Lockout.Capacity.{
  Event, asks, fails, run, length-put_present, length-put_le, length-sweep,
}
use my_soft_plc.Auth.Lockout.Locks.{HasLock, IsLocked, HasLock-IsLocked, record_failure-HasLock}

lookup-put_ne :
    (ip other : ℕ) (s : IpState) (ips : List (ℕ × IpState))
    → other ≢ ip
    → lookup ip (put other s ips) ≡ lookup ip ips
lookup-put_ne ip other s [] differ = ground (arith, differ)
lookup-put_ne ip other s ((k, old) ∷ rest) differ =
    ground (arith, differ, lookup-put_ne ip other s rest differ)

-- The sweep keeps an entry whose lock is not over.
swept-locked :
    (s : IpState) (now until : ℕ)
    → s.locked_until ≡ some until
    → now < until
    → ((swept s now).locked_until ≡ some until) × (is_idle (swept s now) now ≡ false)
unfolding swept is_idle locked age_failures
swept-locked s now until at before = (ground (arith, at, before), ground (arith, at, before))

lookup-sweep :
    (ip : ℕ) (ips : List (ℕ × IpState)) (now until : ℕ) {s : IpState}
    → lookup ip ips ≡ some s
    → s.locked_until ≡ some until
    → now < until
    → lookup ip (sweep ips now) ≡ some (swept s now)
unfolding sweep
lookup-sweep ip [] now until found at before = cc
lookup-sweep ip ((k, old) ∷ rest) now until {s = s} found at before = elim (Bool-cases (k == ip)) [
  | inl same ↦
      let it : old ≡ s = ground (arith, found, same) in
      let shut = swept-locked old now until (ap (λ (x : IpState). x.locked_until) it ∙ at) before in
      rw (shut.1, same) (ap (λ x. some (swept x now)) it)
  | inr other ↦
      let later : lookup ip (sweep rest now) ≡ some (swept s now) =
        lookup-sweep ip rest now until {s = s} (ground (arith, found, other)) at before in
      ground (arith, later, other)
]

-- A map that has room for one more is not touched by the eviction.
evict_idle :
    (fuel most : ℕ) (ips : List (ℕ × IpState)) (now : ℕ)
    → length ips < most
    → evict fuel most ips now ≡ ips
unfolding evict
evict_idle zero most ips now room = refl
evict_idle (suc fuel) most ips now room = elim (Option-cases (victim ips now)) [
  | inl nobody ↦ ground (arith, nobody)
  | inr (e, found) ↦ ground (arith, found, room)
]

with_room_idle :
    (t : LockoutTracker) (ip now : ℕ)
    → length t.ips < t.max_ips
    → with_room t ip now ≡ sweep t.ips now
unfolding with_room evict_for_capacity
with_room_idle t ip now room = elim (Option-cases (lookup ip (sweep t.ips now))) [
  | inl absent ↦
      rw (absent, with_room)
        (evict_idle (length (sweep t.ips now)) t.max_ips (sweep t.ips now) now
          (omega (arith, length-sweep t.ips now, room)))
  | inr (s, present) ↦ rw (present, with_room) refl
]

-- The lock is in place after a step that adds so many entries at most.
record Keeps (ip until more : ℕ) (t next : LockoutTracker) : Type 0 where
  pub lock : HasLock next ip until
  pub capacity : next.max_ips ≡ t.max_ips
  pub size : length next.ips ≤ length t.ips + more

stays : (ip until more : ℕ) (t : LockoutTracker) → HasLock t ip until → Keeps ip until more t t
stays ip until more t h = record { lock = h; capacity = refl; size = omega arith }

-- Another entry is written.
put-HasLock :
    (t : LockoutTracker) (ip until other : ℕ) (s : IpState) (ips : List (ℕ × IpState))
    → other ≢ ip
    → (h : HasLock (record t { ips = ips }) ip until)
    → HasLock (record t { ips = put other s ips }) ip until
put-HasLock t ip until other s ips differ h = record {
  entry = h.entry;
  at = lookup-put_ne ip other s ips differ ∙ h.at;
  until_time = h.until_time;
}

remaining_of-Keeps :
    (t : LockoutTracker) (ip until other now : ℕ) (o : Option IpState)
    → lookup other t.ips ≡ o
    → HasLock t ip until
    → now < until
    → Keeps ip until 0 t (remaining_of t other now o).0
unfolding remaining_of
remaining_of-Keeps t ip until other now none at h before = stays ip until 0 t h
remaining_of-Keeps t ip until other now (some s) at h before = elim (Option-cases s.locked_until) [
  | inl free ↦ rw free (stays ip until 0 t h)
  | inr (u, shut) ↦ elim (Bool-cases (ltb now u)) [
    | inl held ↦ rw (shut, held) (stays ip until 0 t h)
    | inr over ↦
        let differ : other ≢ ip = λ e.
          let found : lookup ip t.ips ≡ some s = subst (λ k. lookup k t.ips ≡ some s) e at in
          let it : s ≡ h.entry = ground (arith, found, h.at) in
          let ends : some u ≡ some until =
            sym shut ∙ ap (λ (x : IpState). x.locked_until) it ∙ h.until_time in
          ground (arith, ends, over, before) in
        rw (shut, over)
          record {
            lock = put-HasLock t ip until other _ t.ips differ h;
            capacity = refl;
            size =
                omega (arith, length-put_present other (record s { locked_until = none }) t.ips at);
          }
  ]
]

note_failure-Keeps :
    (t : LockoutTracker) (ip until other now : ℕ)
    → other ≢ ip
    → HasLock t ip until
    → now < until
    → length t.ips < t.max_ips
    → Keeps ip until 1 t (note_failure t other now).0
unfolding note_failure
note_failure-Keeps t ip until other now differ h before room =
    let left = sweep t.ips now in
    let held : HasLock (record t { ips = left }) ip until = record {
      entry = swept h.entry now;
      at = lookup-sweep ip t.ips now until {s = h.entry} h.at h.until_time before;
      until_time = (swept-locked h.entry now until h.until_time before).0;
    } in
    rw (with_room_idle t other now room) record {
      lock = put-HasLock t ip until other _ left differ held;
      capacity = refl;
      size = omega (arith, length-put_le other _ left, length-sweep t.ips now);
    }

after_check-Keeps :
    (t : LockoutTracker) (ip until other now : ℕ) (r : LockoutTracker × Option ℕ)
    → other ≢ ip
    → Keeps ip until 0 t r.0
    → now < until
    → length t.ips < t.max_ips
    → Keeps ip until 1 t (after_check r other now).0
unfolding after_check note_failure
after_check-Keeps t ip until other now (u, some secs) differ k before room = record {
  lock = k.lock;
  capacity = k.capacity;
  size = omega (arith, k.size);
}
after_check-Keeps t ip until other now (u, none) differ k before room =
    let noted =
      note_failure-Keeps u ip until other now differ k.lock before
        (omega (arith, k.size, k.capacity, room)) in
    record {
      lock = noted.lock;
      capacity = noted.capacity ∙ k.capacity;
      size = omega (arith, noted.size, k.size);
    }

locked_remaining-Keeps :
    (t : LockoutTracker) (ip until other now : ℕ)
    → HasLock t ip until
    → now < until
    → Keeps ip until 0 t (locked_remaining t other now).0
unfolding locked_remaining
locked_remaining-Keeps t ip until other now h before =
    remaining_of-Keeps t ip until other now (lookup other t.ips) refl h before

record_failure-Keeps :
    (t : LockoutTracker) (ip until other now : ℕ)
    → HasLock t ip until
    → now < until
    → length t.ips < t.max_ips
    → Keeps ip until 1 t (record_failure t other now).0
unfolding record_failure
record_failure-Keeps t ip until other now h before room = elim (Bool-cases (other == ip)) [
  | inl same ↦
      let it : other ≡ ip = ground (arith, same) in
      let told = (HasLock-IsLocked t ip until h).fails now before in
      subst (λ k. Keeps ip until 1 t (record_failure t k now).0) (sym it)
        (subst (λ (r : LockoutTracker × Option ℕ). Keeps ip until 1 t r.0) (sym told)
          (stays ip until 1 t h))
  | inr differs ↦
      after_check-Keeps t ip until other now (locked_remaining t other now)
        (λ e. ground (arith, differs, e)) (locked_remaining-Keeps t ip until other now h before)
        before room
]

abbrev pub time_of : Event → ℕ
time_of (asks ip now) = now
time_of (fails ip now) = now

abbrev pub count_fails : List Event → ℕ
count_fails [] = 0
count_fails (asks ip now ∷ rest) = count_fails rest
count_fails (fails ip now ∷ rest) = suc (count_fails rest)

-- The lock outlives the events before its end, as long as the map has room for their addresses.
run-HasLock :
    (events : List Event) (t : LockoutTracker) (ip until : ℕ)
    → HasLock t ip until
    → All (λ e. time_of e < until) events
    → length t.ips + count_fails events ≤ t.max_ips
    → HasLock (run events t) ip until
unfolding run
run-HasLock [] t ip until h times room = h
run-HasLock (asks other now ∷ rest) t ip until h (before, times) room =
    let k = locked_remaining-Keeps t ip until other now h before in
    run-HasLock rest (locked_remaining t other now).0 ip until k.lock times
      (omega (arith, k.size, k.capacity, room))
run-HasLock (fails other now ∷ rest) t ip until h (before, times) room =
    let k = record_failure-Keeps t ip until other now h before (omega (arith, room)) in
    run-HasLock rest (record_failure t other now).0 ip until k.lock times
      (omega (arith, k.size, k.capacity, room))

-- When a failure of an address that is not locked is answered with seconds, its lock ends at the time
-- of the failure and the duration of the lock, and the seconds are those until then. After any
-- questions and failures, of this and of other addresses, in any order, at times before that end, and
-- as long as the map has room for as many more addresses as there are failures among them: up to the
-- end, each question and each failure of the address is answered with the seconds that are left,
-- and changes nothing.
pub record_failure-IsLocked :
    (t : LockoutTracker) (ip now : ℕ) (events : List Event) {after : LockoutTracker} {secs : ℕ}
    → (locked_remaining t ip now).1 ≡ none
    → record_failure t ip now ≡ (after, some secs)
    → All (λ e. time_of e < now + t.lockout) events
    → length after.ips + count_fails events ≤ after.max_ips
    → IsLocked (run events after) ip (now + t.lockout)
      × (secs ≡ remaining_secs (now + t.lockout) now)
record_failure-IsLocked t ip now events {after = after} {secs = secs} free h times room =
    let (lock, told) = record_failure-HasLock t ip now free h in
    (
      HasLock-IsLocked (run events after) ip (now + t.lockout)
          (run-HasLock events after ip (now + t.lockout) lock times room),
      told,
    )
