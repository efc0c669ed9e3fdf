-- ===== src/Auth/Lockout/Locks.antt =====
-- The locks that the lockout of crates/plc-auth/src/lockout.rs sets.
use my_soft_plc.Prelude.{
  ℕ, ◌+◌, ◌<◌, ◌≡◌, refl, ap, subst, arith, Option, none, some, List, [], ◌∷◌, lt→ltb,
}
use my_soft_plc.Auth.Lockout.{
  IpState, LockoutTracker, lookup, put, add_failure, or_fresh, remaining_of, remaining_secs,
  locked_remaining, note_failure, with_room, after_check, record_failure,
}

lookup-put : (ip : ℕ) (s : IpState) (ips : List (ℕ × IpState)) → lookup ip (put ip s ips) ≡ some s
lookup-put ip s [] = ground arith
lookup-put ip s ((k, old) ∷ rest) = ground (arith, lookup-put ip s rest)

-- The address is locked until a time: a question or a failure before it is answered with the seconds
-- that are left and changes nothing.
pub record IsLocked (t : LockoutTracker) (ip until : ℕ) : Type 0 where
  pub asks :
      (now : ℕ) → now < until → locked_remaining t ip now ≡ (t, some (remaining_secs until now))
  pub fails :
      (now : ℕ) → now < until → record_failure t ip now ≡ (t, some (remaining_secs until now))

-- The address has an entry with a lock.
pub record HasLock (t : LockoutTracker) (ip until : ℕ) : Type 0 where
  pub entry : IpState
  pub at : lookup ip t.ips ≡ some entry
  pub until_time : entry.locked_until ≡ some until

locked_remaining-held :
    (t : LockoutTracker) (ip until : ℕ)
    → HasLock t ip until
    → (now : ℕ) → now < until
    → locked_remaining t ip now ≡ (t, some (remaining_secs until now))
unfolding locked_remaining remaining_of
locked_remaining-held t ip until h now before =
    rw (h.at, h.until_time, lt→ltb now until before) refl

pub HasLock-IsLocked :
    (t : LockoutTracker) (ip until : ℕ) → HasLock t ip until → IsLocked t ip until
unfolding record_failure after_check
HasLock-IsLocked t ip until h = record {
  asks = locked_remaining-held t ip until h;
  fails = λ now before. rw (locked_remaining-held t ip until h now before) refl;
}

add_failure-some :
    (t : LockoutTracker) (s : IpState) (now : ℕ) {secs : ℕ}
    → (add_failure t s now).1 ≡ some secs
    → ((add_failure t s now).0.locked_until ≡ some (now + t.lockout))
      × (secs ≡ remaining_secs (now + t.lockout) now)
unfolding add_failure
add_failure-some t s now h = (ground (arith, h), ground (arith, h))

note_failure-HasLock :
    (t : LockoutTracker) (ip now : ℕ) {after : LockoutTracker} {secs : ℕ}
    → note_failure t ip now ≡ (after, some secs)
    → HasLock after ip (now + t.lockout) × (secs ≡ remaining_secs (now + t.lockout) now)
unfolding note_failure
note_failure-HasLock t ip now h =
    let room = with_room t ip now in
    let s = (add_failure t (or_fresh (lookup ip room)) now).0 in
    let told =
      add_failure-some t (or_fresh (lookup ip room)) now
        (ap (λ (r : LockoutTracker × Option ℕ). r.1) h) in
    (
      subst (λ u. HasLock u ip (now + t.lockout)) (ap (λ (r : LockoutTracker × Option ℕ). r.0) h)
          record { entry = s; at = lookup-put ip s room; until_time = told.0 },
      told.1,
    )

remaining_of-lockout :
    (t : LockoutTracker) (ip now : ℕ) (o : Option IpState)
    → (remaining_of t ip now o).0.lockout ≡ t.lockout
unfolding remaining_of
remaining_of-lockout t ip now none = refl
remaining_of-lockout t ip now (some s) = ground arith

after_check-HasLock :
    (r : LockoutTracker × Option ℕ) (ip now : ℕ) {after : LockoutTracker} {secs : ℕ}
    → r.1 ≡ none
    → after_check r ip now ≡ (after, some secs)
    → HasLock after ip (now + r.0.lockout) × (secs ≡ remaining_secs (now + r.0.lockout) now)
unfolding after_check
after_check-HasLock (t, some told) ip now free h = cc
after_check-HasLock (t, none) ip now free h = note_failure-HasLock t ip now h

-- The failure that sets the lock.
pub record_failure-HasLock :
    (t : LockoutTracker) (ip now : ℕ) {after : LockoutTracker} {secs : ℕ}
    → (locked_remaining t ip now).1 ≡ none
    → record_failure t ip now ≡ (after, some secs)
    → HasLock after ip (now + t.lockout) × (secs ≡ remaining_secs (now + t.lockout) now)
unfolding record_failure locked_remaining
record_failure-HasLock t ip now {after = after} {secs = secs} free h =
    subst (λ l. HasLock after ip (now + l) × (secs ≡ remaining_secs (now + l) now))
      (remaining_of-lockout t ip now (lookup ip t.ips))
      (after_check-HasLock (locked_remaining t ip now) ip now free h)
