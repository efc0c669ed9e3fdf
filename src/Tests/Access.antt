-- ===== src/Tests/Access.antt =====
-- Runs of the lockout of addresses (crates/plc-auth).
use my_soft_plc.Prelude.{◌+◌, ◌*◌, ◌≡◌, refl, none, some, List, [], ◌∷◌, arith}
use my_soft_plc.Auth.Lockout.{
  LockoutTracker, second, new, with_capacity, remaining_secs, locked_remaining, record_failure,
}
use my_soft_plc.Auth.Lockout.Capacity.{Event, asks, fails, run, IsBounded, run-IsBounded}
use my_soft_plc.Auth.Lockout.Locks.{IsLocked}
use my_soft_plc.Auth.Lockout.Kept.{record_failure-IsLocked}

-- Two failures lock an address for five minutes.
abbrev failed_once : LockoutTracker
unfolding record_failure new
failed_once = (record_failure (new 2 300) 7 0).0

abbrev locked_out : LockoutTracker
unfolding failed_once
locked_out = (record_failure failed_once 7 (10 * second)).0

is_locked_out : (record_failure failed_once 7 (10 * second)).1 ≡ some 300
unfolding record_failure failed_once
is_locked_out = refl

-- Another address fails, the address asks and fails again.
abbrev later : List Event
later = fails 8 (20 * second) ∷ asks 7 (30 * second) ∷ fails 7 (40 * second) ∷ []

was_free : (locked_remaining failed_once 7 (10 * second)).1 ≡ none
unfolding locked_remaining failed_once record_failure new
was_free = refl

is_set : record_failure failed_once 7 (10 * second) ≡ (locked_out, some 300)
unfolding record_failure failed_once locked_out
is_set = refl

record_failure-IsLocked_example :
    IsLocked (run later locked_out) 7 (10 * second + failed_once.lockout)
    × (300 ≡ remaining_secs (10 * second + failed_once.lockout) (10 * second))
unfolding record_failure failed_once locked_out new
record_failure-IsLocked_example =
    record_failure-IsLocked failed_once 7 (10 * second) later {after = locked_out} {secs = 300}
      was_free is_set (omega arith, (omega arith, (omega arith, tt))) (omega arith)

-- A map with room for one address: the failure of another takes the lock off.
lock_is_evicted :
    (locked_remaining (run (fails 1 0 ∷ fails 2 1 ∷ []) (with_capacity 1 300 1)) 1 2).1 ≡ none
unfolding run locked_remaining record_failure with_capacity
lock_is_evicted = refl

run-IsBounded_example :
    IsBounded 2 (run (fails 1 0 ∷ fails 2 1 ∷ asks 1 2 ∷ fails 3 3 ∷ []) (with_capacity 5 300 2))
run-IsBounded_example = run-IsBounded 5 300 2 (fails 1 0 ∷ fails 2 1 ∷ asks 1 2 ∷ fails 3 3 ∷ [])

-- The third address takes the place of the first.
first_is_evicted :
    (locked_remaining
      (run (fails 1 0 ∷ fails 2 1 ∷ fails 3 3 ∷ []) (with_capacity 5 300 2))
      1
      4).0.ips
    ≡ (2, record { failures = 1 ∷ []; locked_until = none })
      ∷ (3, record { failures = 3 ∷ []; locked_until = none })
      ∷ []
unfolding run locked_remaining record_failure with_capacity
first_is_evicted = refl
