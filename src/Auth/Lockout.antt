-- ===== src/Auth/Lockout.antt =====
-- The lockout of source addresses (crates/plc-auth/src/lockout.rs). A time is in nanoseconds and an
-- address a number. The map of the addresses is an association list in the order of its iteration,
-- which the code leaves open: it decides only between victims of the same age.
pub mod Capacity
pub mod Locks
pub mod Kept
use my_soft_plc.Prelude.{
  ℕ, zero, suc, ◌+◌, ◌-◌, ◌*◌, ◌/◌, Bool, true, false, not, ◌&&◌, ◌||◌, Option, none, some, List,
  [], ◌∷◌, ◌++◌, leb, ltb, length, max, ◌==◌, if◌then◌else◌,
}

abbrev pub second : ℕ
second = 1000000000

abbrev pub fail_window : ℕ
fail_window = 60 * second

abbrev pub max_tracked_ips : ℕ
max_tracked_ips = 4096

-- The failures are in their order, the oldest first.
pub record IpState : Type 0 where
  pub failures : List ℕ
  pub locked_until : Option ℕ

pub record LockoutTracker : Type 0 where
  pub fail_per_min : ℕ  -- u32
  pub lockout : ℕ
  pub max_ips : ℕ
  pub ips : List (ℕ × IpState)

abbrev pub fresh : IpState
fresh = record { failures = []; locked_until = none }

abbrev pub is_before : ℕ → Option ℕ → Bool
is_before now none = false
is_before now (some until) = ltb now until

unfoldable pub locked : IpState → ℕ → Bool
locked s now = is_before now s.locked_until

-- A duration that saturates at 0.
unfoldable pub age : ℕ → List ℕ → List ℕ
age now [] = []
age now (t ∷ rest) =
    let younger = age now rest in if leb fail_window (now - t) then younger else t ∷ rest

unfoldable pub age_failures : IpState → ℕ → IpState
unfolding age
age_failures s now = record s { failures = age now s.failures }

abbrev is_nil : List ℕ → Bool
is_nil [] = true
is_nil _ = false

unfoldable pub is_idle : IpState → ℕ → Bool
unfolding locked
is_idle s now = not (locked s now) && is_nil s.failures

unfoldable pub with_capacity : ℕ → ℕ → ℕ → LockoutTracker
with_capacity fail_per_min lockout_secs max_ips = record {
  fail_per_min = max fail_per_min 1;
  lockout = max lockout_secs 1 * second;
  max_ips = max max_ips 1;
  ips = [];
}

unfoldable pub new : ℕ → ℕ → LockoutTracker
unfolding with_capacity
new fail_per_min lockout_secs = with_capacity fail_per_min lockout_secs max_tracked_ips

unfoldable pub remaining_secs : ℕ → ℕ → ℕ
remaining_secs until now = max ((until - now) / second) 1

-- The operations of the map.
abbrev pub lookup : ℕ → List (ℕ × IpState) → Option IpState
lookup ip [] = none
lookup ip ((k, s) ∷ rest) = let later = lookup ip rest in if k == ip then some s else later

abbrev pub remove : ℕ → List (ℕ × IpState) → List (ℕ × IpState)
remove ip [] = []
remove ip ((k, s) ∷ rest) = let kept = remove ip rest in if k == ip then kept else (k, s) ∷ kept

-- A write over the entry of the key, or a new entry.
abbrev pub put : ℕ → IpState → List (ℕ × IpState) → List (ℕ × IpState)
put ip new [] = (ip, new) ∷ []
put ip new ((k, s) ∷ rest) =
    let later = put ip new rest in if k == ip then (k, new) ∷ rest else (k, s) ∷ later

unfoldable pub remaining_of : LockoutTracker → ℕ → ℕ → Option IpState → LockoutTracker × Option ℕ
unfolding remaining_secs
remaining_of t ip now none = (t, none)
remaining_of t ip now (some s) = elim s.locked_until [
  | none ↦ (t, none)
  | some until ↦
      if ltb now until
      then (t, some (remaining_secs until now))
      else (record t { ips = put ip (record s { locked_until = none }) t.ips }, none)
]

unfoldable pub locked_remaining : LockoutTracker → ℕ → ℕ → LockoutTracker × Option ℕ
unfolding remaining_of
locked_remaining t ip now = remaining_of t ip now (lookup ip t.ips)

-- A lock that is over is taken off.
abbrev released : ℕ → Option ℕ → Option ℕ
released now none = none
released now (some until) = if leb until now then none else some until

-- An entry after the sweep.
unfoldable pub swept : IpState → ℕ → IpState
unfolding age_failures
swept s now = age_failures (record s { locked_until = released now s.locked_until }) now

unfoldable pub sweep : List (ℕ × IpState) → ℕ → List (ℕ × IpState)
unfolding swept is_idle
sweep [] now = []
sweep ((k, s) ∷ rest) now =
    let later = sweep rest now in
    if is_idle (swept s now) now then later else (k, swept s now) ∷ later

-- `min_by_key`: the first of the least.
module _ {ℓ} {A : Type ℓ} where
  abbrev pub least_from : (A → ℕ) → A → List A → A
  least_from key best [] = best
  least_from key best (x ∷ rest) =
      let with_x = least_from key x rest in
      let without = least_from key best rest in if ltb (key x) (key best) then with_x else without

  abbrev pub least : (A → ℕ) → List A → Option A
  least key [] = none
  least key (x ∷ rest) = some (least_from key x rest)

abbrev pub first_or : ℕ → List ℕ → ℕ
first_or now [] = now
first_or now (t ∷ rest) = t

abbrev pub until_or : ℕ → Option ℕ → ℕ
until_or now none = now
until_or now (some until) = until

unfoldable pub unlocked : List (ℕ × IpState) → ℕ → List (ℕ × IpState)
unfolding locked
unlocked [] now = []
unlocked ((k, s) ∷ rest) now =
    let later = unlocked rest now in if locked s now then later else (k, s) ∷ later

unfoldable pub oldest_unlocked : List (ℕ × IpState) → ℕ → Option (ℕ × IpState)
unfolding unlocked
oldest_unlocked ips now = least (λ (e : ℕ × IpState). first_or now e.1.failures) (unlocked ips now)

unfoldable pub soonest_lock : List (ℕ × IpState) → ℕ → Option (ℕ × IpState)
soonest_lock ips now = least (λ (e : ℕ × IpState). until_or now e.1.locked_until) ips

abbrev pub or_else : Option (ℕ × IpState) → Option (ℕ × IpState) → Option (ℕ × IpState)
or_else none b = b
or_else (some a) b = some a

unfoldable pub victim : List (ℕ × IpState) → ℕ → Option (ℕ × IpState)
unfolding oldest_unlocked soonest_lock
victim ips now = or_else (oldest_unlocked ips now) (soonest_lock ips now)

-- The loop takes as much fuel as there are entries: each turn removes one.
unfoldable pub evict : ℕ → ℕ → List (ℕ × IpState) → ℕ → List (ℕ × IpState)
unfolding victim
evict zero max_ips ips now = ips
evict (suc fuel) max_ips ips now = elim (victim ips now) [
  | none ↦ ips
  | some e ↦
      let rest = evict fuel max_ips (remove e.0 ips) now in
      if leb max_ips (length ips) then rest else ips
]

unfoldable pub evict_for_capacity : LockoutTracker → List (ℕ × IpState) → ℕ → List (ℕ × IpState)
unfolding evict
evict_for_capacity t ips now = evict (length ips) t.max_ips ips now

abbrev pub or_fresh : Option IpState → IpState
or_fresh none = fresh
or_fresh (some s) = s

-- The entry with the failure, and the lock that it may set.
unfoldable pub add_failure : LockoutTracker → IpState → ℕ → IpState × Option ℕ
unfolding age_failures remaining_secs
add_failure t s now =
    let failures = (age_failures s now).failures ++ now ∷ [] in
    let until = now + t.lockout in
    if leb t.fail_per_min (length failures)
    then (record { failures = []; locked_until = some until }, some (remaining_secs until now))
    else (record s { failures = failures }, none)

-- The map with room for the address.
unfoldable pub with_room : LockoutTracker → ℕ → ℕ → List (ℕ × IpState)
unfolding sweep evict_for_capacity
with_room t ip now =
    let left = sweep t.ips now in
    elim (lookup ip left) [ none ↦ evict_for_capacity t left now | some s ↦ left ]

-- A failure of an address that is not locked.
unfoldable pub note_failure : LockoutTracker → ℕ → ℕ → LockoutTracker × Option ℕ
unfolding with_room add_failure
note_failure t ip now =
    let room = with_room t ip now in
    let (s, secs) = add_failure t (or_fresh (lookup ip room)) now in
    (record t { ips = put ip s room }, secs)

unfoldable pub after_check : LockoutTracker × Option ℕ → ℕ → ℕ → LockoutTracker × Option ℕ
unfolding note_failure
after_check (t, some secs) ip now = (t, some secs)
after_check (t, none) ip now = note_failure t ip now

unfoldable pub record_failure : LockoutTracker → ℕ → ℕ → LockoutTracker × Option ℕ
unfolding locked_remaining after_check
record_failure t ip now = after_check (locked_remaining t ip now) ip now
