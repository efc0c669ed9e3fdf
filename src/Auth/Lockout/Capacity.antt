-- ===== src/Auth/Lockout/Capacity.antt =====
-- The bound on the addresses that the lockout of crates/plc-auth/src/lockout.rs tracks.
use my_soft_plc.Prelude.{
  ℕ, zero, suc, ◌≤◌, ◌<◌, ◌≡◌, refl, sym, ap, ◌∙◌, ◌≢◌, subst, arith, Bool-cases, Option, none,
  some, List, [], ◌∷◌, length, max, ltb, ◌==◌, inl, inr, Option-cases,
}
use my_soft_plc.Auth.Lockout.{
  IpState, LockoutTracker, with_capacity, lookup, remove, put, locked, sweep, least_from, least,
  unlocked, oldest_unlocked, soonest_lock, or_else, victim, evict, evict_for_capacity, remaining_of,
  locked_remaining, note_failure, with_room, after_check, record_failure,
}
use mathlib.Core.List.{Memᴰ}

abbrev Entries : Type 0
Entries = List (ℕ × IpState)

pub length-put_present :
    (ip : ℕ) (s : IpState) (ips : Entries) {found : IpState}
    → lookup ip ips ≡ some found
    → length (put ip s ips) ≡ length ips
length-put_present ip s [] h = cc
length-put_present ip s ((k, old) ∷ rest) {found = found} h = elim (Bool-cases (k == ip)) [
  | inl same ↦ ground (arith, same)
  | inr other ↦
      let later : length (put ip s rest) ≡ length rest =
        length-put_present ip s rest {found = found} (ground (arith, h, other)) in
      ground (arith, other, later)
]

pub length-put_le :
    (ip : ℕ) (s : IpState) (ips : Entries) → length (put ip s ips) ≤ suc (length ips)
length-put_le ip s [] = omega arith
length-put_le ip s ((k, old) ∷ rest) = ground (arith, length-put_le ip s rest)

length-remove_le : (ip : ℕ) (ips : Entries) → length (remove ip ips) ≤ length ips
length-remove_le ip [] = omega arith
length-remove_le ip ((k, old) ∷ rest) = ground (arith, length-remove_le ip rest)

length-remove :
    (e : ℕ × IpState) (ips : Entries) → Memᴰ e ips → length (remove e.0 ips) < length ips
length-remove e [] h = elim h [ ]
length-remove e ((k, old) ∷ rest) (Memᴰ.head same) =
    let at_head : k ≡ e.0 = sym (ap (λ (x : ℕ × IpState). x.0) same) in
    ground (arith, at_head, length-remove_le e.0 rest)
length-remove e ((k, old) ∷ rest) (Memᴰ.tail later) = ground (arith, length-remove e rest later)

module _ {ℓ} {A : Type ℓ} where
  Memᴰ-least_from :
      (key : A → ℕ) (best : A) (xs : List A) → Memᴰ (least_from key best xs) (best ∷ xs)
  Memᴰ-least_from key best [] = Memᴰ.head refl
  Memᴰ-least_from key best (x ∷ rest) = elim (Bool-cases (ltb (key x) (key best))) [
    | inl less ↦ rw less (Memᴰ.tail (Memᴰ-least_from key x rest))
    | inr more ↦ rw more (keep (Memᴰ-least_from key best rest))
  ]
    where
      keep : {a : A} → Memᴰ a (best ∷ rest) → Memᴰ a (best ∷ x ∷ rest)
      keep (Memᴰ.head same) = Memᴰ.head same
      keep (Memᴰ.tail later) = Memᴰ.tail (Memᴰ.tail later)

  Memᴰ-least : (key : A → ℕ) (xs : List A) {a : A} → least key xs ≡ some a → Memᴰ a xs
  Memᴰ-least key [] h = cc
  Memᴰ-least key (x ∷ rest) {a = a} h =
      subst (λ b. Memᴰ b (x ∷ rest)) {y = a} (ground (arith, h)) (Memᴰ-least_from key x rest)

Memᴰ-unlocked : (ips : Entries) (now : ℕ) {e : ℕ × IpState} → Memᴰ e (unlocked ips now) → Memᴰ e ips
unfolding unlocked
Memᴰ-unlocked [] now h = h
Memᴰ-unlocked ((k, s) ∷ rest) now {e = e} h = elim (Bool-cases (locked s now)) [
  | inl shut ↦ Memᴰ.tail (Memᴰ-unlocked rest now (subst (Memᴰ e) (rw shut refl) h))
  | inr free ↦
      keep (λ later. Memᴰ-unlocked rest now {e = e} later) (subst (Memᴰ e) (rw free refl) h)
]
  where
    keep :
        (Memᴰ e (unlocked rest now) → Memᴰ e rest)
        → Memᴰ e ((k, s) ∷ unlocked rest now)
        → Memᴰ e ((k, s) ∷ rest)
    keep deeper (Memᴰ.head same) = Memᴰ.head same
    keep deeper (Memᴰ.tail later) = Memᴰ.tail (deeper later)

-- The entry to evict is one of the map.
Memᴰ-victim : (ips : Entries) (now : ℕ) {e : ℕ × IpState} → victim ips now ≡ some e → Memᴰ e ips
unfolding victim oldest_unlocked soonest_lock
Memᴰ-victim ips now {e = e} h = elim (Option-cases (oldest_unlocked ips now)) [
  | inl nobody ↦ Memᴰ-least _ ips (subst (λ o. or_else o (soonest_lock ips now) ≡ some e) nobody h)
  | inr (a, found) ↦ Memᴰ-unlocked ips now (
      Memᴰ-least _ (unlocked ips now)
        (found ∙ subst (λ o. or_else o (soonest_lock ips now) ≡ some e) found h))
]

or_else-some : (a : Option (ℕ × IpState)) (b : ℕ × IpState) → or_else a (some b) ≢ none
or_else-some none b h = cc
or_else-some (some a) b h = cc

-- A map with entries has one to evict.
victim-none : (ips : Entries) (now : ℕ) → victim ips now ≡ none → length ips ≡ 0
unfolding victim oldest_unlocked soonest_lock
victim-none [] now h = refl
victim-none (e ∷ rest) now h = absurd (or_else-some (oldest_unlocked (e ∷ rest) now) _ h)

-- The eviction makes room, with as much fuel as there are entries.
length-evict :
    (fuel most : ℕ) (ips : Entries) (now : ℕ)
    → length ips ≤ fuel
    → 1 ≤ most
    → length (evict fuel most ips now) < most
unfolding evict
length-evict zero most ips now enough some_room = omega (arith, enough, some_room)
length-evict (suc fuel) most ips now enough some_room = elim (Option-cases (victim ips now)) [
  | inl nobody ↦ ground (arith, nobody, victim-none ips now nobody)
  | inr (e, found) ↦
      let less : length (remove e.0 ips) < length ips =
        length-remove e ips (Memᴰ-victim ips now found) in
      let rest : length (evict fuel most (remove e.0 ips) now) < most =
        length-evict fuel most (remove e.0 ips) now (omega arith) some_room in
      ground (arith, found, rest)
]

pub length-sweep : (ips : Entries) (now : ℕ) → length (sweep ips now) ≤ length ips
unfolding sweep
length-sweep [] now = omega arith
length-sweep ((k, s) ∷ rest) now = ground (arith, length-sweep rest now)

-- The tracker is within a capacity, which is its own.
pub record IsBounded (most : ℕ) (t : LockoutTracker) : Type 0 where
  pub positive : 1 ≤ t.max_ips
  pub capacity : t.max_ips ≡ most
  pub within : length t.ips ≤ t.max_ips

with_capacity-IsBounded :
    (per_min secs most : ℕ) → IsBounded (max most 1) (with_capacity per_min secs most)
unfolding with_capacity
with_capacity-IsBounded per_min secs most = record {
  positive = omega arith;
  capacity = refl;
  within = omega arith;
}

remaining_of-IsBounded :
    {most : ℕ} (t : LockoutTracker) (ip now : ℕ) (o : Option IpState)
    → lookup ip t.ips ≡ o
    → IsBounded most t
    → IsBounded most (remaining_of t ip now o).0
unfolding remaining_of
remaining_of-IsBounded t ip now none at h = h
remaining_of-IsBounded t ip now (some s) at h = elim (Option-cases s.locked_until) [
  | inl free ↦ rw free h
  | inr (until, shut) ↦ rw shut (elim (Bool-cases (ltb now until)) [
    | inl shut ↦ rw shut h
    | inr over ↦ rw over record {
      positive = h.positive;
      capacity = h.capacity;
      within =
          omega
            (arith, length-put_present ip (record s { locked_until = none }) t.ips at, h.within);
    }
  ])
]

locked_remaining-IsBounded :
    {most : ℕ} (t : LockoutTracker) (ip now : ℕ)
    → IsBounded most t
    → IsBounded most (locked_remaining t ip now).0
unfolding locked_remaining
locked_remaining-IsBounded t ip now h = remaining_of-IsBounded t ip now (lookup ip t.ips) refl h

note_failure-IsBounded :
    {most : ℕ} (t : LockoutTracker) (ip now : ℕ)
    → IsBounded most t
    → IsBounded most (note_failure t ip now).0
unfolding note_failure with_room evict_for_capacity
note_failure-IsBounded t ip now h = elim (Option-cases (lookup ip left)) [
  | inl absent ↦
      rw (absent, with_room)
        record {
          positive = h.positive;
          capacity = h.capacity;
          within = omega (
            arith,
            length-put_le ip _ (evict (length left) t.max_ips left now),
            length-evict (length left) t.max_ips left now (omega arith) h.positive,
          );
        }
  | inr (s, present) ↦
      rw (present, with_room)
        record {
          positive = h.positive;
          capacity = h.capacity;
          within =
              omega (arith, length-put_present ip _ left present, length-sweep t.ips now, h.within);
        }
]
  where
    left : Entries
    left = sweep t.ips now

after_check-IsBounded :
    {most : ℕ} (r : LockoutTracker × Option ℕ) (ip now : ℕ)
    → IsBounded most r.0
    → IsBounded most (after_check r ip now).0
unfolding after_check note_failure
after_check-IsBounded (t, some secs) ip now h = h
after_check-IsBounded (t, none) ip now h = note_failure-IsBounded t ip now h

record_failure-IsBounded :
    {most : ℕ} (t : LockoutTracker) (ip now : ℕ)
    → IsBounded most t
    → IsBounded most (record_failure t ip now).0
unfolding record_failure
record_failure-IsBounded t ip now h =
    after_check-IsBounded (locked_remaining t ip now) ip now (locked_remaining-IsBounded t ip now h)

-- What the server does with an address: it asks for a lock, or it reports a failure.
pub data Event : Type 0 where
  asks : ℕ → ℕ → Event
  fails : ℕ → ℕ → Event

unfoldable pub run : List Event → LockoutTracker → LockoutTracker
unfolding locked_remaining record_failure
run [] t = t
run (asks ip now ∷ rest) t = run rest (locked_remaining t ip now).0
run (fails ip now ∷ rest) t = run rest (record_failure t ip now).0

run-keeps_IsBounded :
    (events : List Event) {most : ℕ} (t : LockoutTracker)
    → IsBounded most t
    → IsBounded most (run events t)
unfolding run
run-keeps_IsBounded [] t h = h
run-keeps_IsBounded (asks ip now ∷ rest) t h =
    run-keeps_IsBounded rest _ (locked_remaining-IsBounded t ip now h)
run-keeps_IsBounded (fails ip now ∷ rest) t h =
    run-keeps_IsBounded rest _ (record_failure-IsBounded t ip now h)

-- Whatever the addresses, the times and the order of the questions and the failures, a tracker
-- that starts empty with a capacity (at least 1) never holds more addresses than that, so the
-- eviction always makes room.
pub run-IsBounded :
    (per_min secs most : ℕ) (events : List Event)
    → IsBounded (max most 1) (run events (with_capacity per_min secs most))
run-IsBounded per_min secs most events =
    run-keeps_IsBounded events _ (with_capacity-IsBounded per_min secs most)
