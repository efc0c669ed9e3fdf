-- ===== src/Scan/RetainSignal.antt =====
-- The signal of dirty retained values (crates/plc-scan/src/retain_signal.rs). `notify` and `take` are
-- two accesses each to the two atomics, and a thread can be between its two; one thread notifies
-- and one takes.
pub mod Reported
use my_soft_plc.Prelude.{ℕ, ◌+◌, ◌%◌, ◌^◌, Bool, true, false, List, [], ◌∷◌, if◌then◌else◌}

pub record RetainDirtySignal : Type 0 where
  pub dirty : Bool
  pub seq : ℕ  -- u64

abbrev pub new : RetainDirtySignal
new = record { dirty = false; seq = 0 }

-- `fetch_add(1)` of `notify`, and its `store(true)`.
unfoldable pub bump : RetainDirtySignal → RetainDirtySignal
bump s = record s { seq = (s.seq + 1) % 2 ^ 64 }

unfoldable pub mark : RetainDirtySignal → RetainDirtySignal
mark s = record s { dirty = true }

-- `swap(false)` of `take`; what was there decides whether the sequence is read.
unfoldable pub swap_dirty : RetainDirtySignal → RetainDirtySignal × Bool
swap_dirty s = (record s { dirty = false }, s.dirty)

-- The threads: whether `notify` has bumped and not yet marked, whether `take` has found the flag and
-- not yet read the sequence, and the sequences of the events that it has returned, the newest first.
pub record System : Type 0 where
  pub signal : RetainDirtySignal
  pub bumped : Bool
  pub reading : Bool
  pub events : List ℕ

pub data Move : Type 0 where
  notifier taker : Move

-- The next access of the thread.
unfoldable pub step : System → Move → System
unfolding bump mark swap_dirty
step s notifier =
    if s.bumped
    then record s { signal = mark s.signal; bumped = false }
    else record s { signal = bump s.signal; bumped = true }
step s taker =
    if s.reading
    then record s { events = s.signal.seq ∷ s.events; reading = false }
    else record s { signal = (swap_dirty s.signal).0; reading = (swap_dirty s.signal).1 }

abbrev pub start : System
start = record { signal = new; bumped = false; reading = false; events = [] }

abbrev pub run : System → List Move → System
run s [] = s
run s (m ∷ rest) = run (step s m) rest
