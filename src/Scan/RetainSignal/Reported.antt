-- ===== src/Scan/RetainSignal/Reported.antt =====
-- No notification is lost (crates/plc-scan/src/retain_signal.rs).
use my_soft_plc.Prelude.{ℕ, ◌≡◌, ◌⊎◌, inr, refl, true, List, [], ◌∷◌, arith}
use my_soft_plc.Scan.RetainSignal.{System, Move, notifier, taker, step, start, run}

-- The sequence of the newest event, 0 before all.
abbrev pub newest : List ℕ → ℕ
newest [] = 0
newest (n ∷ older) = n

-- Something is still to come: the flag, or the rest of a call.
abbrev pub IsPending : System → Type 0
IsPending s = (s.signal.dirty ≡ true) ⊎ ((s.bumped ≡ true) ⊎ (s.reading ≡ true))

abbrev Inv : System → Type 0
Inv s = IsPending s ⊎ (newest s.events ≡ s.signal.seq)

step-Inv : (s : System) (m : Move) → Inv s → Inv (step s m)
unfolding step
step-Inv s notifier h = ground arith
step-Inv s taker h = ground arith

run-Inv : (s : System) (moves : List Move) → Inv s → Inv (run s moves)
run-Inv s [] h = h
run-Inv s (m ∷ rest) h = run-Inv (step s m) rest (step-Inv s m h)

-- Whatever the order of the accesses of one notifying and one taking thread: unless the flag is set
-- or one of the threads is between its two accesses, the newest event that was taken has the
-- sequence of the last notification.
pub newest-run :
    (moves : List Move)
    → IsPending (run start moves) ⊎ (newest (run start moves).events ≡ (run start moves).signal.seq)
newest-run moves = run-Inv start moves (inr refl)
