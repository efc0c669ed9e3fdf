-- ===== src/Tests/Cells.antt =====
-- Runs of the shared cells of the scan engine (crates/plc-scan).
use my_soft_plc.Prelude.{
  ℕ, ◌+◌, ◌-◌, ◌%◌, ◌^◌, ◌≡◌, ◌⊎◌, ◌≢◌, ◌↔◌, refl, Bool, true, false, not, ◌&&◌, none, some, List,
  [], ◌∷◌, ok, err, arith, max, leb, ltb, drop,
}
use mathlib.Core.List.{Memᴰ}
use my_soft_plc.Types.OperatingMode.{OperatingMode, stop}
use my_soft_plc.Types.OperatingMode.{as_str, parse}
use my_soft_plc.Types.OperatingMode.Names.{parse_iff}
use my_soft_plc.Types.Ascii.{bytes, eq_ignore_ascii_case}
use my_soft_plc.Scan.ModeCell
use my_soft_plc.Scan.ModeCell.{
  ModeCell, Rejection, request_run, fault_reset, decode_request, mode, apply_pending,
}
use my_soft_plc.Scan.ModeCell.Modes.{
  Op, asks, applies, after_reset, ◌⟶◌, apply_pending_result, run_needs_reset,
}
use my_soft_plc.Scan.EpochHooks
use my_soft_plc.Scan.EpochHooks.{EpochHooks, first_scan, set_first_scan_all}
use my_soft_plc.Scan.EpochHooks.FirstScan.{clear_each, member, first_scan_pending}
use my_soft_plc.Scan.Watchdog
use my_soft_plc.Scan.Watchdog.Trip.{Invocation, note_one, streak, note_iff_streak}
use my_soft_plc.Scan.Watchdog.Trip.{run as watch}
use my_soft_plc.Scan.RetainSignal.{Move, notifier, taker}
use my_soft_plc.Scan.RetainSignal.{run as signal_run, start as signal_start}
use my_soft_plc.Scan.RetainSignal.Reported.{IsPending, newest, newest-run}
use my_soft_plc.Scan.Ring.{channel}
use my_soft_plc.Scan.Ring.Accounting.{
  Event, pushes, receives, start, IsAccounted, push_all, channel-IsAccounted, queue-push_all,
}
use my_soft_plc.Scan.Ring.Accounting.{run as stream}

abbrev faulted : ModeCell
faulted = record { raw_mode = 2; pending = 0; rejections = 0 }

abbrev recovery : List Op
recovery = asks fault_reset ∷ applies ∷ asks request_run ∷ applies ∷ []

run_needs_reset_example :
    Memᴰ (asks fault_reset) recovery × Memᴰ (asks request_run) (after_reset recovery)
unfolding mode decode_request apply_pending ModeCell.request
run_needs_reset_example = run_needs_reset faulted recovery refl (λ e. cc) refl

apply_pending_result_example :
    ((apply_pending faulted).0.pending ≡ 0)
    × (mode faulted ⟶ mode (apply_pending faulted).0)
    × ((m : OperatingMode) (clear : Bool)
        → (apply_pending faulted).1 ≡ ok (m, clear)
        → (mode (apply_pending faulted).0 ≡ m)
          × ((apply_pending faulted).0.rejections ≡ faulted.rejections)
          × ((clear ≡ true) ↔ ((decode_request faulted.pending ≢ none) × (m ≡ stop))))
    × ((e : Rejection)
        → (apply_pending faulted).1 ≡ err e
        → (mode (apply_pending faulted).0 ≡ mode faulted)
          × ((apply_pending faulted).0.rejections ≡ (faulted.rejections + 1) % 2 ^ 64))
apply_pending_result_example = apply_pending_result faulted

first_scan_pending_example :
    first_scan (clear_each (set_first_scan_all (EpochHooks.new 3) true) (1 ∷ [])) 2
    ≡ (ltb 2 3 && not (member 2 (1 ∷ [])))
first_scan_pending_example = first_scan_pending 3 (1 ∷ []) 2

abbrev slow : Invocation
slow = record { task = 0; duration_us = 12000; period_ms = 10 }

abbrev quick : Invocation
quick = record { task = 1; duration_us = 10; period_ms = 10 }

note_iff_streak_example :
    (note_one (watch (Watchdog.new 2 3) (quick ∷ slow ∷ slow ∷ [])) slow).1
    ≡ leb (max 3 1) (streak 0 (slow ∷ quick ∷ slow ∷ slow ∷ []))
note_iff_streak_example =
    note_iff_streak 2 3 slow (quick ∷ slow ∷ slow ∷ []) (omega arith) (omega arith)

abbrev samples : List (Event ℕ)
samples = pushes false 1 ∷ pushes false 2 ∷ pushes true 3 ∷ receives ∷ pushes false 4 ∷ []

channel-IsAccounted_example : IsAccounted (stream (start 1) samples)
channel-IsAccounted_example = channel-IsAccounted 1 samples

abbrev values : List ℕ
values = 1 ∷ 2 ∷ 3 ∷ []

queue-push_all_example : (push_all (channel 2) values).queue ≡ drop (3 - max 2 1) values
queue-push_all_example = queue-push_all 2 values

parse_iff_example :
    (parse (bytes "Stop") ≡ some stop) ↔ (eq_ignore_ascii_case (bytes "Stop") (as_str stop) ≡ true)
parse_iff_example = parse_iff (bytes "Stop") stop

-- A notification falls between the two accesses of a take.
abbrev moves : List Move
moves = notifier ∷ notifier ∷ taker ∷ notifier ∷ taker ∷ notifier ∷ taker ∷ taker ∷ []

newest-run_example :
    IsPending (signal_run signal_start moves)
    ⊎ (newest (signal_run signal_start moves).events ≡ (signal_run signal_start moves).signal.seq)
newest-run_example = newest-run moves
