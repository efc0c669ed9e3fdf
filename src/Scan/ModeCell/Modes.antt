-- ===== src/Scan/ModeCell/Modes.antt =====
-- Which mode follows which (crates/plc-scan/src/mode.rs).
use my_soft_plc.Prelude.{
  ◌+◌, ◌%◌, ◌^◌, ◌≡◌, ◌≢◌, ◌↔◌, refl, Bool, true, none, some, List, [], ◌∷◌, arith, ok, err,
}
use mathlib.Core.List.{Memᴰ}
use my_soft_plc.Types.OperatingMode.{OperatingMode, stop, run, fault, sim}
use my_soft_plc.Scan.ModeCell.{
  ModeCell, ModeRequest, Rejection, request_stop, request_run, request_sim, fault_reset,
  decode_request, mode, set_mode, request, reject_pending, apply_pending,
}

-- The diagram of the operating modes.
infix 40 ◌⟶◌
pub data ◌⟶◌ : OperatingMode → OperatingMode → Type 0 where
  stay : (m : OperatingMode) → m ⟶ m
  start : stop ⟶ run
  simulate : stop ⟶ sim
  go_live : sim ⟶ run
  halt : run ⟶ stop
  end_sim : sim ⟶ stop
  clear_fault : fault ⟶ stop

ruleset edges = (stay, start, simulate, go_live, halt, end_sim, clear_fault)

-- Applying a pending request follows an edge of the diagram: FAULT is left for STOP alone, SIM is
-- entered from STOP alone, and no request enters FAULT.
apply_pending-⟶ : (c : ModeCell) → mode c ⟶ mode (apply_pending c).0
unfolding apply_pending
apply_pending-⟶ c = grind (arith, edges)

pub mode-set_mode : (c : ModeCell) (m : OperatingMode) → mode (set_mode c m) ≡ m
unfolding mode set_mode
mode-set_mode c m = ground arith

-- Applying takes the pending request out of the cell and follows an edge of the diagram: FAULT is
-- left for STOP alone, SIM is entered from STOP alone, and no request enters FAULT. If it succeeds, the mode that it reports is
-- the new mode, and it asks to clear the forces exactly when there was a request and the new mode
-- is STOP; if it fails, the mode is kept and the rejection counted.
pub apply_pending_result :
    (c : ModeCell)
    → ((apply_pending c).0.pending ≡ 0)
      × (mode c ⟶ mode (apply_pending c).0)
      × ((m : OperatingMode) (clear : Bool)
          → (apply_pending c).1 ≡ ok (m, clear)
          → (mode (apply_pending c).0 ≡ m)
            × ((apply_pending c).0.rejections ≡ c.rejections)
            × ((clear ≡ true) ↔ ((decode_request c.pending ≢ none) × (m ≡ stop))))
      × ((e : Rejection)
          → (apply_pending c).1 ≡ err e
          → (mode (apply_pending c).0 ≡ mode c)
            × ((apply_pending c).0.rejections ≡ (c.rejections + 1) % 2 ^ 64))
unfolding apply_pending
apply_pending_result c =
    (ground arith, apply_pending-⟶ c, (λ m clear e. ground arith), (λ x e. ground arith))

-- What the handles and the scan thread do to the cell; FAULT is entered by the engine alone.
pub data Op : Type 0 where
  asks : ModeRequest → Op
  applies rejects : Op

abbrev pub exec : ModeCell → List Op → ModeCell
exec c [] = c
exec c (asks req ∷ rest) = exec (request c req) rest
exec c (applies ∷ rest) = exec (apply_pending c).0 rest
exec c (rejects ∷ rest) = exec (reject_pending c) rest

-- What comes after the first `fault_reset`.
abbrev pub after_reset : List Op → List Op
after_reset [] = []
after_reset (asks fault_reset ∷ rest) = rest
after_reset (op ∷ rest) = after_reset rest

record IsLatched (c : ModeCell) : Type 0 where
  faulted : mode c ≡ fault
  unset : decode_request c.pending ≢ some fault_reset

record IsHeld (c : ModeCell) : Type 0 where
  idle : mode c ≢ run
  unset : decode_request c.pending ≢ some request_run

request-IsLatched :
    (c : ModeCell) (req : ModeRequest) → req ≢ fault_reset → IsLatched c → IsLatched (request c req)
unfolding request decode_request mode
request-IsLatched c req n h = ground arith

apply-IsLatched : (c : ModeCell) → IsLatched c → IsLatched (apply_pending c).0
unfolding apply_pending
apply-IsLatched c h = ground arith

reject-IsLatched : (c : ModeCell) → IsLatched c → IsLatched (reject_pending c)
unfolding reject_pending mode
reject-IsLatched c h = ground arith

request-IsHeld :
    (c : ModeCell) (req : ModeRequest) → req ≢ request_run → mode c ≢ run → IsHeld (request c req)
unfolding request decode_request mode
request-IsHeld c req n h = ground arith

apply-IsHeld : (c : ModeCell) → IsHeld c → IsHeld (apply_pending c).0
unfolding apply_pending
apply-IsHeld c h = ground arith

reject-IsHeld : (c : ModeCell) → IsHeld c → IsHeld (reject_pending c)
unfolding reject_pending mode
reject-IsHeld c h = ground arith

exec-held :
    (c : ModeCell) (ops : List Op)
    → IsHeld c
    → mode (exec c ops) ≡ run
    → Memᴰ (asks request_run) ops
exec-held c [] h r = absurd (h.idle r)
exec-held c (asks request_run ∷ rest) h r = Memᴰ.head refl
exec-held c (asks request_stop ∷ rest) h r =
    Memᴰ.tail
      (exec-held (request c request_stop) rest (request-IsHeld c request_stop (λ e. cc) h.idle) r)
exec-held c (asks request_sim ∷ rest) h r =
    Memᴰ.tail
      (exec-held (request c request_sim) rest (request-IsHeld c request_sim (λ e. cc) h.idle) r)
exec-held c (asks fault_reset ∷ rest) h r =
    Memᴰ.tail
      (exec-held (request c fault_reset) rest (request-IsHeld c fault_reset (λ e. cc) h.idle) r)
exec-held c (applies ∷ rest) h r =
    Memᴰ.tail (exec-held (apply_pending c).0 rest (apply-IsHeld c h) r)
exec-held c (rejects ∷ rest) h r =
    Memᴰ.tail (exec-held (reject_pending c) rest (reject-IsHeld c h) r)

idle_of_fault : (c : ModeCell) → mode c ≡ fault → mode c ≢ run
idle_of_fault c h = ground arith

-- In FAULT, with no `fault_reset` pending, whatever the order of the requests, of their
-- application and of their rejection: the mode is RUN again only if a request of `fault_reset` was
-- made and, after it, a request of RUN.
pub run_needs_reset :
    (c : ModeCell) (ops : List Op)
    → mode c ≡ fault
    → decode_request c.pending ≢ some fault_reset
    → mode (exec c ops) ≡ run
    → Memᴰ (asks fault_reset) ops × Memᴰ (asks request_run) (after_reset ops)
run_needs_reset c [] f p r = cc
run_needs_reset c (asks fault_reset ∷ rest) f p r = (
  Memᴰ.head refl,
  exec-held (request c fault_reset) rest
      (request-IsHeld c fault_reset (λ e. cc) (idle_of_fault c f)) r,
)
run_needs_reset c (asks request_stop ∷ rest) f p r =
    let h = request-IsLatched c request_stop (λ e. cc) (record { faulted = f; unset = p }) in
    let later = run_needs_reset (request c request_stop) rest h.faulted h.unset r in
    (Memᴰ.tail later.0, later.1)
run_needs_reset c (asks request_run ∷ rest) f p r =
    let h = request-IsLatched c request_run (λ e. cc) (record { faulted = f; unset = p }) in
    let later = run_needs_reset (request c request_run) rest h.faulted h.unset r in
    (Memᴰ.tail later.0, later.1)
run_needs_reset c (asks request_sim ∷ rest) f p r =
    let h = request-IsLatched c request_sim (λ e. cc) (record { faulted = f; unset = p }) in
    let later = run_needs_reset (request c request_sim) rest h.faulted h.unset r in
    (Memᴰ.tail later.0, later.1)
run_needs_reset c (applies ∷ rest) f p r =
    let h = apply-IsLatched c (record { faulted = f; unset = p }) in
    let later = run_needs_reset (apply_pending c).0 rest h.faulted h.unset r in
    (Memᴰ.tail later.0, later.1)
run_needs_reset c (rejects ∷ rest) f p r =
    let h = reject-IsLatched c (record { faulted = f; unset = p }) in
    let later = run_needs_reset (reject_pending c) rest h.faulted h.unset r in
    (Memᴰ.tail later.0, later.1)
