-- ===== src/Scan/ModeCell.antt =====
-- Mode requests and transitions of crates/plc-scan/src/mode.rs. Each method of the cell reads or
-- writes its atomics once, in the order of the calls here; an atomic `u8` or `u64` is a number.
pub mod Modes
use my_soft_plc.Prelude.{
  ℕ, ◌+◌, ◌%◌, ◌^◌, Bool, true, false, ◌||◌, Option, none, some, Result, ok, err, ◌==◌, is_some,
  if◌then◌else◌,
}
use my_soft_plc.Types.OperatingMode.{OperatingMode, stop, run, fault, sim}

-- The messages of `ScanError::invalid_state`.
pub data Rejection : Type 0 where
  stop_while_fault run_while_fault sim_while_fault sim_from_run reset_while_not_fault : Rejection

pub data ModeRequest : Type 0 where
  request_stop request_run request_sim fault_reset : ModeRequest

unfoldable pub encode_mode : OperatingMode → ℕ
encode_mode stop = 0
encode_mode run = 1
encode_mode fault = 2
encode_mode sim = 3

unfoldable pub decode_mode : ℕ → OperatingMode
decode_mode raw =
    if raw == 1 then run else if raw == 2 then fault else if raw == 3 then sim else stop

unfoldable pub encode_request : ModeRequest → ℕ
encode_request request_stop = 1
encode_request request_run = 2
encode_request request_sim = 3
encode_request fault_reset = 4

unfoldable pub decode_request : ℕ → Option ModeRequest
decode_request raw =
    if raw == 1
    then some request_stop
    else if raw == 2
    then some request_run
    else if raw == 3
    then some request_sim
    else if raw == 4
    then some fault_reset
    else none

unfoldable pub apply_request : OperatingMode → ModeRequest → Result OperatingMode Rejection
apply_request fault request_stop = err stop_while_fault
apply_request _ request_stop = ok stop
apply_request stop request_run = ok run
apply_request sim request_run = ok run
apply_request run request_run = ok run
apply_request stop request_sim = ok sim
apply_request sim request_sim = ok sim
apply_request fault fault_reset = ok stop
apply_request fault request_run = err run_while_fault
apply_request fault request_sim = err sim_while_fault
apply_request run request_sim = err sim_from_run
apply_request _ fault_reset = err reset_while_not_fault

pub record ModeCell : Type 0 where
  pub raw_mode : ℕ  -- u8
  pub pending : ℕ  -- u8
  pub rejections : ℕ  -- u64

abbrev pub new : ModeCell
new = record { raw_mode = 0; pending = 0; rejections = 0 }

unfoldable pub mode : ModeCell → OperatingMode
unfolding decode_mode
mode c = decode_mode c.raw_mode

unfoldable pub set_mode : ModeCell → OperatingMode → ModeCell
unfolding encode_mode
set_mode c m = record c { raw_mode = encode_mode m }

unfoldable pub request : ModeCell → ModeRequest → ModeCell
unfolding encode_request
request c req = record c { pending = encode_request req }

abbrev count_rejected : ModeCell → ModeCell
count_rejected c = record c { rejections = (c.rejections + 1) % 2 ^ 64 }

unfoldable pub reject_pending : ModeCell → ModeCell
unfolding decode_request
reject_pending c =
    let taken = record c { pending = 0 } in
    if is_some (decode_request c.pending) then count_rejected taken else taken

abbrev pub is_stop_request : ModeRequest → Bool
is_stop_request request_stop = true
is_stop_request fault_reset = true
is_stop_request _ = false

abbrev pub is_mode_stop : OperatingMode → Bool
is_mode_stop stop = true
is_mode_stop _ = false

abbrev pub is_mode_fault : OperatingMode → Bool
is_mode_fault fault = true
is_mode_fault _ = false

-- The arms of the `match` on the transition table.
commit :
    ModeCell
    → ModeRequest
    → Result OperatingMode Rejection
    → ModeCell × Result (OperatingMode × Bool) Rejection
unfolding set_mode
commit c req (ok next) =
    let clear_forces = is_stop_request req || is_mode_stop next in
    (set_mode c next, ok (next, clear_forces || is_mode_fault next))
commit c req (err e) = (count_rejected c, err e)

-- `let Some(req) = … else`.
dispatch : ModeCell → Option ModeRequest → ModeCell × Result (OperatingMode × Bool) Rejection
unfolding commit apply_request mode
dispatch c none = (c, ok (mode c, false))
dispatch c (some req) = commit c req (apply_request (mode c) req)

-- The new cell and the result.
unfoldable pub apply_pending : ModeCell → ModeCell × Result (OperatingMode × Bool) Rejection
unfolding dispatch decode_request
apply_pending c = dispatch (record c { pending = 0 }) (decode_request c.pending)
