-- ===== src/Lib.antt =====
-- Models of the soft PLC runtime, with the theorems that make its core correct.
--
-- The program is a runtime for programmable logic controllers. A compiler gives bytecode modules in
-- a container; the runtime parses and verifies them, a machine runs them once in each scan, and
-- native function blocks (timers, counters, edges, latches, a controller) keep their state from
-- scan to scan. The scan engine shares a few small cells with the other threads: the operating mode
-- with its requests, the epoch of the program, a watchdog of overruns, and a ring of samples for
-- the telemetry. The outputs of a scan pass the maintenance forces before they reach the field.
--
-- What models which part, with the paths of the repository:
--   Types      crates/plc-types/src/mode.rs, quality.rs: modes, phases and qualities, and the names
--              and codes they have outside.
--   Fb         crates/plc-fb-primitives/src: a module for each block with its record of state, `new`
--              and `eval` (the state after one evaluation, whose fields hold the outputs). Dispatch
--              is dispatch.rs: the pools of instances, `call_primitive` and its arms.
--   Ir         crates/plc-ir/src: Opcode and PrimitiveId are opcode.rs, IrType is value.rs, Encode is
--              encode.rs, Module is module.rs, Spbc is spbc.rs (`parse_spbc`, `write_spbc`), and
--              Verify is verify.rs: Transfer is the effect of one instruction (the body of the
--              `match` in `verify_entry`, with `push`, `pop` and the tests on offsets, targets and
--              types), Loop the work list and `verify_module`.
--   Scan       crates/plc-scan/src: ModeCell is mode.rs, EpochHooks is hooks.rs, Watchdog is
--              watchdog.rs, Ring is spsc.rs, RetainSignal is retain_signal.rs, Convert is convert.rs.
--              Engine is engine.rs and epoch.rs: State the record of the engine, Requests the mode
--              boundary, `arm`, `disarm` and `request_activate`, Install `try_epoch_install`, Phases
--              `sample_inputs`, `run_logic` and `apply_outputs`, Cycle `invoke` and `step`.
--   Io         crates/plc-io/src: Value is value.rs, Force is force.rs, FieldGate is field_gate.rs,
--              DoubleBuffer is double_buffer.rs, Image is image.rs and the types of driver.rs.
--   Auth       crates/plc-auth/src: Role is role.rs, Lockout is lockout.rs.
--   Retain     crates/plc-retain/src: Crc is crc.rs, Codec is codec.rs with the layout of
--              crates/plc-ir/src/retain.rs, Store is store.rs and layout.rs: the files of a program,
--              `committed`, `choose_slot` (in `recovered`) and `flush` with its two writes.
--              Symbols is `RetainLayout::new` of crates/plc-ir/src/retain.rs, Remap is map.rs.
--   Vm         crates/plc-vm/src: Value is value.rs and error.rs, Memory is memory.rs, Operators the
--              free functions of exec.rs (`arith_op`, `int_arith`, `logic_op`, ...), State the machine
--              with `load` and the operations between runs, Exec the loop of `run_at`: `step` is one
--              turn, `exec_simple`, `exec_imm` and `exec_call` its arms.
--   Prelude    helpers: Boolean tests and lists over the native numbers, integers with the bounds of
--              an i32, signed words in two's complement, results with their chain.
--   Tests      runs on concrete inputs.
--
-- How the code is translated. An unsigned number is a number, with its wrap-around or saturation
-- written out where the code can reach it; an i32 is an integer, and IsI32 bounds it. A byte is a
-- number below 256 and a text the list of its bytes, so that `str::from_utf8` is a test. Words are
-- put together with `|` of parts that share no bit; the models write the sum. An operation on
-- `&mut self` gives the new record. A `Result` keeps the kind of its error and leaves out the text.
-- The operations on f32 are a record of functions, the parameter `Floats` of Pid and Dispatch;
-- nothing is assumed of them. The machine uses more of f32, its parameter is `FloatOps`.
--
-- The machine is passed on by its operations (`Action`), so that what is written before an error
-- stays written. Its operand stack and its call stack are lists with their tops first. A division
-- whose quotient does not fit panics in Rust: a panic is an outcome of its own, beside the errors.
--
-- The scan engine takes a driver and a clock as the parameter `Devices`: functions from their state
-- to the next, of which nothing is assumed. It joins the other parts: an invocation samples the
-- inputs into the image and the machine, runs the entry of the task, notes its duration with the
-- watchdog, and resolves the outputs under the forces. A panic of the machine ends the thread: the
-- invocation has no result then.
--
-- Threads. Each method of the mode cell and of the epoch hooks does its loads and stores in the
-- order of the model; the theorems on them quantify over every order of the calls. A push into the
-- ring takes whether the consumer holds the mutex, since `try_lock` fails exactly then. The double
-- buffer has one writer and one reader, and the retain signal one notifier and one taker, whose
-- steps come in any order.
--
-- Files. The retain store keeps three files for a program, each missing or a list of bytes. A flush
-- is its two writes, and a run can end before, in, between or after them; a write that is cut off
-- leaves bytes that are taken to fail the checks of their file, which is what the checksum is for.
--
-- Loops. `verify_entry` follows a work list; the model takes fuel, twice the length of the code
-- and two more, since each place of the code is entered once and adds two items at most. The
-- decoding of retained records takes a fuel of one more than the bytes, since a record has one at
-- least. In both `none` stands for fuel that has run out. The run loop of the machine recurses on
-- the instruction budget, which is an error of the code when it is used up. The other loops are
-- recursions on a list or on a count.
--
-- The abstract machine of the verifier (Reach, Step) counts the values on the stack; the body of
-- a user block is not followed, as in the code, and a call of it is taken to return with the
-- stack as it was. The machine does follow it, on top of the operands of the caller:
-- Vm/Exec/Accepted relates the two.
--
-- Not modelled: the texts of errors; the telemetry of a scan, the status snapshot, the checks on
-- a plan and the loop `run_due` of the engine; the loader, the snapshot of retained values, the
-- rest of authentication, packages and the compiler; the drivers, the REST and telemetry services
-- and the process, which are I/O. The orderings of the atomics are not modelled: they are taken to
-- be sequentially consistent.
pub mod Auth
pub mod Fb
pub mod Io
pub mod Ir
pub mod Prelude
pub mod Retain
pub mod Scan
pub mod Tests
pub mod Types
pub mod Vm
