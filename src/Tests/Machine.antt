-- ===== src/Tests/Machine.antt =====
-- Runs of the virtual machine (crates/plc-vm).
use my_soft_plc.Prelude.{
  ℕ, ◌+◌, ◌≡◌, ◌↔◌, ◌⊎◌, ◌%◌, ◌^◌, refl, true, some, [], ◌∷◌, ok, err, inl, inr, arith, ltb, leb,
  ◌==◌,
}
use my_soft_plc.Prelude.Int.{ℤ, pos, negsuc}
use my_soft_plc.Prelude.Word.{IsWord, half32}
use my_soft_plc.Types.Ascii.{bytes}
use my_soft_plc.Ir.Opcode
use my_soft_plc.Ir.Encode.{DecodedInstr, simple, with_imm32, call_block}
use my_soft_plc.Ir.Module.{IrModule}
use my_soft_plc.Ir.Verify.Loop.{verify_module}
use my_soft_plc.Vm.Value.{FloatOps, VmValue, dint, int, stack_overflow}
use my_soft_plc.Vm.Memory.{ByteSegment, zeros, store, load}
use my_soft_plc.Vm.Memory.LoadStore.{load-store, load-store_apart, IsSegment}
use my_soft_plc.Vm.Operators.{error, panic, int_arith}
use my_soft_plc.Vm.Operators.Bounds.{int_arith_lem, IsOverflow}
use my_soft_plc.Vm.State
use my_soft_plc.Vm.State.{Vm, default_config}
use my_soft_plc.Vm.Exec.{run_at, halted}
use my_soft_plc.Vm.Exec.Armed.{load-IsArmed}
use my_soft_plc.Vm.Exec.Accepted.{AfterRun}
use my_soft_plc.Vm.Exec.Accepted.Runs.{run_at-AfterRun}
use my_soft_plc.Tests.Calls.{numbers}
use my_soft_plc.Tests.Bytecode.{main, program, assembled, looping, looping_accepted}

-- Numbers stand for floats: the runs use none.
abbrev pub machine : FloatOps ℕ
machine = record {
  conversions = numbers;
  of_i64 = λ v. 0;
  from_bits = λ n. n;
  to_bits = λ n. n;
  neg = λ a. a;
  eq = λ a b. a == b;
  lt = ltb;
  le = leb;
  to_i16 = λ a. pos 0;
  to_i32 = λ a. pos 0;
  to_i64 = λ a. pos 0;
}

abbrev armed : Vm ℕ
armed = State.armed machine (program looping) default_config

armed_loaded : State.load machine (program looping) default_config ≡ ok armed
unfolding State.load default_config
armed_loaded = rw looping_accepted refl

run_at-AfterRun_example : AfterRun (program looping) (run_at machine 0 5 armed)
run_at-AfterRun_example =
    run_at-AfterRun machine (program looping) armed main 5 looping_accepted
      (load-IsArmed machine (program looping) default_config armed armed_loaded) (inl refl)

abbrev segment : ByteSegment
segment = zeros 8

abbrev stored : ByteSegment
stored = record {
  bytes = 0 ∷ 0xFE ∷ 0xFF ∷ 0xFF ∷ 0xFF ∷ 0 ∷ 0 ∷ 0 ∷ [];
  tags = 0xFF ∷ 2 ∷ 0xFF ∷ 0xFF ∷ 0xFF ∷ 0xFF ∷ 0xFF ∷ 0xFF ∷ [];
}

segment_stored : store machine segment 1 (dint (negsuc 1)) 0 ≡ ok stored
unfolding store zeros my_soft_plc.Vm.Memory.write_at my_soft_plc.Vm.Memory.value_bytes
    my_soft_plc.Ir.Bytes.to_le_bytes my_soft_plc.Vm.Value.byte_width my_soft_plc.Vm.Value.ir_type
    my_soft_plc.Ir.IrType.to_u8
segment_stored = refl

segment_tagged : IsSegment segment
unfolding zeros
segment_tagged = record { tagged = refl }

load-store_example : load machine stored 1 9 ≡ ok (dint (negsuc 1))
unfolding my_soft_plc.Vm.Memory.LoadStore.Fits my_soft_plc.Vm.Memory.LoadStore.HasBits
load-store_example =
    load-store machine segment stored 1 (dint (negsuc 1)) 0 9 segment_stored segment_tagged
      (omega arith, omega arith) tt

load-store_apart_example : load machine stored 6 9 ≡ load machine segment 6 9
load-store_apart_example =
    load-store_apart machine segment stored 1 6 (dint (negsuc 1)) 0 9 segment_stored segment_tagged
      (inr (unfold my_soft_plc.Vm.Value.byte_width in omega arith))

int_arith_lem_example :
    (((v : ℤ) × ((int_arith Opcode.div (negsuc 2147483647) (negsuc 0) 0).1 ≡ ok v)
        × IsWord half32 v)
      ⊎ ((int_arith Opcode.div (negsuc 2147483647) (negsuc 0) 0).1 ≡ err panic))
    × (((int_arith Opcode.div (negsuc 2147483647) (negsuc 0) 0).1 ≡ err panic)
        ↔ IsOverflow Opcode.div (negsuc 2147483647) (negsuc 0))
    × (int_arith Opcode.div (negsuc 2147483647) (pos 0) 0 ≡ ((0 + 1) % 2 ^ 32, ok (pos 0)))
int_arith_lem_example =
    int_arith_lem Opcode.div (negsuc 2147483647) (negsuc 0) 0 (omega arith, omega arith)
      (omega arith, omega arith)

-- The loop is left by its branch, and the run ends at HALT.
run_of_looping : (run_at machine 0 5 armed).1 ≡ ok halted
unfolding State.armed default_config zeros my_soft_plc.Ir.Encode.encode_instruction
    my_soft_plc.Ir.Encode.decode_instruction my_soft_plc.Ir.Bytes.to_le_bytes
    my_soft_plc.Ir.Bytes.from_le_bytes my_soft_plc.Ir.Bytes.slice Opcode.to_u8 Opcode.from_u8 run_at
run_of_looping = refl

-- The body of a block leaves a value at each call: the verifier accepts it, the stack overflows.
abbrev leaking : IrModule
leaking = record (program []) {
  entries = main ∷ record { name = bytes "fb.0"; pc = 24; is_user_fb = true } ∷ [];
  code = assembled (
      call_block 1 0 0
      ∷ simple Opcode.push_i_bool 1
      ∷ simple Opcode.jmp_if 0
      ∷ simple Opcode.halt 0
      ∷ simple Opcode.push_i_bool 1
      ∷ simple Opcode.ret 0
      ∷ []);
}

leaking_accepted : verify_module leaking ≡ some (ok tt)
unfolding verify_module my_soft_plc.Ir.Encode.encode_instruction my_soft_plc.Ir.Bytes.to_le_bytes
    my_soft_plc.Ir.Verify.Loop.check_entries my_soft_plc.Ir.Verify.Loop.check_entry
    my_soft_plc.Ir.Verify.Loop.verify_entry my_soft_plc.Ir.Verify.Loop.verify_loop
    my_soft_plc.Ir.Verify.Loop.continue my_soft_plc.Ir.Verify.Loop.take_work
    my_soft_plc.Ir.Verify.Loop.round my_soft_plc.Ir.Encode.decode_instruction Opcode.from_u8
    my_soft_plc.Ir.Bytes.from_le_bytes my_soft_plc.Ir.Bytes.slice Opcode.to_u8
    my_soft_plc.Ir.Verify.Transfer.transfer
leaking_accepted = refl

leaking_overflows :
    (run_at machine 0 5 (State.armed machine leaking default_config)).1
    ≡ err (error (stack_overflow 12))
unfolding State.armed default_config zeros my_soft_plc.Ir.Encode.encode_instruction
    my_soft_plc.Ir.Encode.decode_instruction my_soft_plc.Ir.Bytes.to_le_bytes
    my_soft_plc.Ir.Bytes.from_le_bytes my_soft_plc.Ir.Bytes.slice Opcode.to_u8 Opcode.from_u8 run_at
leaking_overflows = refl
