-- ===== src/Tests/Calls.antt =====
-- Calls of the native blocks through the store (crates/plc-fb-primitives/src/dispatch.rs). The
-- floats are numbers here: only blocks without floats are called.
use my_soft_plc.Prelude.{
  ℕ, ◌+◌, ◌-◌, ◌*◌, ◌/◌, ◌≡◌, refl, true, false, ltb, min, max, List, [], ◌∷◌, ok, length,
}
use my_soft_plc.Prelude.Int.{pos}
use my_soft_plc.Ir.PrimitiveId.{ton, input_count}
use my_soft_plc.Fb.Dispatch.{
  StackValue, bool, dint, PrimitiveStore, PrimitiveOutputs, Conversions, with_capacity,
  call_primitive,
}
use my_soft_plc.Fb.Dispatch.Calls.{Called, call_primitive-Called}

abbrev pub numbers : Conversions ℕ
numbers = record {
  floats = record {
    add = λ a b. a + b;
    sub = λ a b. a - b;
    mul = λ a b. a * b;
    div = λ a b. a / b;
    abs = λ a. a;
    lt = ltb;
    clamp = λ a lo hi. min (max a lo) hi;
    of_u64 = λ a. a;
    zero = 0;
    one = 1;
    hundred = 100;
    minus_hundred = 0;
    thousand = 1000;
    epsilon = 0;
  };
  of_i32 = λ v. 0;
}

abbrev store : PrimitiveStore ℕ
store = with_capacity numbers 2

abbrev inputs : List (StackValue ℕ)
inputs = bool true ∷ dint (pos 0) ∷ []

abbrev called : PrimitiveStore ℕ × PrimitiveOutputs ℕ
called = (
  record store {
    ton =
        record { q = true; et = pos 0; start_ms = 5; running = true } ∷ my_soft_plc.Fb.Ton.new ∷ [];
  },
  record { values = bool true ∷ dint (pos 0) ∷ bool false ∷ bool false ∷ []; count = 2 },
)

accepted : call_primitive numbers store ton 0 inputs 5 ≡ ok called
unfolding call_primitive with_capacity input_count my_soft_plc.Fb.Ton.eval
    my_soft_plc.Fb.Elapsed.et_from_delta
accepted = refl

call_primitive-Called_example : (length inputs ≡ input_count ton) × Called store ton 0 called
call_primitive-Called_example = call_primitive-Called numbers store ton 0 inputs 5 called accepted
