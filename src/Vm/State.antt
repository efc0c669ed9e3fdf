-- ===== src/Vm/State.antt =====
-- The machine and its operations outside the run loop (crates/plc-vm/src/exec.rs, load.rs). The
-- operand stack and the call stack are lists with their tops first, their depths are `sp` and `fp`:
-- the code never reads above them.
use my_soft_plc.Prelude.{
  ℕ, ◌+◌, ◌-◌, ◌*◌, ◌^◌, Bool, true, false, not, ◌&&◌, Option, none, some, List, [], ◌∷◌, ◌++◌,
  Result, ok, err, ltb, leb, length, set, replicate, ◌==◌, if◌then◌else◌,
}
use my_soft_plc.Types.Ascii.{bytes}
use my_soft_plc.Ir.Bytes.{slice}
use my_soft_plc.Ir.Table.{bytes_eq}
use my_soft_plc.Ir.IrType.{byte_width}
use my_soft_plc.Ir.Module.{IrModule, EntryPoint}
use my_soft_plc.Ir.Verify.Transfer.{VerifyError}
use my_soft_plc.Ir.Verify.Loop.{verify_module}
use my_soft_plc.Fb.Dispatch.{PrimitiveStore, with_capacity, cold_reset_all}
use my_soft_plc.Retain.Codec.{RetainLayout, RetainSymbol}
use my_soft_plc.Vm.Value.{
  FloatOps, VmValue, VmError, bounds, verify, unknown_entry, value_from_le_bytes,
}
use my_soft_plc.Vm.Memory.{
  ByteSegment, SlotImage, zeros, bools, fill_zero, fill_bool_false, blit_from, store,
}
use my_soft_plc.Vm.Operators.{Fault, error}

pub record VmConfig : Type 0 where
  pub primitive_instances : ℕ
  pub instruction_budget : ℕ
  pub verify : Bool

unfoldable pub default_config : VmConfig
default_config = record { primitive_instances = 128; instruction_budget = 1000000; verify = true }

pub record Frame : Type 0 where
  pub return_pc : ℕ
  pub data_base : ℕ  -- u32

module _ {ℓ} where
  pub record Vm (F : Type ℓ) : Type ℓ where
    pub code : List ℕ
    pub const_data : List ℕ
    pub data_seg : ByteSegment
    pub retain : ByteSegment
    pub inputs : SlotImage F
    pub outputs : SlotImage F
    pub entries : List EntryPoint
    pub user_fb_pc : List (Option ℕ)
    pub primitives : PrimitiveStore F
    pub stack : List (VmValue F)
    pub frames : List Frame
    pub data_base : ℕ  -- u32
    pub instruction_budget : ℕ  -- u64
    pub div0_count : ℕ  -- u32
    pub retain_dirty : Bool
    pub first_scan : Bool

-- The machine after a call, with its result: what was written before an error stays written.
module _ {ℓ κ} where
  abbrev pub Action : (F : Type ℓ) → Type κ → Type (ℓ ⊔ κ)
  Action F A = Vm F → Vm F × Result A Fault

module _ {ℓ κ} {F : Type ℓ} {A : Type κ} where
  abbrev pub pure : A → Action F A
  pure a vm = (vm, ok a)

  abbrev pub raise : Fault → Action F A
  raise e vm = (vm, err e)

  abbrev pub lift_result : Result A Fault → Action F A
  lift_result r vm = (vm, r)

module _ {ℓ κ μ} {F : Type ℓ} {A : Type κ} {B : Type μ} where
  abbrev pub resume : Vm F × Result A Fault → (A → Action F B) → Vm F × Result B Fault
  resume (vm, ok a) f = f a vm
  resume (vm, err e) f = (vm, err e)

  infixl 5 ◌>>=◌
  abbrev pub ◌>>=◌ : Action F A → (A → Action F B) → Action F B
  ◌>>=◌ m f vm = resume (m vm) f

infixl 5 ◌>>◌
abbrev pub ◌>>◌ {ℓ κ} : {F : Type ℓ} {B : Type κ} → Action F (Unit {0}) → Action F B → Action F B
m >> k = m >>= λ _. k

-- The value of decimal digits, `none` where one is no digit or the value does not fit 32 bits.
unfoldable pub parse_digits : ℕ → List ℕ → Option ℕ
parse_digits acc [] = some acc
parse_digits acc (c ∷ rest) =
    let next = acc * 10 + (c - b'0') in
    let parsed = parse_digits next rest in
    if not (leb b'0' c && leb c b'9') then none else if leb (2 ^ 32) next then none else parsed

-- `str::parse::<u32>`: a sign `+` may stand before at least one digit.
unfoldable pub parse_u32 : List ℕ → Option ℕ
unfolding parse_digits
parse_u32 [] = none
parse_u32 (c ∷ []) = parse_digits 0 (c ∷ [])
parse_u32 (c ∷ rest) = if c == b'+' then parse_digits 0 rest else parse_digits 0 (c ∷ rest)

abbrev pub strip_prefix : List ℕ → List ℕ → Option (List ℕ)
strip_prefix [] s = some s
strip_prefix (p ∷ ps) [] = none
strip_prefix (p ∷ ps) (c ∷ s) = if p == c then strip_prefix ps s else none

unfoldable parse_rest : Option (List ℕ) → Option ℕ
unfolding parse_u32
parse_rest none = none
parse_rest (some rest) = parse_u32 rest

unfoldable pub parse_user_fb_id : List ℕ → Option ℕ
unfolding parse_rest
parse_user_fb_id name = elim (strip_prefix (bytes "fb.") name) [
  | some rest ↦ parse_rest (some rest)
  | none ↦ parse_rest (strip_prefix (bytes "FB.") name)
]

-- `resize(n, None)` of a shorter table.
abbrev pub resize : List (Option ℕ) → ℕ → List (Option ℕ)
resize table n = table ++ replicate (n - length table) none

unfoldable pub register : List (Option ℕ) → EntryPoint → List (Option ℕ)
unfolding parse_user_fb_id
register table e =
    let idx : ℕ = elim (parse_user_fb_id e.name) [ none ↦ length table | some id ↦ id ] in
    if e.is_user_fb then set (resize table (idx + 1)) idx (some e.pc) else table

unfoldable pub register_all : List (Option ℕ) → List EntryPoint → List (Option ℕ)
unfolding register
register_all table [] = table
register_all table (e ∷ rest) = register_all (register table e) rest

unfoldable pub find_entry : List ℕ → List EntryPoint → Option ℕ
find_entry name [] = none
find_entry name (e ∷ rest) =
    let later = find_entry name rest in if bytes_eq e.name name then some e.pc else later

-- Whether a verdict is positive; the verifier gives a verdict on every module.
abbrev pub is_accepted : Option (Result (Unit {0}) VerifyError) → Bool
is_accepted (some (ok _)) = true
is_accepted _ = false

module _ {ℓ} {F : Type ℓ} (fl : FloatOps F) where
  unfoldable pub armed : IrModule → VmConfig → Vm F
  unfolding zeros bools with_capacity register_all
  armed m config = record {
    code = m.code;
    const_data = m.const_data;
    data_seg = zeros m.data_size;
    retain = zeros m.retain_size;
    inputs = bools m.input_slots;
    outputs = bools m.output_slots;
    entries = m.entries;
    user_fb_pc = register_all [] m.entries;
    primitives = with_capacity fl.conversions config.primitive_instances;
    stack = [];
    frames = [];
    data_base = 0;
    instruction_budget = config.instruction_budget;
    div0_count = 0;
    retain_dirty = false;
    first_scan = false;
  }

  unfoldable pub load : IrModule → VmConfig → Result (Vm F) VmError
  unfolding armed verify_module
  load m config =
      if config.verify && not (is_accepted (verify_module m))
      then err verify
      else ok (armed m config)

  unfoldable pub cold_reset_non_retain : Vm F → Vm F
  unfolding fill_zero fill_bool_false cold_reset_all
  cold_reset_non_retain vm = record vm {
    data_seg = fill_zero vm.data_seg;
    outputs = fill_bool_false vm.outputs;
    primitives = cold_reset_all fl.conversions vm.primitives;
    stack = [];
    frames = [];
    data_base = 0;
    div0_count = 0;
  }

  -- One symbol of an image whose length has been checked.
  unfoldable pub load_symbol : List ℕ → RetainSymbol → Action F (Unit {0})
  unfolding value_from_le_bytes byte_width slice store
  load_symbol image sym vm =
      let width = byte_width sym.ty in
      if ltb (length image) (sym.offset + width)
      then (vm, err (error (bounds 0)))
      else elim (value_from_le_bytes fl sym.ty (slice image sym.offset width)) [
        | err e ↦ (vm, err (error e))
        | ok v ↦ elim (store fl vm.retain sym.offset v 0) [
          | err e ↦ (vm, err (error e))
          | ok seg ↦ (record vm { retain = seg }, ok tt)
        ]
      ]

  unfoldable pub load_symbols : List ℕ → List RetainSymbol → Action F (Unit {0})
  unfolding load_symbol
  load_symbols image [] = pure tt
  load_symbols image (sym ∷ rest) = load_symbol image sym >> load_symbols image rest

  unfoldable pub load_retain_image : List ℕ → RetainLayout → Action F (Unit {0})
  unfolding load_symbols
  load_retain_image image layout vm =
      let loaded = load_symbols image layout.symbols vm in
      if not (length image == length vm.retain.bytes)
      then (vm, err (error (bounds 0)))
      else if not (layout.retain_size == length image)
      then (vm, err (error (bounds 0)))
      else loaded

module _ {ℓ} {F : Type ℓ} where
  unfoldable pub clear_retain_dirty : Vm F → Vm F
  clear_retain_dirty vm = record vm { retain_dirty = false }

  unfoldable pub set_first_scan : Bool → Vm F → Vm F
  set_first_scan v vm = record vm { first_scan = v }

  unfoldable pub entry_pc : List ℕ → Vm F → Result ℕ VmError
  unfolding find_entry
  entry_pc name vm = elim (find_entry name vm.entries) [
    | none ↦ err (unknown_entry name)
    | some pc ↦ ok pc
  ]

  -- The destination, and the machine that is read.
  unfoldable pub blit_retain_from : ℕ → Vm F → ℕ → ℕ → Action F (Unit {0})
  unfolding blit_from
  blit_retain_from dst src src_off len vm = elim (blit_from vm.retain dst src.retain src_off len) [
    | err e ↦ (vm, err (error e))
    | ok seg ↦ (record vm { retain = seg }, ok tt)
  ]
