-- ===== src/Fb/Dispatch.antt =====
-- The calls of the native blocks (crates/plc-fb-primitives/src/dispatch.rs). The store is read and
-- written with the functions of its pools; an error leaves it as it was, since each arm reads the
-- instance and the inputs before it evaluates.
pub mod Inputs
pub mod Calls
use my_soft_plc.Prelude.{
  ℕ, Bool, true, false, not, Option, none, some, List, [], ◌∷◌, Result, ok, err, ok_or, ◌>>=◌,
  length, ◌%◌, ◌^◌, get_elem?, get_or, set, map, replicate, ◌==◌, if◌then◌else◌,
}
use my_soft_plc.Prelude.Int.{ℤ, pos}
use my_soft_plc.Ir.PrimitiveId.{
  PrimitiveId, ton, tof, tp, ctu, ctd, rs, sr, r_trig, f_trig, pid, input_count,
}
use my_soft_plc.Fb.Ton
use my_soft_plc.Fb.Tof
use my_soft_plc.Fb.Tp
use my_soft_plc.Fb.Ctu
use my_soft_plc.Fb.Ctd
use my_soft_plc.Fb.Rs
use my_soft_plc.Fb.Sr
use my_soft_plc.Fb.RTrig
use my_soft_plc.Fb.FTrig
use my_soft_plc.Fb.Pid
use my_soft_plc.Fb.Pid.{Floats}

pub data PrimitiveCallError : Type 0 where
  bad_instance type_mismatch : PrimitiveCallError
  arity : (expected got : ℕ) → PrimitiveCallError

module _ {ℓ} where
  pub data StackValue (F : Type ℓ) : Type ℓ where
    bool : Bool → StackValue F
    dint : ℤ → StackValue F
    real : F → StackValue F

  pub record PrimitiveStore (F : Type ℓ) : Type ℓ where
    pub ton : List Ton.Ton
    pub tof : List Tof.Tof
    pub tp : List Tp.Tp
    pub ctu : List Ctu.Ctu
    pub ctd : List Ctd.Ctd
    pub rs : List Rs.Rs
    pub sr : List Sr.Sr
    pub r_trig : List RTrig.RTrig
    pub f_trig : List FTrig.FTrig
    pub pid : List (Pid.Pid F)

-- The outputs in the order of their declaration, of which `count` are valid.
module _ {ℓ} where
  pub record PrimitiveOutputs (F : Type ℓ) : Type ℓ where
    pub values : List (StackValue F)
    pub count : ℕ

-- An `i32` as a float, `v as f32`.
pub record Conversions {ℓ} (F : Type ℓ) : Type ℓ where
  pub floats : Floats F
  pub of_i32 : ℤ → F

module _ {ℓ} {F : Type ℓ} (cv : Conversions F) where
  abbrev pub as_bool : StackValue F → Option Bool
  as_bool (bool b) = some b
  as_bool _ = none

  abbrev pub as_dint : StackValue F → Option ℤ
  as_dint (dint v) = some v
  as_dint (bool b) = some (if b then pos 1 else pos 0)
  as_dint (real v) = none

  abbrev pub as_real : StackValue F → Option F
  as_real (real v) = some v
  as_real (dint v) = some (cv.of_i32 v)
  as_real (bool b) = some (if b then cv.floats.one else cv.floats.zero)

  abbrev pub one : StackValue F → PrimitiveOutputs F
  one v = record { values = v ∷ bool false ∷ bool false ∷ bool false ∷ []; count = 1 }

  abbrev pub two : StackValue F → StackValue F → PrimitiveOutputs F
  two a b = record { values = a ∷ b ∷ bool false ∷ bool false ∷ []; count = 2 }

  unfoldable pub with_capacity : ℕ → PrimitiveStore F
  with_capacity n = record {
    ton = replicate n Ton.new;
    tof = replicate n Tof.new;
    tp = replicate n Tp.new;
    ctu = replicate n Ctu.new;
    ctd = replicate n Ctd.new;
    rs = replicate n Rs.new;
    sr = replicate n Sr.new;
    r_trig = replicate n RTrig.new;
    f_trig = replicate n FTrig.new;
    pid = replicate n (Pid.default cv.floats);
  }

  unfoldable pub cold_reset_all : PrimitiveStore F → PrimitiveStore F
  cold_reset_all store = record {
    ton = map (λ _. Ton.new) store.ton;
    tof = map (λ _. Tof.new) store.tof;
    tp = map (λ _. Tp.new) store.tp;
    ctu = map (λ _. Ctu.new) store.ctu;
    ctd = map (λ _. Ctd.new) store.ctd;
    rs = map (λ _. Rs.new) store.rs;
    sr = map (λ _. Sr.new) store.sr;
    r_trig = map (λ _. RTrig.new) store.r_trig;
    f_trig = map (λ _. FTrig.new) store.f_trig;
    pid = map (Pid.cold_reset cv.floats) store.pid;
  }

  -- `inputs[i]`; the arity has been checked, so that it is in range.
  abbrev pub input_at : List (StackValue F) → ℕ → StackValue F
  input_at inputs i = get_or inputs i (bool false)

  call_ton :
      PrimitiveStore F
      → ℕ
      → List (StackValue F)
      → ℕ
      → Result (PrimitiveStore F × PrimitiveOutputs F) PrimitiveCallError
  call_ton store instance inputs now_ms = do
    inst ← ok_or (get_elem? store.ton instance) bad_instance
    input ← ok_or (as_bool (input_at inputs 0)) type_mismatch
    pt ← ok_or (as_dint (input_at inputs 1)) type_mismatch
    let inst' = Ton.eval inst input pt now_ms
    ok (record store { ton = set store.ton instance inst' }, two (bool inst'.q) (dint inst'.et))

  call_tof :
      PrimitiveStore F
      → ℕ
      → List (StackValue F)
      → ℕ
      → Result (PrimitiveStore F × PrimitiveOutputs F) PrimitiveCallError
  call_tof store instance inputs now_ms = do
    inst ← ok_or (get_elem? store.tof instance) bad_instance
    input ← ok_or (as_bool (input_at inputs 0)) type_mismatch
    pt ← ok_or (as_dint (input_at inputs 1)) type_mismatch
    let inst' = Tof.eval inst input pt now_ms
    ok (record store { tof = set store.tof instance inst' }, two (bool inst'.q) (dint inst'.et))

  call_tp :
      PrimitiveStore F
      → ℕ
      → List (StackValue F)
      → ℕ
      → Result (PrimitiveStore F × PrimitiveOutputs F) PrimitiveCallError
  call_tp store instance inputs now_ms = do
    inst ← ok_or (get_elem? store.tp instance) bad_instance
    input ← ok_or (as_bool (input_at inputs 0)) type_mismatch
    pt ← ok_or (as_dint (input_at inputs 1)) type_mismatch
    let inst' = Tp.eval inst input pt now_ms
    ok (record store { tp = set store.tp instance inst' }, two (bool inst'.q) (dint inst'.et))

  call_ctu :
      PrimitiveStore F
      → ℕ
      → List (StackValue F)
      → ℕ
      → Result (PrimitiveStore F × PrimitiveOutputs F) PrimitiveCallError
  call_ctu store instance inputs now_ms = do
    inst ← ok_or (get_elem? store.ctu instance) bad_instance
    cu ← ok_or (as_bool (input_at inputs 0)) type_mismatch
    r ← ok_or (as_bool (input_at inputs 1)) type_mismatch
    pv ← ok_or (as_dint (input_at inputs 2)) type_mismatch
    let inst' = Ctu.eval inst cu r pv
    ok (record store { ctu = set store.ctu instance inst' }, two (bool inst'.q) (dint inst'.cv))

  call_ctd :
      PrimitiveStore F
      → ℕ
      → List (StackValue F)
      → ℕ
      → Result (PrimitiveStore F × PrimitiveOutputs F) PrimitiveCallError
  call_ctd store instance inputs now_ms = do
    inst ← ok_or (get_elem? store.ctd instance) bad_instance
    cd ← ok_or (as_bool (input_at inputs 0)) type_mismatch
    ld ← ok_or (as_bool (input_at inputs 1)) type_mismatch
    pv ← ok_or (as_dint (input_at inputs 2)) type_mismatch
    let inst' = Ctd.eval inst cd ld pv
    ok (record store { ctd = set store.ctd instance inst' }, two (bool inst'.q) (dint inst'.cv))

  call_rs :
      PrimitiveStore F
      → ℕ
      → List (StackValue F)
      → ℕ
      → Result (PrimitiveStore F × PrimitiveOutputs F) PrimitiveCallError
  call_rs store instance inputs now_ms = do
    inst ← ok_or (get_elem? store.rs instance) bad_instance
    s ← ok_or (as_bool (input_at inputs 0)) type_mismatch
    r ← ok_or (as_bool (input_at inputs 1)) type_mismatch
    let inst' = Rs.eval inst s r
    ok (record store { rs = set store.rs instance inst' }, one (bool inst'.q))

  call_sr :
      PrimitiveStore F
      → ℕ
      → List (StackValue F)
      → ℕ
      → Result (PrimitiveStore F × PrimitiveOutputs F) PrimitiveCallError
  call_sr store instance inputs now_ms = do
    inst ← ok_or (get_elem? store.sr instance) bad_instance
    s ← ok_or (as_bool (input_at inputs 0)) type_mismatch
    r ← ok_or (as_bool (input_at inputs 1)) type_mismatch
    let inst' = Sr.eval inst s r
    ok (record store { sr = set store.sr instance inst' }, one (bool inst'.q))

  call_r_trig :
      PrimitiveStore F
      → ℕ
      → List (StackValue F)
      → ℕ
      → Result (PrimitiveStore F × PrimitiveOutputs F) PrimitiveCallError
  call_r_trig store instance inputs now_ms = do
    inst ← ok_or (get_elem? store.r_trig instance) bad_instance
    clk ← ok_or (as_bool (input_at inputs 0)) type_mismatch
    let inst' = RTrig.eval inst clk
    ok (record store { r_trig = set store.r_trig instance inst' }, one (bool inst'.q))

  call_f_trig :
      PrimitiveStore F
      → ℕ
      → List (StackValue F)
      → ℕ
      → Result (PrimitiveStore F × PrimitiveOutputs F) PrimitiveCallError
  call_f_trig store instance inputs now_ms = do
    inst ← ok_or (get_elem? store.f_trig instance) bad_instance
    clk ← ok_or (as_bool (input_at inputs 0)) type_mismatch
    let inst' = FTrig.eval inst clk
    ok (record store { f_trig = set store.f_trig instance inst' }, one (bool inst'.q))

  call_pid :
      PrimitiveStore F
      → ℕ
      → List (StackValue F)
      → ℕ
      → Result (PrimitiveStore F × PrimitiveOutputs F) PrimitiveCallError
  call_pid store instance inputs now_ms = do
    inst ← ok_or (get_elem? store.pid instance) bad_instance
    pv ← ok_or (as_real (input_at inputs 0)) type_mismatch
    sp ← ok_or (as_real (input_at inputs 1)) type_mismatch
    en ← ok_or (as_bool (input_at inputs 2)) type_mismatch
    let inst' = Pid.eval cv.floats inst pv sp en now_ms
    ok (record store { pid = set store.pid instance inst' }, one (real inst'.out))

  -- The arms of the `match`.
  call_arm :
      PrimitiveStore F
      → PrimitiveId
      → ℕ
      → List (StackValue F)
      → ℕ
      → Result (PrimitiveStore F × PrimitiveOutputs F) PrimitiveCallError
  unfolding call_ton call_tof call_tp call_ctu call_ctd call_rs call_sr call_r_trig call_f_trig
      call_pid
  call_arm store ton instance inputs now_ms = call_ton store instance inputs now_ms
  call_arm store tof instance inputs now_ms = call_tof store instance inputs now_ms
  call_arm store tp instance inputs now_ms = call_tp store instance inputs now_ms
  call_arm store ctu instance inputs now_ms = call_ctu store instance inputs now_ms
  call_arm store ctd instance inputs now_ms = call_ctd store instance inputs now_ms
  call_arm store rs instance inputs now_ms = call_rs store instance inputs now_ms
  call_arm store sr instance inputs now_ms = call_sr store instance inputs now_ms
  call_arm store r_trig instance inputs now_ms = call_r_trig store instance inputs now_ms
  call_arm store f_trig instance inputs now_ms = call_f_trig store instance inputs now_ms
  call_arm store pid instance inputs now_ms = call_pid store instance inputs now_ms

  unfoldable pub call_primitive :
      PrimitiveStore F
      → PrimitiveId
      → ℕ
      → List (StackValue F)
      → ℕ
      → Result (PrimitiveStore F × PrimitiveOutputs F) PrimitiveCallError
  unfolding call_arm
  call_primitive store id instance inputs now_ms =
      if not (length inputs == input_count id)
      then err (arity (input_count id) (length inputs % 2 ^ 8))
      else call_arm store id instance inputs now_ms
