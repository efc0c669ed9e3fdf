-- ===== src/Fb/Dispatch/Calls.antt =====
-- What a call of a native block changes (crates/plc-fb-primitives/src/dispatch.rs).
use my_soft_plc.Prelude.{
  ℕ, ◌≡◌, ◌≢◌, refl, Option, none, some, List, ok, get_elem?, get_elem?-set_ne, set, arith, length,
  sym, ap,
}
use mathlib.Core.Option.{map}
use my_soft_plc.Ir.PrimitiveId.{
  PrimitiveId, ton, tof, tp, ctu, ctd, rs, sr, r_trig, f_trig, pid, input_count, output_count,
}
use my_soft_plc.Fb.Ton
use my_soft_plc.Fb.Tof
use my_soft_plc.Fb.Tp
use my_soft_plc.Fb.Ctu
use my_soft_plc.Fb.Ctd
use my_soft_plc.Fb.Rs
use my_soft_plc.Fb.Sr
use my_soft_plc.Fb.RTrig
use my_soft_plc.Fb.FTrig
use my_soft_plc.Fb.Pid
use my_soft_plc.Fb.Dispatch.Inputs.{one_input, two_inputs, three_inputs}
use my_soft_plc.Fb.Dispatch.{
  StackValue, PrimitiveStore, PrimitiveOutputs, Conversions, call_primitive, call_arm, as_bool,
  as_dint, as_real, input_at,
}

module _ {ℓ} where
  -- An instance of any block.
  pub data Block (F : Type ℓ) : Type ℓ where
    of_ton : Ton.Ton → Block F
    of_tof : Tof.Tof → Block F
    of_tp : Tp.Tp → Block F
    of_ctu : Ctu.Ctu → Block F
    of_ctd : Ctd.Ctd → Block F
    of_rs : Rs.Rs → Block F
    of_sr : Sr.Sr → Block F
    of_r_trig : RTrig.RTrig → Block F
    of_f_trig : FTrig.FTrig → Block F
    of_pid : Pid.Pid F → Block F

module _ {ℓ} {F : Type ℓ} where
  abbrev pub block_at : PrimitiveStore F → PrimitiveId → ℕ → Option (Block F)
  block_at s ton i = map of_ton (get_elem? s.ton i)
  block_at s tof i = map of_tof (get_elem? s.tof i)
  block_at s tp i = map of_tp (get_elem? s.tp i)
  block_at s ctu i = map of_ctu (get_elem? s.ctu i)
  block_at s ctd i = map of_ctd (get_elem? s.ctd i)
  block_at s rs i = map of_rs (get_elem? s.rs i)
  block_at s sr i = map of_sr (get_elem? s.sr i)
  block_at s r_trig i = map of_r_trig (get_elem? s.r_trig i)
  block_at s f_trig i = map of_f_trig (get_elem? s.f_trig i)
  block_at s pid i = map of_pid (get_elem? s.pid i)

  -- From `s`, a call of an instance that exists leaves the store of `r`, in which every other
  -- instance of every kind is as it was, and gives as many outputs as the block declares.
  pub record Called (s : PrimitiveStore F) (id : PrimitiveId) (n : ℕ)
      (r : PrimitiveStore F × PrimitiveOutputs F) : Type ℓ where
    pub known : block_at s id n ≢ none
    pub same_kind : (i : ℕ) → i ≢ n → block_at r.0 id i ≡ block_at s id i
    pub other_kinds :
        (kind : PrimitiveId) (i : ℕ) → kind ≢ id → block_at r.0 kind i ≡ block_at s kind i
    pub outputs : r.1.count ≡ output_count id

  ton_written :
      (s : PrimitiveStore F) (n : ℕ) (old new : Ton.Ton) (out : PrimitiveOutputs F)
      → get_elem? s.ton n ≡ some old
      → out.count ≡ output_count ton
      → Called s ton n (record s { ton = set s.ton n new }, out)
  ton_written s n old new out h c = record {
    known = λ e. ground arith;
    same_kind = λ i d. ap (map of_ton) (get_elem?-set_ne s.ton new (λ e. d (sym e)));
    other_kinds = λ kind i d. ground arith;
    outputs = c;
  }

  tof_written :
      (s : PrimitiveStore F) (n : ℕ) (old new : Tof.Tof) (out : PrimitiveOutputs F)
      → get_elem? s.tof n ≡ some old
      → out.count ≡ output_count tof
      → Called s tof n (record s { tof = set s.tof n new }, out)
  tof_written s n old new out h c = record {
    known = λ e. ground arith;
    same_kind = λ i d. ap (map of_tof) (get_elem?-set_ne s.tof new (λ e. d (sym e)));
    other_kinds = λ kind i d. ground arith;
    outputs = c;
  }

  tp_written :
      (s : PrimitiveStore F) (n : ℕ) (old new : Tp.Tp) (out : PrimitiveOutputs F)
      → get_elem? s.tp n ≡ some old
      → out.count ≡ output_count tp
      → Called s tp n (record s { tp = set s.tp n new }, out)
  tp_written s n old new out h c = record {
    known = λ e. ground arith;
    same_kind = λ i d. ap (map of_tp) (get_elem?-set_ne s.tp new (λ e. d (sym e)));
    other_kinds = λ kind i d. ground arith;
    outputs = c;
  }

  ctu_written :
      (s : PrimitiveStore F) (n : ℕ) (old new : Ctu.Ctu) (out : PrimitiveOutputs F)
      → get_elem? s.ctu n ≡ some old
      → out.count ≡ output_count ctu
      → Called s ctu n (record s { ctu = set s.ctu n new }, out)
  ctu_written s n old new out h c = record {
    known = λ e. ground arith;
    same_kind = λ i d. ap (map of_ctu) (get_elem?-set_ne s.ctu new (λ e. d (sym e)));
    other_kinds = λ kind i d. ground arith;
    outputs = c;
  }

  ctd_written :
      (s : PrimitiveStore F) (n : ℕ) (old new : Ctd.Ctd) (out : PrimitiveOutputs F)
      → get_elem? s.ctd n ≡ some old
      → out.count ≡ output_count ctd
      → Called s ctd n (record s { ctd = set s.ctd n new }, out)
  ctd_written s n old new out h c = record {
    known = λ e. ground arith;
    same_kind = λ i d. ap (map of_ctd) (get_elem?-set_ne s.ctd new (λ e. d (sym e)));
    other_kinds = λ kind i d. ground arith;
    outputs = c;
  }

  rs_written :
      (s : PrimitiveStore F) (n : ℕ) (old new : Rs.Rs) (out : PrimitiveOutputs F)
      → get_elem? s.rs n ≡ some old
      → out.count ≡ output_count rs
      → Called s rs n (record s { rs = set s.rs n new }, out)
  rs_written s n old new out h c = record {
    known = λ e. ground arith;
    same_kind = λ i d. ap (map of_rs) (get_elem?-set_ne s.rs new (λ e. d (sym e)));
    other_kinds = λ kind i d. ground arith;
    outputs = c;
  }

  sr_written :
      (s : PrimitiveStore F) (n : ℕ) (old new : Sr.Sr) (out : PrimitiveOutputs F)
      → get_elem? s.sr n ≡ some old
      → out.count ≡ output_count sr
      → Called s sr n (record s { sr = set s.sr n new }, out)
  sr_written s n old new out h c = record {
    known = λ e. ground arith;
    same_kind = λ i d. ap (map of_sr) (get_elem?-set_ne s.sr new (λ e. d (sym e)));
    other_kinds = λ kind i d. ground arith;
    outputs = c;
  }

  r_trig_written :
      (s : PrimitiveStore F) (n : ℕ) (old new : RTrig.RTrig) (out : PrimitiveOutputs F)
      → get_elem? s.r_trig n ≡ some old
      → out.count ≡ output_count r_trig
      → Called s r_trig n (record s { r_trig = set s.r_trig n new }, out)
  r_trig_written s n old new out h c = record {
    known = λ e. ground arith;
    same_kind = λ i d. ap (map of_r_trig) (get_elem?-set_ne s.r_trig new (λ e. d (sym e)));
    other_kinds = λ kind i d. ground arith;
    outputs = c;
  }

  f_trig_written :
      (s : PrimitiveStore F) (n : ℕ) (old new : FTrig.FTrig) (out : PrimitiveOutputs F)
      → get_elem? s.f_trig n ≡ some old
      → out.count ≡ output_count f_trig
      → Called s f_trig n (record s { f_trig = set s.f_trig n new }, out)
  f_trig_written s n old new out h c = record {
    known = λ e. ground arith;
    same_kind = λ i d. ap (map of_f_trig) (get_elem?-set_ne s.f_trig new (λ e. d (sym e)));
    other_kinds = λ kind i d. ground arith;
    outputs = c;
  }

  pid_written :
      (s : PrimitiveStore F) (n : ℕ) (old new : Pid.Pid F) (out : PrimitiveOutputs F)
      → get_elem? s.pid n ≡ some old
      → out.count ≡ output_count pid
      → Called s pid n (record s { pid = set s.pid n new }, out)
  pid_written s n old new out h c = record {
    known = λ e. ground arith;
    same_kind = λ i d. ap (map of_pid) (get_elem?-set_ne s.pid new (λ e. d (sym e)));
    other_kinds = λ kind i d. ground arith;
    outputs = c;
  }

module _ {ℓ} {F : Type ℓ} (cv : Conversions F) where
  arm_Called :
      (s : PrimitiveStore F) (id : PrimitiveId) (n : ℕ) (inputs : List (StackValue F)) (now_ms : ℕ)
      {r : PrimitiveStore F × PrimitiveOutputs F}
      → call_arm cv s id n inputs now_ms ≡ ok r
      → Called s id n r
  unfolding call_arm output_count
  arm_Called s ton n inputs now_ms h =
      two_inputs (Called s ton n) (get_elem? s.ton n) (as_bool cv (input_at cv inputs 0))
        (as_dint cv (input_at cv inputs 1)) _ h
        (λ inst x y found. ton_written s n inst _ _ found refl)
  arm_Called s tof n inputs now_ms h =
      two_inputs (Called s tof n) (get_elem? s.tof n) (as_bool cv (input_at cv inputs 0))
        (as_dint cv (input_at cv inputs 1)) _ h
        (λ inst x y found. tof_written s n inst _ _ found refl)
  arm_Called s tp n inputs now_ms h =
      two_inputs (Called s tp n) (get_elem? s.tp n) (as_bool cv (input_at cv inputs 0))
        (as_dint cv (input_at cv inputs 1)) _ h
        (λ inst x y found. tp_written s n inst _ _ found refl)
  arm_Called s ctu n inputs now_ms h =
      three_inputs (Called s ctu n) (get_elem? s.ctu n) (as_bool cv (input_at cv inputs 0))
        (as_bool cv (input_at cv inputs 1)) (as_dint cv (input_at cv inputs 2)) _ h
        (λ inst x y z found. ctu_written s n inst _ _ found refl)
  arm_Called s ctd n inputs now_ms h =
      three_inputs (Called s ctd n) (get_elem? s.ctd n) (as_bool cv (input_at cv inputs 0))
        (as_bool cv (input_at cv inputs 1)) (as_dint cv (input_at cv inputs 2)) _ h
        (λ inst x y z found. ctd_written s n inst _ _ found refl)
  arm_Called s rs n inputs now_ms h =
      two_inputs (Called s rs n) (get_elem? s.rs n) (as_bool cv (input_at cv inputs 0))
        (as_bool cv (input_at cv inputs 1)) _ h
        (λ inst x y found. rs_written s n inst _ _ found refl)
  arm_Called s sr n inputs now_ms h =
      two_inputs (Called s sr n) (get_elem? s.sr n) (as_bool cv (input_at cv inputs 0))
        (as_bool cv (input_at cv inputs 1)) _ h
        (λ inst x y found. sr_written s n inst _ _ found refl)
  arm_Called s r_trig n inputs now_ms h =
      one_input (Called s r_trig n) (get_elem? s.r_trig n) (as_bool cv (input_at cv inputs 0)) _ h
        (λ inst x found. r_trig_written s n inst _ _ found refl)
  arm_Called s f_trig n inputs now_ms h =
      one_input (Called s f_trig n) (get_elem? s.f_trig n) (as_bool cv (input_at cv inputs 0)) _ h
        (λ inst x found. f_trig_written s n inst _ _ found refl)
  arm_Called s pid n inputs now_ms h =
      three_inputs (Called s pid n) (get_elem? s.pid n) (as_real cv (input_at cv inputs 0))
        (as_real cv (input_at cv inputs 1)) (as_bool cv (input_at cv inputs 2)) _ h
        (λ inst x y z found. pid_written s n inst _ _ found refl)

  -- A call that succeeds had the inputs that the block declares, and an instance that exists. It
  -- leaves every other instance of every kind as it was, and gives as many outputs as the block
  -- declares.
  pub call_primitive-Called :
      (s : PrimitiveStore F) (id : PrimitiveId) (n : ℕ) (inputs : List (StackValue F)) (now_ms : ℕ)
      (r : PrimitiveStore F × PrimitiveOutputs F)
      → call_primitive cv s id n inputs now_ms ≡ ok r
      → (length inputs ≡ input_count id) × Called s id n r
  unfolding call_primitive
  call_primitive-Called s id n inputs now_ms r h =
      (ground arith, arm_Called s id n inputs now_ms (ground arith))
