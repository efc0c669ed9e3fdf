-- ===== src/Fb/Pid.antt =====
-- The controller of crates/plc-fb-primitives/src/pid.rs. The operations on `f32` are the
-- parameter `Floats`; the constants that the code writes are fields of it.
use my_soft_plc.Prelude.{ℕ, ◌-◌, Bool, true, false, not, ◌&&◌, if◌then◌else◌}

pub record Floats {ℓ} (F : Type ℓ) : Type ℓ where
  pub add : F → F → F
  pub sub : F → F → F
  pub mul : F → F → F
  pub div : F → F → F
  pub abs : F → F
  pub lt : F → F → Bool
  pub clamp : F → F → F → F  -- the value, the least and the greatest
  pub of_u64 : ℕ → F  -- `as f32`
  pub zero : F
  pub one : F
  pub hundred : F
  pub minus_hundred : F
  pub thousand : F
  pub epsilon : F

module _ {ℓ} where
  pub record Pid (F : Type ℓ) : Type ℓ where
    pub kp : F
    pub ki : F
    pub kd : F
    pub out_min : F
    pub out_max : F
    pub out : F
    pub integral : F
    pub last_err : F
    pub last_now_ms : ℕ
    pub initialized : Bool

module _ {ℓ} {F : Type ℓ} (fl : Floats F) where
  unfoldable pub new : F → F → F → F → F → Pid F
  new kp ki kd out_min out_max = record {
    kp = kp;
    ki = ki;
    kd = kd;
    out_min = out_min;
    out_max = out_max;
    out = fl.zero;
    integral = fl.zero;
    last_err = fl.zero;
    last_now_ms = 0;
    initialized = false;
  }

  unfoldable pub default : Pid F
  unfolding new
  default = new fl.one fl.zero fl.zero fl.minus_hundred fl.hundred

  unfoldable pub cold_reset : Pid F → Pid F
  cold_reset c = record c {
    out = fl.zero;
    integral = fl.zero;
    last_err = fl.zero;
    last_now_ms = 0;
    initialized = false;
  }

  unfoldable pub ki_or_one : Pid F → F
  ki_or_one c = if fl.lt (fl.abs c.ki) fl.epsilon then fl.one else fl.abs c.ki

  -- The seconds since the last sample, 0 at the first.
  unfoldable pub interval : Pid F → ℕ → F
  interval c now_ms =
      if c.initialized then fl.div (fl.of_u64 (now_ms - c.last_now_ms)) fl.thousand else fl.zero

  -- The two arms that set the integral and the output.
  unfoldable pub control : Pid F → F → F → Pid F
  unfolding ki_or_one
  control c e dt_s =
      let summed =
        fl.clamp (fl.add c.integral (fl.mul e dt_s)) (fl.div c.out_min (ki_or_one c))
          (fl.div c.out_max (ki_or_one c)) in
      let i_term = fl.mul c.ki summed in
      let d_term = fl.div (fl.mul c.kd (fl.sub e c.last_err)) dt_s in
      let p_term = fl.mul c.kp e in
      if c.initialized && fl.lt fl.zero dt_s
      then record c {
        integral = summed;
        out = fl.clamp (fl.add (fl.add p_term i_term) d_term) c.out_min c.out_max;
      }
      else record c { out = fl.clamp (fl.mul c.kp e) c.out_min c.out_max; integral = fl.zero }

  -- The new state; what the code returns is its `out`.
  unfoldable pub eval : Pid F → F → F → Bool → ℕ → Pid F
  unfolding control interval
  eval c pv sp enable now_ms =
      let e = fl.sub sp pv in
      if not enable then c else record (control c e (interval c now_ms)) {
        last_err = e;
        last_now_ms = now_ms;
        initialized = true;
      }
