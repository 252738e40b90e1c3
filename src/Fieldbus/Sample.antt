-- ===== src/Fieldbus/Sample.antt =====
-- A robot of one joint on a fieldbus, for the tests: what the loops start from.
use sonny.Prelude.{
  ℕ, ◌<◌, refl, true, false, List, [], ◌∷◌, replicate, arith, zero, suc, length, Bool, ◌≢◌, ap,
}
use sonny.Float.{le, is_finite, arithmetic, fmax}
use sonny.Health.{new_metric}
use sonny.Vectors.{StateVector, new_state, IsValidState}
use sonny.Limits.{Limits, pairs-IsOrdered}
use sonny.Sanitizer.{new_sanitizer}
use sonny.Sanitizer.Outcome.{new_sanitizer-IsReady}
use sonny.JerkLimiter.{default_dt, new_limiter, set_limits, approach_time}
use sonny.JerkLimiter.Joint.{IsLimited, IsPeriod}
use sonny.JerkLimiter.Setup.{set_limits-IsReady, joint_tolerance}
use sonny.Fieldbus.{FieldbusConfig, Pipeline, serial}
use sonny.Fieldbus.Loop.{LoopState}
use sonny.Fieldbus.Command.{IsReady}
use sonny.Brand.{RobotBrand, comau, luwu_dynamics}
use sonny.Adapters.Select.{adapter_for}
use sonny.Adapters.Comau.{comau_pdl2}
use sonny.Fieldbus.Serve.Outputs.{IsServing}

abbrev pub limits : Limits
limits = (0xBF80_0000, 0x3F80_0000) ∷ []

-- 1 rad/s, 2 rad/s², 100 rad/s³
abbrev pub pipeline : Pipeline
pipeline = record {
  sanitizer = new_sanitizer;
  jerk_limiter =
      set_limits (new_limiter default_dt) (0x3F80_0000 ∷ []) (0x4000_0000 ∷ []) (0x42C8_0000 ∷ []);
  metric = new_metric;
}

pub period : IsPeriod default_dt
unfolding is_finite
period = (refl, refl, λ e. absurd (omega (arith, e)))

pub is_limited :
    (i : ℕ)
    → i < length limits
    → IsLimited default_dt (
        joint_tolerance default_dt limits
          (0x3F80_0000 ∷ [])
          (0x4000_0000 ∷ [])
          (0x42C8_0000 ∷ [])
          i)
unfolding approach_time arithmetic is_finite fmax
is_limited zero h = record {
  vel = (refl, refl);
  acc = (refl, refl);
  jerk = (refl, refl);
  time = refl;
}
is_limited (suc i) h = absurd (omega arith)

pub ready : IsReady limits pipeline
unfolding is_finite le
ready = record {
  ordered = pairs-IsOrdered limits ((refl, refl, refl), tt);
  sanitizer = new_sanitizer-IsReady;
  limiter =
      set_limits-IsReady default_dt limits (0x3F80_0000 ∷ []) (0x4000_0000 ∷ []) (0x42C8_0000 ∷ [])
        period (omega arith) refl refl refl is_limited;
}

-- NaN on the wire, and one stray byte.
abbrev pub nan_bytes : List ℕ
nan_bytes = 0x00 ∷ 0x00 ∷ 0xC0 ∷ 0x7F ∷ 0x01 ∷ []

abbrev pub state : StateVector
state = new_state 0 [] []

pub state-IsValidState : IsValidState state
unfolding new_state
state-IsValidState = record { array = refl; active = omega arith }

abbrev pub config : FieldbusConfig
config = record {
  transport = serial;
  joint_count = 12;
  joint_limits_rad = limits;
  expected_hz = 0;
  max_speed_rad_s = [];
  max_accel_rad_s2 = [];
  max_jerk_rad_s3 = [];
}

is_luwu : RobotBrand → Bool
is_luwu luwu_dynamics = true
is_luwu _ = false

pub comau_ne_luwu : comau ≢ luwu_dynamics
comau_ne_luwu e = ground (arith, ap is_luwu e)

-- A Comau that is not stopped.
abbrev pub link : LoopState (adapter_for comau)
unfolding adapter_for comau_pdl2
link = record {
  receiver = record {
    adapter_state = tt;
    acc = [];
    frames = 0;
    state = state;
    tx_buf = replicate 128 0;
  };
  pipeline = pipeline;
  estop_active = false;
  cmd_buf = replicate 2048 0;
  poll_buf = replicate 64 0;
}

pub link-IsServing : IsServing (adapter_for comau) config link
unfolding link
link-IsServing = record { frames = omega arith; state = state-IsValidState; pipeline = ready }
