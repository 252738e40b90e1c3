-- ===== src/JerkLimiter/Tests.antt =====
-- A limiter for one joint: [-1, 1] rad, 1 rad/s, 2 rad/s², 100 rad/s³, a tick of 10 ms.
use sonny.Prelude.{
  ℕ, ◌≡◌, ◌<◌, refl, [], ◌∷◌, some, ◌>>=◌, for_range, take, zero, suc, arith, length, get_or,
  Returns,
}
use sonny.Float.{le, is_finite, IsNumber, is_nan, arithmetic, fmax, fmin, abs, clamp}
use sonny.Vectors.{CommandVector, from_slice, IsValid}
use sonny.Vectors.Valid.{from_slice-IsValid}
use sonny.Limits.{Limits, IsOrdered, pairs-IsOrdered}
use sonny.JerkLimiter.{
  JerkLimiter, default_dt, new_limiter, set_limits, limit, limit_joint, desired_velocity,
  desired_acceleration, saturate, velocity_limit, jerk_step, approach_time,
}
use sonny.JerkLimiter.Joint.{IsLimited, IsPeriod}
use sonny.JerkLimiter.Ready.{IsReady}
use sonny.JerkLimiter.Bounds.{InRange, limit-InRange}
use sonny.JerkLimiter.Setup.{set_limits-IsReady, joint_tolerance}

abbrev limits : Limits
limits = (0xBF80_0000, 0x3F80_0000) ∷ []

ordered : IsOrdered limits
unfolding is_finite le
ordered = pairs-IsOrdered limits ((refl, refl, refl), tt)

abbrev limiter : JerkLimiter
limiter =
    set_limits (new_limiter default_dt) (0x3F80_0000 ∷ []) (0x4000_0000 ∷ []) (0x42C8_0000 ∷ [])

is_limited :
    (i : ℕ)
    → i < length limits
    → IsLimited default_dt (
        joint_tolerance default_dt limits
          (0x3F80_0000 ∷ [])
          (0x4000_0000 ∷ [])
          (0x42C8_0000 ∷ [])
          i)
unfolding approach_time arithmetic is_finite fmax
is_limited zero h = record {
  vel = (refl, refl);
  acc = (refl, refl);
  jerk = (refl, refl);
  time = refl;
}
is_limited (suc i) h = absurd (omega arith)

period : IsPeriod default_dt
unfolding is_finite
period = (refl, refl, λ e. absurd (omega (arith, e)))

limiter-IsReady : IsReady limits limiter
limiter-IsReady =
    set_limits-IsReady default_dt limits (0x3F80_0000 ∷ []) (0x4000_0000 ∷ []) (0x42C8_0000 ∷ [])
      period (omega arith) refl refl refl is_limited

-- A jump to 5.0 rad: the first frame moves by 0.0001 rad.
abbrev jump : CommandVector
jump = from_slice (0x40A0_0000 ∷ [])

numbers : (i : ℕ) → i < jump.len → IsNumber (get_or jump.target_actuators i 0)
unfolding is_nan from_slice
numbers zero h = refl
numbers (suc i) h = absurd (omega arith)

limit-InRange_example :
    Returns
      (λ out. IsReady limits out.0 × IsValid out.1 × (out.1.len ≡ jump.len) × InRange limits out.1)
      (limit limiter jump limits)
limit-InRange_example =
    limit-InRange limiter jump limits ordered limiter-IsReady
      (from_slice-IsValid (0x40A0_0000 ∷ [])) numbers

first_frame :
    (do out ← limit limiter jump limits; some (take 1 out.1.target_actuators))
    ≡ some (0x38D1_B717 ∷ [])
unfolding limit set_limits new_limiter from_slice limit_joint arithmetic for_range desired_velocity
    saturate is_finite velocity_limit fmin abs clamp desired_acceleration jerk_step approach_time
    fmax
first_frame = refl
