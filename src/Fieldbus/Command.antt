-- ===== src/Fieldbus/Command.antt =====
-- The safety of the command pipeline: the sanitizer, then the jerk limiter.
use sonny.Prelude.{ℕ, ◌≡◌, refl, ◌∙◌, List, Returns}
use sonny.Float.{IsFinite-IsNumber}
use sonny.Vectors.{IsValid, from_bytes}
use sonny.Vectors.Valid.{from_bytes-IsValid}
use sonny.Limits.{Limits, IsOrdered}
use sonny.Sanitizer.Safety.{sanitize_and_clamp-IsSafe}
use sonny.Sanitizer.Outcome
use sonny.JerkLimiter.Bounds.{limit-InRange, InRange}
use sonny.JerkLimiter.Ready
use sonny.Fieldbus.{Pipeline, clamp_command, FieldbusConfig, period, new_pipeline}
use sonny.Health.{CycleMetric}
use sonny.JerkLimiter.Joint.{IsPeriod, IsLimited}
use sonny.JerkLimiter.Setup.{set_limits-IsReady, joint_tolerance}
use sonny.Prelude.{length, ◌≤◌, ◌<◌}
use sonny.Vectors.{max_joints}
use sonny.Sanitizer.Outcome.{new_sanitizer-IsReady}

-- A pipeline that is ready for a command.
pub record IsReady (limits : Limits) (p : Pipeline) : Type 0 where
  pub ordered : IsOrdered limits
  pub sanitizer : Outcome.IsReady p.sanitizer
  pub limiter : Ready.IsReady limits p.jerk_limiter

-- Whatever bytes arrive as a command, the pipeline does not panic, and what reaches the actuators is
-- a valid vector whose joints with limits hold finite values within them. The pipeline is then ready
-- for the next command.
pub clamp_command-InRange :
    (elapsed : ℕ) (limits : Limits) (p : Pipeline) (bytes : List ℕ)
    → IsReady limits p
    → Returns
        (λ out.
          IsReady limits out.0
          × IsValid out.1
          × (out.1.len ≡ (from_bytes bytes).len)
          × InRange limits out.1)
        (clamp_command elapsed limits p (from_bytes bytes))
unfolding clamp_command
clamp_command-InRange elapsed limits p bytes r =
    let (a, runs, (safe, va, la, ra)) =
      sanitize_and_clamp-IsSafe elapsed p.sanitizer (from_bytes bytes) limits p.metric r.ordered
        r.sanitizer (from_bytes-IsValid bytes) in
    let (b, runs', (rb, vb, lb, range)) =
      limit-InRange p.jerk_limiter a.1 limits r.ordered r.limiter va
        (λ i h. IsFinite-IsNumber _ (safe.finite i h)) in
    (
      (record { sanitizer = a.0; jerk_limiter = b.0; metric = a.2 }, b.1),
      rw (runs, runs') refl,
      (record { ordered = r.ordered; sanitizer = ra; limiter = rb }, vb, lb ∙ la, range),
    )

-- The pipeline of a configuration with ordered limits, one entry per joint in each list, at most 32,
-- a positive finite period, and bounds whose approach time does not overflow, is ready for a command.
pub new_pipeline-IsReady :
    (c : FieldbusConfig) (metric : CycleMetric)
    → IsOrdered c.joint_limits_rad
    → IsPeriod (period c.expected_hz)
    → length c.joint_limits_rad ≤ max_joints
    → length c.max_speed_rad_s ≡ length c.joint_limits_rad
    → length c.max_accel_rad_s2 ≡ length c.joint_limits_rad
    → length c.max_jerk_rad_s3 ≡ length c.joint_limits_rad
    → ((i : ℕ)
        → i < length c.joint_limits_rad
        → IsLimited (period c.expected_hz) (
            joint_tolerance
              (period c.expected_hz)
              c.joint_limits_rad
              c.max_speed_rad_s
              c.max_accel_rad_s2
              c.max_jerk_rad_s3
              i))
    → IsReady c.joint_limits_rad (new_pipeline c metric)
unfolding new_pipeline
new_pipeline-IsReady c metric o p n ev ea ej ok = record {
  ordered = o;
  sanitizer = new_sanitizer-IsReady;
  limiter =
      set_limits-IsReady (period c.expected_hz) c.joint_limits_rad c.max_speed_rad_s
        c.max_accel_rad_s2 c.max_jerk_rad_s3 p n ev ea ej ok;
}
