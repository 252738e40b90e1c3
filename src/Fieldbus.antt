-- ===== src/Fieldbus.antt =====
-- src/io_bridge/hardware_abstraction.rs: the loops between a fieldbus and the session. The three
-- loops of the source differ in three places, which `Transport` decides: only the serial loop polls,
-- and only the UDP loop keeps its command buffer. What the operating system and the session answer
-- comes in as events; failures that are only logged change nothing. Fieldbus/Reconnect opens the
-- transport, again after each failure. The log lines are not modelled.
pub mod Command
pub mod Drain
pub mod Messages
pub mod Loop
pub mod Stop
pub mod Progress
pub mod Brands
pub mod Serve
pub mod Reconnect
pub mod Sample
mod Tests
use sonny.Prelude.{
  ℕ, zero, suc, ◌+◌, ◌*◌, ◌^◌, Bool, true, false, not, ◌&&◌, List, [], ◌∷◌, ◌++◌, Option, none,
  some, ◌>>=◌, if◌then◌else◌, ltb, ◌==◌, min, length, get_elem?, set, take, drop, replicate,
  for_range,
}
use sonny.Float.{F32, F64, f32, f64, lt, div, narrow, clamp}
use sonny.Vectors.{CommandVector, StateVector, max_joints, new, from_bytes, set_values, write_state}
use sonny.Limits.{Limits, clamp_at}
use sonny.Health.{CycleMetric, wrap64}
use sonny.Sanitizer.{VectorSanitizer, new_sanitizer, sanitize_and_clamp}
use sonny.JerkLimiter.{JerkLimiter, new_limiter, set_limits, limit}
use sonny.Adapters.{BrandAdapter, Decoded, Encoded}

pub data Transport : Type 0 where
  serial : Transport
  udp : Transport
  tcp : Transport

-- The fields that the loops read.
pub record FieldbusConfig : Type 0 where
  pub transport : Transport
  pub joint_count : ℕ
  pub joint_limits_rad : Limits
  pub expected_hz : F64
  pub max_speed_rad_s : List F32
  pub max_accel_rad_s2 : List F32
  pub max_jerk_rad_s3 : List F32

-- One round of the loop of `clamp_to_limits`.
abbrev pub clamp_value : List F32 → Limits → ℕ → List F32 → Option (List F32)
clamp_value values limits i targets = do
  v ← get_elem? values i
  held ← clamp_at limits i v
  some (set targets i held)

unfoldable pub clamp_to_limits : List F32 → Limits → Option CommandVector
unfolding new
clamp_to_limits values limits = do
  let n = min (length values) max_joints
  targets ← for_range n 0 (clamp_value values limits) new.target_actuators
  some (record { target_actuators = targets; len = n })

-- The two mutexes and the health probe's metric, which the sanitizer writes.
pub record Pipeline : Type 0 where
  pub sanitizer : VectorSanitizer
  pub jerk_limiter : JerkLimiter
  pub metric : CycleMetric

-- `1.0 / expected_hz as f32`, or 0.01
unfoldable pub period : F64 → F32
period expected_hz =
    if lt f64 0 expected_hz then div f32 0x3F80_0000 (narrow expected_hz) else 0x3C23_D70A

-- `HardwareAbstraction::new`, but for the adapter.
unfoldable pub new_pipeline : FieldbusConfig → CycleMetric → Pipeline
unfolding period set_limits new_limiter new_sanitizer
new_pipeline config metric = record {
  sanitizer = new_sanitizer;
  jerk_limiter =
      set_limits (new_limiter (period config.expected_hz)) config.max_speed_rad_s
        config.max_accel_rad_s2 config.max_jerk_rad_s3;
  metric = metric;
}

unfoldable pub clamp_command :
    (elapsed_ns : ℕ) → Limits → Pipeline → CommandVector → Option (Pipeline × CommandVector)
clamp_command elapsed_ns limits p command = do
  sanitized ← sanitize_and_clamp elapsed_ns p.sanitizer command limits p.metric
  limited ← limit p.jerk_limiter sanitized.1 limits
  some (
    record { sanitizer = sanitized.0; jerk_limiter = limited.0; metric = sanitized.2 },
    limited.1,
  )

-- What leaves the loop.
pub data Output : Type 0 where
  telemetry : List ℕ → Output
  sent : List ℕ → Output
  status : (online : Bool) (frames : ℕ) (estop : Bool) → Output

-- A run of a loop ends, panics, or is not through when the fuel is used up.
pub data Run (A : Type 0) : Type 0 where
  done : A → Run A
  panicked : Run A
  unfinished : Run A

-- The accumulator and what `drain_frames` changes with it.
pub record Receiver (S : Type 0) : Type 0 where
  pub adapter_state : S
  pub acc : List ℕ
  pub frames : ℕ
  pub state : StateVector
  pub tx_buf : List ℕ

module _ (adapter : BrandAdapter) (joint_count : ℕ) where
  -- A decoded message: the bytes published, if any, and the receiver without the consumed bytes.
  -- `&values[..n]` and `drain(..consumed)` panic past the end.
  unfoldable pub take_message :
      (now : ℕ) → Receiver adapter.State → Decoded → Option (Receiver adapter.State × List Output)
  unfolding set_values write_state
  take_message now r (consumed, values, n) = do
    rest ← if ltb (length r.acc) consumed then none else some (drop consumed r.acc)
    if ltb 0 n
        then (if ltb (length values) n then none else (do
          let state = set_values now r.state (take n values)
          out ← write_state state r.tx_buf
          some (
            record r { acc = rest; state = state; tx_buf = out.0; frames = wrap64 (r.frames + 1) },
            telemetry (take out.1 out.0) ∷ [],
          )))
        else some (record r { acc = rest }, [])

  -- The loop, with its rounds counted by the fuel.
  unfoldable pub drain_frames :
      (fuel now : ℕ) → Receiver adapter.State → Run (Receiver adapter.State × List Output)
  unfolding take_message
  drain_frames zero now r = unfinished
  drain_frames (suc fuel) now r =
      elim (adapter.decode_telemetry r.adapter_state r.acc joint_count) [
        | none ↦ panicked
        | some (s, none) ↦ done (record r { adapter_state = s }, [])
        | some (s, some decoded) ↦
            elim (take_message now (record r { adapter_state = s }) decoded) [
              | none ↦ panicked
              | some (r', published) ↦ elim (drain_frames fuel now r') [
                | done (last, later) ↦ done (last, published ++ later)
                | panicked ↦ panicked
                | unfinished ↦ unfinished
              ]
            ]
      ]
