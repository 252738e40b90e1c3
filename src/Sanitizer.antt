-- ===== src/Sanitizer.antt =====
-- src/io_bridge/vector_sanitizer.rs: NaN and infinities are replaced by the joint's last safe value,
-- then the command is clamped to the limits. `none` is a panic, of an index or of `clamp` at a pair
-- of limits that is not ordered. The cycle's duration is an argument; its metric is the health probe's.
pub mod Safety
pub mod Outcome
mod Tests
use sonny.Prelude.{
  ℕ, Bool, ◌||◌, List, Option, none, some, ◌>>=◌, if◌then◌else◌, min, get_elem?, set, for_range,
}
use sonny.Float.{F32, f32, is_nan, is_infinite, clamp}
use sonny.Vectors.{CommandVector, max_joints, zero_array}
use sonny.Limits.{Limits, clamp_at}
use sonny.Health.{CycleMetric, record_ns}

pub record VectorSanitizer : Type 0 where
  pub last_safe : List F32

unfoldable pub new_sanitizer : VectorSanitizer
new_sanitizer = record { last_safe = zero_array }

abbrev pub is_illegal : F32 → Bool
is_illegal v = is_nan f32 v || is_infinite f32 v

-- One round of the loop, on the targets and the last safe values.
abbrev pub sanitize_joint : Limits → ℕ → List F32 × List F32 → Option (List F32 × List F32)
sanitize_joint limits i (targets, last_safe) = do
  v ← get_elem? targets i
  legal ← if is_illegal v then get_elem? last_safe i else some v
  safe ← clamp_at limits i legal
  some (set targets i safe, set last_safe i safe)

unfoldable pub sanitize_and_clamp :
    ℕ
    → VectorSanitizer
    → CommandVector
    → Limits
    → CycleMetric
    → Option (VectorSanitizer × CommandVector × CycleMetric)
sanitize_and_clamp elapsed_ns s command limits metric = do
  out ←
      for_range (min command.len max_joints) 0 (sanitize_joint limits)
        (command.target_actuators, s.last_safe)
  some (
    record { last_safe = out.1 },
    record command { target_actuators = out.0 },
    record_ns metric elapsed_ns,
  )
