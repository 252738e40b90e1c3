-- ===== src/Failsafe.antt =====
-- src/io_bridge/failsafe.rs: the guard that freezes the last healthy state and commands it again
-- while it is armed. `none` is a panic. The counters are `u64` and wrap; the reaction time is an
-- argument.
pub mod Hold
pub mod Snapshot
pub mod Blackout
mod Tests
use sonny.Prelude.{
  ℕ, ◌+◌, Bool, true, false, List, Option, none, some, ◌>>=◌, if◌then◌else◌, ltb, min, get_elem?,
  get_or, set, take, length, leb, copy_into, for_range,
}
use sonny.Float.{F32, f32, clamp}
use sonny.Vectors.{CommandVector, StateVector, max_joints, zero_array}
use sonny.Health.{wrap64}

pub record FailsafeGuard : Type 0 where
  pub engaged : Bool
  pub pressure_slot : ℕ
  pub max_grip_n : F32
  pub last_good : List F32
  pub last_good_pressure_n : F32
  pub blackout_frames : ℕ
  pub interventions : ℕ
  pub last_response_us : ℕ

unfoldable pub new_guard : ℕ → F32 → F32 → Option FailsafeGuard
new_guard pressure_slot nominal_grip_n max_grip_n = do
  nominal ← clamp f32 nominal_grip_n 0 max_grip_n
  some (record {
    engaged = false;
    pressure_slot = pressure_slot;
    max_grip_n = max_grip_n;
    last_good = zero_array;
    last_good_pressure_n = nominal;
    blackout_frames = 0;
    interventions = 0;
    last_response_us = 0;
  })

-- `&v[..n]`
abbrev pub slice : List F32 → ℕ → Option (List F32)
slice v n = if leb n (length v) then some (take n v) else none

abbrev pub hold_pressure : FailsafeGuard → List F32 → ℕ → Option FailsafeGuard
hold_pressure g values n =
    if ltb g.pressure_slot n
    then (do
      pressure ← get_elem? values g.pressure_slot
      safe ← clamp f32 pressure 0 g.max_grip_n
      some (record g { last_good_pressure_n = safe }))
    else some g

unfoldable pub snapshot_healthy : FailsafeGuard → StateVector → Option FailsafeGuard
snapshot_healthy g state = do
  let n = min state.len max_joints
  values ← slice state.values n
  last_good ← copy_into g.last_good 0 values
  hold_pressure (record g { last_good = last_good }) state.values n

unfoldable pub on_blackout : FailsafeGuard → FailsafeGuard
on_blackout g = record g { engaged = true; blackout_frames = wrap64 (g.blackout_frames + 1) }

unfoldable pub disengage : FailsafeGuard → FailsafeGuard
disengage g = record g { engaged = false }

abbrev pub hold_joint : FailsafeGuard → ℕ → List F32 → Option (List F32)
hold_joint g i targets = do
  v ← get_elem? g.last_good i
  if ltb i (length targets) then some (set targets i v) else none

abbrev pub put_pressure : FailsafeGuard → ℕ → List F32 → Option (List F32)
put_pressure g n targets =
    if ltb g.pressure_slot n
    then (if ltb g.pressure_slot (length targets)
        then some (set targets g.pressure_slot g.last_good_pressure_n)
        else none)
    else some targets

-- The guard and the command after a call that took `elapsed_us`; the reaction time is returned too.
unfoldable pub enforce :
    ℕ → FailsafeGuard → CommandVector → Option (FailsafeGuard × CommandVector × ℕ)
enforce elapsed_us g command =
    let n = min command.len max_joints in
    if g.engaged
    then (do
      held ← for_range n 0 (hold_joint g) command.target_actuators
      targets ← put_pressure g n held
      some (
        record g { interventions = wrap64 (g.interventions + 1); last_response_us = elapsed_us },
        record command { target_actuators = targets },
        elapsed_us,
      ))
    else some (record g { last_response_us = elapsed_us }, command, elapsed_us)
