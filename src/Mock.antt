-- ===== src/Mock.antt =====
-- src/mocks/virtual_hardware_mock.rs: the simulated robot. A turn of its loop takes one event: a tick, a
-- command or a stop. `sin` is the mathematics library's; what a `put` answers comes with the event, and
-- one that fails ends the loop with its error. A robot on a fieldbus runs the loops of Fieldbus.
pub mod Loop
pub mod Ready
pub mod Runs
pub mod Stop
mod Tests
use sonny.Prelude.{
  ℕ, suc, ◌+◌, ◌*◌, ◌%◌, Bool, true, false, not, ◌&&◌, List, [], ◌∷◌, ◌++◌, Option, none, some,
  ◌>>=◌, ltb, ◌==◌, if◌then◌else◌, min, length, get_elem?, set, take, replicate, for_range,
  overwrite,
}
use sonny.Float.{F32, F64, f32, f64, add, sub, mul, narrow, of_uint}
use sonny.Vectors.{
  CommandVector, StateVector, max_joints, zero_array, from_bytes, as_slice, new_state, set_values,
  write_state,
}
use sonny.Health.{wrap64}
use sonny.Fieldbus.Loop.{is_active, same}

pub record MockState : Type 0 where
  pub targets : List F32
  pub current : List F32
  pub values : List F32
  pub command_received : Bool
  pub estop : Bool
  pub frames : ℕ
  pub tick : F64
  pub state : StateVector
  pub tx_buf : List ℕ

pub data Output : Type 0 where
  telemetry : List ℕ → Output
  status : (frames : ℕ) (estop : Bool) → Output

-- The locals before the loop.
unfoldable pub start : (now : ℕ) → (hardware_id : List ℕ) → MockState
unfolding new_state
start now hardware_id = record {
  targets = zero_array;
  current = zero_array;
  values = zero_array;
  command_received = false;
  estop = false;
  frames = 0;
  tick = 0;
  state = new_state now hardware_id [];
  tx_buf = replicate 128 0;
}

module _ (sin : F64 → F64) where
  -- `(tick + j as f64 * 0.5).sin() as f32`
  unfoldable pub wave : F64 → ℕ → F32
  wave tick j = narrow (sin (add f64 tick (mul f64 (of_uint f64 j) 0x3FE0_0000_0000_0000)))

  -- One joint: a fifth of the way to its target, once a command has come; zero while stopped.
  unfoldable pub move_joint : ℕ → (c t : F32) → MockState → MockState
  unfolding wave
  move_joint j c t s =
      let next = add f32 c (mul f32 (sub f32 t c) 0x3E4C_CCCD) in
      let val = if s.command_received then next else wave s.tick j in
      record s {
        current = if s.command_received then set s.current j next else s.current;
        values = set s.values j (if s.estop then 0 else val);
      }

  unfoldable pub simulate_joint : ℕ → MockState → Option MockState
  unfolding move_joint
  simulate_joint j s = do
    c ← get_elem? s.current j
    t ← get_elem? s.targets j
    some (move_joint j c t s)

  -- The values and their bytes. `values` keeps what it held behind the joints.
  unfoldable pub measure : (joint_count now : ℕ) → MockState → Option (MockState × List ℕ)
  unfolding simulate_joint set_values write_state
  measure joint_count now s = do
    let active = min joint_count max_joints
    s ← for_range active 0 simulate_joint s
    let state = set_values now s.state (take active s.values)
    out ← write_state state s.tx_buf
    some (record s { state = state; tx_buf = out.0 }, take out.1 out.0)

-- The rest of the tick, after the bytes were handed over; every hundredth frame tells the status. The
-- flags say whether the telemetry and the status went out.
unfoldable pub count_frame :
    (sent told : Bool) → MockState → List ℕ → MockState × List Output × Bool
count_frame false told s bytes = (s, telemetry bytes ∷ [], false)
count_frame true told s bytes =
    let frames = wrap64 (s.frames + 1) in
    let counted = record s { frames = frames } in
    let next = record counted { tick = add f64 s.tick 0x3FB9_9999_9999_999A } in
    if frames % 100 == 0
    then ((if told then next else counted), telemetry bytes ∷ status frames s.estop ∷ [], told)
    else (next, telemetry bytes ∷ [], true)

-- The arm of the tick.
unfoldable pub on_tick :
    (sin : F64 → F64)
    → (joint_count now : ℕ) → (sent told : Bool) → MockState
    → Option (MockState × List Output × Bool)
unfolding measure count_frame
on_tick sin joint_count now sent told s = do
  measured ← measure sin joint_count now s
  some (count_frame sent told measured.0 measured.1)

-- `targets.iter_mut().zip(values)`
unfoldable pub assign : List F32 → List F32 → List F32
unfolding overwrite
assign targets values = overwrite targets 0 (take (length targets) values)

-- The arm of a command.
unfoldable pub on_command : List ℕ → MockState → Option MockState
unfolding from_bytes as_slice assign
on_command bytes s =
    if not s.estop && (length bytes % 4 == 0)
    then (do
      values ← as_slice (from_bytes bytes)
      some (record s { command_received = true; targets = assign s.targets values }))
    else some s

-- The arm of a stop.
unfoldable pub on_estop : List ℕ → (told : Bool) → MockState → MockState × List Output × Bool
unfolding is_active
on_estop bytes told s =
    let active = is_active bytes in
    if same active s.estop then (s, [], true) else (
      record s { estop = active; targets = zero_array; current = zero_array },
      status s.frames active ∷ [],
      told,
    )
