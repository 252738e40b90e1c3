-- ===== src/JerkLimiter.antt =====
-- src/io_bridge/jerk_limiter.rs: the third-order saturation chain, joint by joint. `none` is a panic,
-- of an index or of a `clamp` whose bounds are not ordered (a negative or NaN tolerance).
pub mod Joint
pub mod Bounds
pub mod Setup
pub mod Ready
mod Tests
use sonny.Prelude.{
  ℕ, Bool, ◌&&◌, List, Option, none, some, ◌>>=◌, if◌then◌else◌, min, length, get_elem?, set, take,
  replicate, overwrite, for_range,
}
use sonny.Float.{F32, f32, is_finite, lt, neg, abs, fmin, fmax, clamp, add, sub, mul, div, sqrt}
use sonny.Vectors.{CommandVector, max_joints, zero_array}
use sonny.Limits.{Limits, clamp_at}

-- `2.0` and `0.01`
abbrev two : F32
two = 0x4000_0000

abbrev pub default_dt : F32
default_dt = 0x3c23_d70a

pub record JerkLimiter : Type 0 where
  pub dt : F32
  pub prev_pos : List F32
  pub prev_vel : List F32
  pub prev_acc : List F32
  pub max_vel : List F32
  pub max_acc : List F32
  pub max_jerk : List F32

-- `[f32::INFINITY; MAX_JOINTS]`
abbrev pub infinite_array : List F32
infinite_array = replicate 32 f32.inf

unfoldable pub new_limiter : F32 → JerkLimiter
new_limiter dt = record {
  dt = if lt f32 0 dt then dt else default_dt;
  prev_pos = zero_array;
  prev_vel = zero_array;
  prev_acc = zero_array;
  max_vel = infinite_array;
  max_acc = infinite_array;
  max_jerk = infinite_array;
}

unfoldable pub copy_limit : List F32 → List F32 → List F32
unfolding overwrite
copy_limit dst src = let n = min (length src) max_joints in overwrite dst 0 (take n src)

unfoldable pub set_limits : JerkLimiter → List F32 → List F32 → List F32 → JerkLimiter
unfolding copy_limit
set_limits l max_vel max_acc max_jerk = record l {
  max_vel = copy_limit l.max_vel max_vel;
  max_acc = copy_limit l.max_acc max_acc;
  max_jerk = copy_limit l.max_jerk max_jerk;
}

-- The tolerances of one joint, and its position, velocity and acceleration in a frame.
pub record Tolerance : Type 0 where
  pub vmax : F32
  pub amax : F32
  pub jmax : F32

pub record Motion : Type 0 where
  pub pos : F32
  pub vel : F32
  pub acc : F32

-- `if bound.is_finite() { v = v.clamp(-bound, bound); }`
unfoldable pub saturate : F32 → F32 → Option F32
saturate bound v = if is_finite f32 bound then clamp f32 v (neg f32 bound) bound else some v

-- The approach time constant.
unfoldable pub approach_time : F32 → Tolerance → F32
approach_time dt t =
    let from_vel =
      if is_finite f32 t.vmax && is_finite f32 t.amax then div f32 t.vmax t.amax else 0 in
    let from_jerk =
      if is_finite f32 t.amax && is_finite f32 t.jmax then div f32 t.amax t.jmax else 0 in
    fmax f32 (add f32 from_vel from_jerk) dt

-- The velocity from which the joint still stops within `dist`.
unfoldable pub velocity_limit : Tolerance → F32 → F32
velocity_limit t dist =
    if is_finite f32 t.amax
    then fmin f32 t.vmax (sqrt f32 (mul f32 (mul f32 two t.amax) (abs f32 dist)))
    else t.vmax

unfoldable pub desired_velocity : F32 → Tolerance → F32 → Option F32
desired_velocity dt t dist = saturate (velocity_limit t dist) (div f32 dist (approach_time dt t))

unfoldable pub desired_acceleration : F32 → Tolerance → F32 → F32 → Option F32
desired_acceleration dt t prev_vel v_des = saturate t.amax (div f32 (sub f32 v_des prev_vel) dt)

-- The change of the acceleration since the last frame, limited to jmax * dt.
unfoldable pub jerk_step : F32 → Tolerance → F32 → F32 → Option F32
jerk_step dt t prev_acc a_des =
    let a_step = mul f32 t.jmax dt in
    if is_finite f32 t.jmax
    then (do
      step ← clamp f32 (sub f32 a_des prev_acc) (neg f32 a_step) a_step
      some (add f32 step prev_acc))
    else some a_des

-- The body of the loop of `limit` for joint `i`.
unfoldable pub limit_joint : F32 → Limits → ℕ → Tolerance → Motion → F32 → Option Motion
limit_joint dt limits i t prev target = do
  let dist = sub f32 target prev.pos
  v_des ← desired_velocity dt t dist
  a_des ← desired_acceleration dt t prev.vel v_des
  stepped ← jerk_step dt t prev.acc a_des
  a ← saturate t.amax stepped
  v ← saturate t.vmax (add f32 prev.vel (mul f32 a dt))
  q ← clamp_at limits i (add f32 prev.pos (mul f32 v dt))
  some (record { pos = q; vel = v; acc = a })

-- What the loop changes.
pub record Frame : Type 0 where
  pub target : List F32
  pub pos : List F32
  pub vel : List F32
  pub acc : List F32

abbrev pub limit_round : JerkLimiter → Limits → ℕ → Frame → Option Frame
limit_round l limits i s = do
  target ← get_elem? s.target i
  vmax ← get_elem? l.max_vel i
  amax ← get_elem? l.max_acc i
  jmax ← get_elem? l.max_jerk i
  pos ← get_elem? s.pos i
  vel ← get_elem? s.vel i
  acc ← get_elem? s.acc i
  m ←
      limit_joint l.dt limits i (record { vmax = vmax; amax = amax; jmax = jmax })
        (record { pos = pos; vel = vel; acc = acc }) target
  some (record {
    target = set s.target i m.pos;
    pos = set s.pos i m.pos;
    vel = set s.vel i m.vel;
    acc = set s.acc i m.acc;
  })

unfoldable pub limit : JerkLimiter → CommandVector → Limits → Option (JerkLimiter × CommandVector)
limit l command limits = do
  s ← for_range (min command.len max_joints) 0 (limit_round l limits) (record {
    target = command.target_actuators;
    pos = l.prev_pos;
    vel = l.prev_vel;
    acc = l.prev_acc;
  })
  some (
    record l { prev_pos = s.pos; prev_vel = s.vel; prev_acc = s.acc },
    record command { target_actuators = s.target },
  )
