-- ===== src/JerkLimiter/Ready.antt =====
-- The state that the limiter keeps between two frames, and what a frame makes of one joint of it.
use sonny.Prelude.{ℕ, ◌<◌, ◌≡◌, ◌⊎◌, inl, inr, none, some, length, get_elem?, get_or, Returns}
use sonny.Float.{F32, f32, is_finite, IsFinite, IsNumber, Within, div, sub, add, mul}
use sonny.Vectors.{max_joints}
use sonny.Limits.{Limits, clamped, clamp_at-IsOrdered, IsOrdered}
use sonny.JerkLimiter.{
  approach_time, JerkLimiter, Tolerance, Motion, saturate, velocity_limit, desired_velocity,
  desired_acceleration, jerk_step, limit_joint,
}
use sonny.JerkLimiter.Joint.{IsPeriod, IsLimited, Keeps, limit_joint-Keeps}

abbrev pub tolerance : JerkLimiter → ℕ → Tolerance
tolerance l i = record {
  vmax = get_or l.max_vel i 0;
  amax = get_or l.max_acc i 0;
  jmax = get_or l.max_jerk i 0;
}

abbrev pub motion : JerkLimiter → ℕ → Motion
motion l i = record {
  pos = get_or l.prev_pos i 0;
  vel = get_or l.prev_vel i 0;
  acc = get_or l.prev_acc i 0;
}

abbrev pub unlimited : Tolerance
unlimited = record { vmax = f32.inf; amax = f32.inf; jmax = f32.inf }

-- A joint of the robot has limits and tolerances and moves within them; a slot past the robot's
-- joints has neither.
abbrev pub IsJoint : F32 → Limits → ℕ → Tolerance → Motion → Type 0
IsJoint dt limits i t m =
    ((lo : F32) × (hi : F32) × (get_elem? limits i ≡ some (lo, hi)) × IsLimited dt t × Keeps t m)
    ⊎ ((get_elem? limits i ≡ none) × (t ≡ unlimited))

pub record IsReady (limits : Limits) (l : JerkLimiter) : Type 0 where
  pub period : IsPeriod l.dt
  pub pos_size : length l.prev_pos ≡ max_joints
  pub vel_size : length l.prev_vel ≡ max_joints
  pub acc_size : length l.prev_acc ≡ max_joints
  pub max_vel_size : length l.max_vel ≡ max_joints
  pub max_acc_size : length l.max_acc ≡ max_joints
  pub max_jerk_size : length l.max_jerk ≡ max_joints
  pub joint : (i : ℕ) → i < max_joints → IsJoint l.dt limits i (tolerance l i) (motion l i)

-- With no tolerances the chain reaches for the target in one frame, and no step of it can panic.
limit_joint-unlimited :
    (dt : F32) (limits : Limits) (i : ℕ) (prev : Motion) (target : F32)
    → IsOrdered limits
    → Returns (λ m. Unit {0}) (limit_joint dt limits i unlimited prev target)
unfolding limit_joint desired_velocity desired_acceleration jerk_step saturate velocity_limit
    is_finite
limit_joint-unlimited dt limits i prev target o =
    let v_des = div f32 (sub f32 target prev.pos) (approach_time dt unlimited) in
    let a = div f32 (sub f32 v_des prev.vel) dt in
    let v = add f32 prev.vel (mul f32 a dt) in
    let q = add f32 prev.pos (mul f32 v dt) in
    (
      record { pos = clamped limits i q; vel = v; acc = a },
      rw (clamp_at-IsOrdered limits i q o),
      tt,
    )

-- What a frame makes of a joint: a joint again, whose position keeps to its limits.
abbrev pub After : F32 → Limits → ℕ → Tolerance → Motion → Type 0
After dt limits i t m =
    IsJoint dt limits i t m
    × ((lo hi : F32) → get_elem? limits i ≡ some (lo, hi) → IsFinite m.pos × Within lo hi m.pos)

pub joint-After :
    (dt : F32) (limits : Limits) (i : ℕ) (t : Tolerance) (prev : Motion) (target : F32)
    → IsPeriod dt
    → IsOrdered limits
    → IsNumber target
    → IsJoint dt limits i t prev
    → Returns (After dt limits i t) (limit_joint dt limits i t prev target)
joint-After dt limits i t prev target p o n (inl (lo, hi, e, l, k)) =
    let (m, runs, (keeps, within, jerk)) =
      limit_joint-Keeps dt t p l limits i lo hi prev target o e k n in
    (m, runs, (inl (lo, hi, e, l, keeps), λ lo' hi' e'. (keeps.position, within lo' hi' e')))
joint-After dt limits i t prev target p o n (inr (e, u)) =
    let (m, runs, _) = limit_joint-unlimited dt limits i prev target o in
    (m, rw u runs, (inr (e, u), λ lo hi e'. absurd (cc)))
