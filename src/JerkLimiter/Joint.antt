-- ===== src/JerkLimiter/Joint.antt =====
-- One joint of the jerk limiter: no panic, and the motion that it returns keeps to the tolerances.
use sonny.Prelude.{get_elem?, ℕ, ◌≡◌, ◌≢◌, refl, true, false, some, Returns, arith}
use sonny.Float.{
  le-IsNumber_left, mul_nonneg, lt, F32, f32, is_nan, is_finite, is_neg, mag, le, neg, fmax, clamp,
  clamp_in, add, sub, mul, IsFinite, IsNumber, Within, IsFinite-IsNumber, clamp_in-Within,
  Within-IsFinite, neg-IsFinite, le-neg_self, add-IsNumber, add-IsNumber_left, sub-IsNumber,
  mul-IsNumber, div-IsNumber, fmin-sqrt_nonneg, fmin-le,
}
use sonny.Limits.{
  Limits, IsOrdered, InLimits, clamped, clamp_at-IsOrdered, clamped-InLimits,
  clamped-IsFinite_limited,
}
use sonny.JerkLimiter.{
  Tolerance, Motion, saturate, approach_time, velocity_limit, desired_velocity,
  desired_acceleration, jerk_step, limit_joint,
}

-- A finite number with the sign bit clear.
abbrev pub IsBound : F32 → Type 0
IsBound x = IsFinite x × (is_neg f32 x ≡ false)

-- A tick's period: a bound other than zero.
abbrev pub IsPeriod : F32 → Type 0
IsPeriod dt = IsFinite dt × (is_neg f32 dt ≡ false) × (mag f32 dt ≢ 0)

bound-nonneg : (x : F32) → IsBound x → le f32 0 x ≡ true
unfolding is_finite le
bound-nonneg x h = ground arith

-- Within a bound on either side.
abbrev pub UpTo : F32 → F32 → Type 0
UpTo bound v = Within (neg f32 bound) bound v

UpTo-IsFinite : (bound v : F32) → IsFinite bound → UpTo bound v → IsFinite v
UpTo-IsFinite bound v h w = Within-IsFinite _ _ v (neg-IsFinite bound h) h w

saturate-IsBound :
    (bound v : F32) → IsBound bound → saturate bound v ≡ some (clamp_in f32 v (neg f32 bound) bound)
unfolding saturate clamp
saturate-IsBound bound v h = rw (h.0, le-neg_self bound (bound-nonneg bound h))

saturate-UpTo :
    (bound v : F32)
    → IsFinite bound
    → le f32 0 bound ≡ true
    → IsNumber v
    → Returns (UpTo bound) (saturate bound v)
unfolding saturate clamp
saturate-UpTo bound v f h n = (
  clamp_in f32 v (neg f32 bound) bound,
  rw (f, le-neg_self bound h),
  clamp_in-Within v (neg f32 bound) bound n (le-neg_self bound h),
)

-- A joint whose tolerances are bounds, and whose approach time does not overflow.
pub record IsLimited (dt : F32) (t : Tolerance) : Type 0 where
  pub vel : IsBound t.vmax
  pub acc : IsBound t.amax
  pub jerk : IsBound t.jmax
  pub time : IsFinite (approach_time dt t)

-- A motion whose velocity and acceleration keep to the tolerances.
pub record Keeps (t : Tolerance) (m : Motion) : Type 0 where
  pub position : IsFinite m.pos
  pub velocity : UpTo t.vmax m.vel
  pub acceleration : UpTo t.amax m.acc

fmax_period : (x dt : F32) → IsPeriod dt → mag f32 (fmax f32 x dt) ≢ 0
unfolding is_nan is_finite fmax lt
fmax_period x dt p = ground arith

approach_time_ne : (dt : F32) (t : Tolerance) → IsPeriod dt → mag f32 (approach_time dt t) ≢ 0
unfolding approach_time
approach_time_ne dt t p = fmax_period _ dt p

module _ (dt : F32) (t : Tolerance) (p : IsPeriod dt) (l : IsLimited dt t) where
  velocity_limit-nonneg : (dist : F32) → le f32 0 (velocity_limit t dist) ≡ true
  unfolding velocity_limit
  velocity_limit-nonneg dist = rw l.acc.0 (fmin-sqrt_nonneg t.vmax _ (bound-nonneg t.vmax l.vel))

  velocity_limit-le : (dist : F32) → le f32 (velocity_limit t dist) t.vmax ≡ true
  unfolding velocity_limit
  velocity_limit-le dist = rw l.acc.0 (fmin-le t.vmax _ (IsFinite-IsNumber _ l.vel.0))

  velocity_limit-IsFinite : (dist : F32) → IsFinite (velocity_limit t dist)
  unfolding is_finite
  velocity_limit-IsFinite dist =
      Within-IsFinite 0 t.vmax _ refl l.vel.0 (velocity_limit-nonneg dist, velocity_limit-le dist)

  desired_velocity-runs :
      (dist : F32) → IsNumber dist → Returns IsFinite (desired_velocity dt t dist)
  unfolding desired_velocity
  desired_velocity-runs dist n =
      let (v, e, w) =
        saturate-UpTo (velocity_limit t dist) _ (velocity_limit-IsFinite dist)
          (velocity_limit-nonneg dist)
          (div-IsNumber dist (approach_time dt t) n l.time (approach_time_ne dt t p)) in
      (v, e, UpTo-IsFinite _ v (velocity_limit-IsFinite dist) w)

  desired_acceleration-runs :
      (prev_vel v : F32)
      → IsFinite prev_vel
      → IsFinite v
      → Returns IsFinite (desired_acceleration dt t prev_vel v)
  unfolding desired_acceleration
  desired_acceleration-runs prev_vel v hp hv =
      let (a, e, w) = saturate-UpTo t.amax _ l.acc.0 (bound-nonneg t.amax l.acc) (
        div-IsNumber (sub f32 v prev_vel) dt (sub-IsNumber v prev_vel (IsFinite-IsNumber v hv) hp)
          p.0 p.2) in
      (a, e, UpTo-IsFinite t.amax a l.acc.0 w)

  -- The limited change of the acceleration, and the sum that it gives.
  jerk_step-runs :
      (prev_acc a_des : F32)
      → IsFinite prev_acc
      → IsFinite a_des
      → Returns
          (λ stepped.
            (step : F32) × UpTo (mul f32 t.jmax dt) step × (stepped ≡ add f32 step prev_acc))
          (jerk_step dt t prev_acc a_des)
  unfolding jerk_step clamp
  jerk_step-runs prev_acc a_des hp ha =
      let bound = mul f32 t.jmax dt in
      let ordered = le-neg_self bound (mul_nonneg t.jmax dt l.jerk.0 p.0 l.jerk.1 p.1) in
      let step = clamp_in f32 (sub f32 a_des prev_acc) (neg f32 bound) bound in
      (
        add f32 step prev_acc,
        rw (l.jerk.0, ordered),
        (
          step,
          clamp_in-Within (sub f32 a_des prev_acc) (neg f32 bound) bound
              (sub-IsNumber a_des prev_acc (IsFinite-IsNumber a_des ha) hp) ordered,
          refl,
        ),
      )

  -- The acceleration moves by at most jmax * dt, before it is held to the tolerance.
  abbrev pub JerkLimited : F32 → F32 → Type 0
  JerkLimited prev_acc a =
      (step : F32) × UpTo (mul f32 t.jmax dt) step
      × (a ≡ clamp_in f32 (add f32 step prev_acc) (neg f32 t.amax) t.amax)

  acceleration_limited :
      (stepped prev_acc : F32)
      → IsFinite prev_acc
      → (step : F32) × UpTo (mul f32 t.jmax dt) step × (stepped ≡ add f32 step prev_acc)
      → Returns (λ a. UpTo t.amax a × JerkLimited prev_acc a) (saturate t.amax stepped)
  acceleration_limited stepped prev_acc h (step, w, e) = (
    clamp_in f32 stepped (neg f32 t.amax) t.amax,
    saturate-IsBound t.amax stepped l.acc,
    (
      clamp_in-Within stepped (neg f32 t.amax) t.amax
          (rw e (add-IsNumber step prev_acc (le-IsNumber_left step _ w.1) h))
          (le-neg_self t.amax (bound-nonneg t.amax l.acc)),
      (step, w, rw e),
    ),
  )

  -- One frame of a limited joint does not panic. Its velocity and acceleration keep to the
  -- tolerances, the acceleration is one limited step away from the last one, and the position is a
  -- finite number in the limits of the joint.
  pub limit_joint-Keeps :
      (limits : Limits) (i : ℕ) (lo hi : F32) (prev : Motion) (target : F32)
      → IsOrdered limits
      → get_elem? limits i ≡ some (lo, hi)
      → Keeps t prev
      → IsNumber target
      → Returns
          (λ m. Keeps t m × InLimits limits i m.pos × JerkLimited prev.acc m.acc)
          (limit_joint dt limits i t prev target)
  unfolding limit_joint
  limit_joint-Keeps limits i lo hi prev target o e k n =
      let prev_vel_finite = UpTo-IsFinite t.vmax prev.vel l.vel.0 k.velocity in
      let prev_acc_finite = UpTo-IsFinite t.amax prev.acc l.acc.0 k.acceleration in
      let (v_des, e1, f1) =
        desired_velocity-runs (sub f32 target prev.pos)
          (sub-IsNumber target prev.pos n k.position) in
      let (a_des, e2, f2) = desired_acceleration-runs prev.vel v_des prev_vel_finite f1 in
      let (stepped, e3, f3) = jerk_step-runs prev.acc a_des prev_acc_finite f2 in
      let (a, e4, (wa, ja)) = acceleration_limited stepped prev.acc prev_acc_finite f3 in
      let (v, e5, wv) =
        saturate-UpTo t.vmax (add f32 prev.vel (mul f32 a dt)) l.vel.0 (bound-nonneg t.vmax l.vel) (
          add-IsNumber_left prev.vel _ prev_vel_finite
            (mul-IsNumber a dt (UpTo-IsFinite t.amax a l.acc.0 wa) p.0)) in
      let q = add f32 prev.pos (mul f32 v dt) in
      let q_number =
        add-IsNumber_left prev.pos _ k.position
          (mul-IsNumber v dt (UpTo-IsFinite t.vmax v l.vel.0 wv) p.0) in
      (
        record { pos = clamped limits i q; vel = v; acc = a },
        rw (e1, e2, e3, e4, e5, clamp_at-IsOrdered limits i q o),
        (
          record {
            position = clamped-IsFinite_limited limits i q lo hi e o q_number;
            velocity = wv;
            acceleration = wa;
          },
          clamped-InLimits limits i q o q_number,
          ja,
        ),
      )
