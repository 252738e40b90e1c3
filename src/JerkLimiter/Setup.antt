-- ===== src/JerkLimiter/Setup.antt =====
-- The limiter that a configuration makes: `new` and `set_limits` give a state that is ready.
use native.Mathlib.Decide.{dec_lt}
use sonny.Prelude.{
  overwrite, get_or-replicate_lt, ℕ, ◌≤◌, ◌<◌, ◌≡◌, inl, inr, refl, ◌∙◌, true, List, arith, min,
  length, get_or, take_all, length-overwrite, get_or-overwrite_front, get_or-overwrite_rest,
  get_or-replicate, get_elem?-past, get_elem?-eq-get_or,
}
use sonny.Float.{F32, f32, is_finite, is_nan, lt, le, neg}
use sonny.Vectors.{max_joints}
use sonny.Limits.{Limits}
use sonny.JerkLimiter.{Tolerance, new_limiter, copy_limit, set_limits, infinite_array}
use sonny.JerkLimiter.Joint.{UpTo, IsBound, IsPeriod, IsLimited, Keeps}
use sonny.JerkLimiter.Ready.{IsReady}

copy_limit-eq :
    (dst src : List F32) → length src ≤ max_joints → copy_limit dst src ≡ overwrite dst 0 src
unfolding copy_limit
copy_limit-eq dst src h = rw (take_all src (min (length src) max_joints) (omega arith))

module _ (src : List F32) (h : length src ≤ max_joints) where
  size : length (copy_limit infinite_array src) ≡ max_joints
  size =
      rw (copy_limit-eq infinite_array src h) (length-overwrite infinite_array 0 src (omega arith))

  front : (i : ℕ) → i < length src → get_or (copy_limit infinite_array src) i 0 ≡ get_or src i 0
  front i b =
      rw (copy_limit-eq infinite_array src h) (get_or-overwrite_front infinite_array src i 0 b)

  behind :
      (i : ℕ)
      → length src ≤ i
      → i < max_joints
      → get_or (copy_limit infinite_array src) i 0 ≡ f32.inf
  behind i b c =
      rw (copy_limit-eq infinite_array src h)
        (get_or-overwrite_rest infinite_array src i 0 b ∙ get_or-replicate_lt 32 i f32.inf 0 c)

zero-UpTo : (b : F32) → IsBound b → UpTo b 0
unfolding le neg is_finite
zero-UpTo b h = ground arith

-- A joint at rest keeps to every tolerance.
rest-Keeps :
    (t : Tolerance)
    → IsBound t.vmax
    → IsBound t.amax
    → Keeps t (record { pos = 0; vel = 0; acc = 0 })
unfolding is_finite
rest-Keeps t v a = record {
  position = refl;
  velocity = zero-UpTo t.vmax v;
  acceleration = zero-UpTo t.amax a;
}

period-lt : (dt : F32) → IsPeriod dt → lt f32 0 dt ≡ true
unfolding lt is_nan is_finite
period-lt dt p = ground arith

module _ (dt : F32) (limits : Limits) (vs ws js : List F32) where
  abbrev pub joint_tolerance : ℕ → Tolerance
  joint_tolerance i = record { vmax = get_or vs i 0; amax = get_or ws i 0; jmax = get_or js i 0 }

  -- A limiter set up from one entry per joint in each list, at most 32, is ready if the period is
  -- positive and finite and the entries of each joint are bounds whose approach time does not
  -- overflow. The slots behind the joints are unlimited.
  pub set_limits-IsReady :
      IsPeriod dt
      → length limits ≤ max_joints
      → length vs ≡ length limits
      → length ws ≡ length limits
      → length js ≡ length limits
      → ((i : ℕ) → i < length limits → IsLimited dt (joint_tolerance i))
      → IsReady limits (set_limits (new_limiter dt) vs ws js)
  unfolding set_limits new_limiter
  set_limits-IsReady p n ev ea ej ok = rw (period-lt dt p) (record {
    period = p;
    pos_size = refl;
    vel_size = refl;
    acc_size = refl;
    max_vel_size = size vs (omega arith);
    max_acc_size = size ws (omega arith);
    max_jerk_size = size js (omega arith);
    joint = λ i h. elim (dec_lt i (length limits)) [
      | yes b ↦
          rw
            (
              front vs (omega arith) i (omega arith),
              front ws (omega arith) i (omega arith),
              front js (omega arith) i (omega arith),
              get_or-replicate {A = F32} 32 i 0,
            )
            (inl (
              (get_or limits i (0, 0)).0,
              (get_or limits i (0, 0)).1,
              get_elem?-eq-get_or limits i (0, 0) b,
              ok i b,
              rest-Keeps (joint_tolerance i) (ok i b).vel (ok i b).acc,
            ))
      | no b ↦ inr (
        get_elem?-past limits i (omega arith),
        rw (
          behind vs (omega arith) i (omega arith) h,
          behind ws (omega arith) i (omega arith) h,
          behind js (omega arith) i (omega arith) h,
        ),
      )
    ];
  })
