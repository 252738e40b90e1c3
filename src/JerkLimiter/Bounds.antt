-- ===== src/JerkLimiter/Bounds.antt =====
-- The whole limiter: every joint of a command, and the state that the next frame starts from.
use native.Mathlib.Decide.{dec_lt}
use sonny.Prelude.{
  ltb, lt→ltb, value_or, ℕ, suc, ◌≤◌, ◌<◌, ◌≡◌, refl, sym, ◌∙◌, subst, ap, false, List, Option,
  some, arith, min, length, get_elem?, get_or, set, for_range, for_range-Returns, Returns, Updated,
  Updated-start, Updated-set, Updated-read, get_elem?-eq-get_or, if◌then◌else◌,
}
use sonny.Float.{F32, IsFinite, IsNumber, Within}
use sonny.Vectors.{CommandVector, IsValid, max_joints}
use sonny.Limits.{Limits, IsOrdered}
use sonny.JerkLimiter.{JerkLimiter, Motion, Frame, limit_joint, limit_round, limit}
use sonny.JerkLimiter.Ready.{tolerance, motion, IsReady, After, joint-After}

module _ (limits : Limits) (o : IsOrdered limits) (l : JerkLimiter) (r : IsReady limits l)
    (targets : List F32) where
  outcome : (i : ℕ) → Option Motion
  outcome i = limit_joint l.dt limits i (tolerance l i) (motion l i) (get_or targets i 0)

  abbrev result : ℕ → Motion
  result i = value_or (motion l i) (outcome i)

  outcome-After :
      (i : ℕ)
      → i < max_joints
      → IsNumber (get_or targets i 0)
      → (outcome i ≡ some (result i)) × After l.dt limits i (tolerance l i) (result i)
  unfolding outcome
  outcome-After i h n =
      let (m, runs, after) =
        joint-After l.dt limits i (tolerance l i) (motion l i) (get_or targets i 0) r.period o n
          (r.joint i h) in
      let is : result i ≡ m = ap (value_or (motion l i)) runs in
      (runs ∙ ap some (sym is), subst (After l.dt limits i (tolerance l i)) (sym is) after)

  abbrev Limited : ℕ → Frame → Type 0
  Limited i s =
      Updated 0 targets (λ j. (result j).pos) i s.target
      × Updated 0 l.prev_pos (λ j. (result j).pos) i s.pos
      × Updated 0 l.prev_vel (λ j. (result j).vel) i s.vel
      × Updated 0 l.prev_acc (λ j. (result j).acc) i s.acc

  limit_round-Limited :
      (i : ℕ) (s : Frame)
      → i < max_joints
      → length targets ≡ max_joints
      → IsNumber (get_or targets i 0)
      → Limited i s
      → Returns (Limited (suc i)) (limit_round l limits i s)
  unfolding outcome
  limit_round-Limited i s h size n (ut, up, uv, ua) =
      let m = result i in
      let in_targets : i < length targets = omega arith in
      let in_pos : i < length l.prev_pos = omega (arith, r.pos_size) in
      let in_vel : i < length l.prev_vel = omega (arith, r.vel_size) in
      let in_acc : i < length l.prev_acc = omega (arith, r.acc_size) in
      (
        record {
          target = set s.target i m.pos;
          pos = set s.pos i m.pos;
          vel = set s.vel i m.vel;
          acc = set s.acc i m.acc;
        },
        rw (
          Updated-read 0 targets (λ j. (result j).pos) i s.target in_targets ut,
          get_elem?-eq-get_or l.max_vel i 0 (omega (arith, r.max_vel_size)),
          get_elem?-eq-get_or l.max_acc i 0 (omega (arith, r.max_acc_size)),
          get_elem?-eq-get_or l.max_jerk i 0 (omega (arith, r.max_jerk_size)),
          Updated-read 0 l.prev_pos (λ j. (result j).pos) i s.pos in_pos up,
          Updated-read 0 l.prev_vel (λ j. (result j).vel) i s.vel in_vel uv,
          Updated-read 0 l.prev_acc (λ j. (result j).acc) i s.acc in_acc ua,
          (outcome-After i h n).0,
        ),
        (
          Updated-set 0 targets (λ j. (result j).pos) i s.target in_targets ut,
          Updated-set 0 l.prev_pos (λ j. (result j).pos) i s.pos in_pos up,
          Updated-set 0 l.prev_vel (λ j. (result j).vel) i s.vel in_vel uv,
          Updated-set 0 l.prev_acc (λ j. (result j).acc) i s.acc in_acc ua,
        ),
      )

  limit_loop :
      (n : ℕ)
      → n ≤ max_joints
      → length targets ≡ max_joints
      → ((i : ℕ) → i < n → IsNumber (get_or targets i 0))
      → Returns (Limited n) (
          for_range n 0
            (limit_round l limits)
            (record { target = targets; pos = l.prev_pos; vel = l.prev_vel; acc = l.prev_acc }))
  limit_loop n h size numbers =
      for_range-Returns Limited (limit_round l limits) n
        (λ i s b u. limit_round-Limited i s (omega arith) size (numbers i b) u) n 0 n _
        (omega arith) (omega arith)
        (
          Updated-start 0 targets (λ j. (result j).pos),
          Updated-start 0 l.prev_pos (λ j. (result j).pos),
          Updated-start 0 l.prev_vel (λ j. (result j).vel),
          Updated-start 0 l.prev_acc (λ j. (result j).acc),
        )

  -- The limiter after a call.
  abbrev next : Frame → JerkLimiter
  next s = record l { prev_pos = s.pos; prev_vel = s.vel; prev_acc = s.acc }

  -- The state that the next frame starts from.
  motion-Limited :
      (n : ℕ) (s : Frame) (i : ℕ)
      → Limited n s
      → motion (next s) i ≡ (if ltb i n then result i else motion l i)
  motion-Limited n s i (ut, up, uv, ua) = elim (dec_lt i n) [
    | yes h ↦ rw (lt→ltb i n h, up.filled i h, uv.filled i h, ua.filled i h)
    | no h ↦
        let past : ltb i n ≡ false = ground arith in
        rw (past, up.kept i (omega arith), uv.kept i (omega arith), ua.kept i (omega arith))
  ]

  next-IsReady :
      (n : ℕ) (s : Frame)
      → n ≤ max_joints
      → ((i : ℕ) → i < n → IsNumber (get_or targets i 0))
      → Limited n s
      → IsReady limits (next s)
  next-IsReady n s h numbers u = record {
    period = r.period;
    pos_size = u.1.size ∙ r.pos_size;
    vel_size = u.2.size ∙ r.vel_size;
    acc_size = u.3.size ∙ r.acc_size;
    max_vel_size = r.max_vel_size;
    max_acc_size = r.max_acc_size;
    max_jerk_size = r.max_jerk_size;
    joint = λ i hi. rw (motion-Limited n s i u) (elim (dec_lt i n) [
      | yes b ↦ rw (lt→ltb i n b) (outcome-After i hi (numbers i b)).1.0
      | no b ↦ let past : ltb i n ≡ false = ground arith in rw past (r.joint i hi)
    ]);
  }

-- The joints of a command that have limits hold finite values within them.
abbrev pub InRange : Limits → CommandVector → Type 0
InRange limits c =
    (i : ℕ) (lo hi : F32)
    → i < c.len
    → get_elem? limits i ≡ some (lo, hi)
    → IsFinite (get_or c.target_actuators i 0) × Within lo hi (get_or c.target_actuators i 0)

limit_runs :
    (l : JerkLimiter) (c : CommandVector) (limits : Limits) (s : Frame)
    → c.len ≤ max_joints
    → for_range c.len 0 (limit_round l limits) (record {
      target = c.target_actuators;
      pos = l.prev_pos;
      vel = l.prev_vel;
      acc = l.prev_acc;
    })
      ≡ some s
    → limit l c limits
      ≡ some (
        record l { prev_pos = s.pos; prev_vel = s.vel; prev_acc = s.acc },
        record c { target_actuators = s.target },
      )
unfolding limit
limit_runs l c limits s h runs =
    let all : min c.len max_joints ≡ c.len = omega arith in rw (all, runs)

-- For a command without NaN the limiter returns without a panic. Each active joint that has limits
-- gets a finite value within them; the tolerances bound the velocity and the acceleration that the
-- limiter keeps of each joint of the robot (`IsReady`), so the next frame starts from a state of
-- the same kind.
pub limit-InRange :
    (l : JerkLimiter) (c : CommandVector) (limits : Limits)
    → IsOrdered limits
    → IsReady limits l
    → IsValid c
    → ((i : ℕ) → i < c.len → IsNumber (get_or c.target_actuators i 0))
    → Returns
        (λ out. IsReady limits out.0 × IsValid out.1 × (out.1.len ≡ c.len) × InRange limits out.1)
        (limit l c limits)
limit-InRange l c limits o r v numbers =
    let (s, runs, u) = limit_loop limits o l r c.target_actuators c.len v.active v.array numbers in
    (
      (
        record l { prev_pos = s.pos; prev_vel = s.vel; prev_acc = s.acc },
        record c { target_actuators = s.target },
      ),
      limit_runs l c limits s v.active runs,
      (
        next-IsReady limits o l r c.target_actuators c.len s v.active numbers u,
        record { array = u.0.size ∙ v.array; active = v.active },
        refl,
        λ i lo hi h e. rw (u.0.filled i h) (
            (outcome-After limits o l r c.target_actuators i (omega arith) (numbers i h)).1.1 lo hi
              e),
      ),
    )
