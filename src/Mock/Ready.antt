-- ===== src/Mock/Ready.antt =====
-- The state between two turns of the loop, and what a tick makes of it.
use sonny.Prelude.{
  ℕ, ◌+◌, ◌*◌, ◌≤◌, ◌<◌, ◌≡◌, refl, ◌∙◌, Bool, true, false, List, All, some, if◌then◌else◌, arith,
  min, length, get_or, set, take, length-set, length-take, get_elem?-eq-get_or, for_range,
  for_range-Returns, Returns, Bool-cases, inl, inr, ◌==◌, ◌%◌,
}
use sonny.Float.{F32, F64, f64, add}
use sonny.Health.{wrap64}
use sonny.Vectors.{IsValidState, max_joints, set_values}
use sonny.Vectors.Codec.{encode}
use sonny.Vectors.State.{set_values-IsValidState, write_state-set_values}
use sonny.Mock.{
  MockState, Output, move_joint, measure, count_frame, telemetry, status, simulate_joint,
}

pub record IsReady (s : MockState) : Type 0 where
  pub targets : length s.targets ≡ max_joints
  pub current : length s.current ≡ max_joints
  pub values : length s.values ≡ max_joints
  pub state : IsValidState s.state
  pub buffer : length s.tx_buf ≡ 128

-- The joints that are simulated.
abbrev pub active : ℕ → ℕ
active joint_count = min joint_count max_joints

-- A message of four bytes for each joint; a status.
abbrev pub IsWhole : ℕ → Output → Type 0
IsWhole joint_count (telemetry bytes) = length bytes ≡ 4 * active joint_count
IsWhole joint_count (status frames estop) = Unit

module _ (sin : F64 → F64) where
  -- The loop over the joints finds both values of each.
  pub simulate_joint-moves :
      (j : ℕ) (s : MockState)
      → j < length s.current
      → j < length s.targets
      → simulate_joint sin j s
        ≡ some (move_joint sin j (get_or s.current j 0) (get_or s.targets j 0) s)
  unfolding simulate_joint
  simulate_joint-moves j s h k =
      rw (get_elem?-eq-get_or s.current j 0 h, get_elem?-eq-get_or s.targets j 0 k) refl

  length-if_set :
      (b : Bool) (xs : List F32) (j : ℕ) (v : F32)
      → length (if b then set xs j v else xs) ≡ length xs
  length-if_set true xs j v = length-set xs j v
  length-if_set false xs j v = refl

  pub move_joint-IsReady :
      (j : ℕ) (c t : F32) (s : MockState) → IsReady s → IsReady (move_joint sin j c t s)
  unfolding move_joint
  move_joint-IsReady j c t s r = record {
    targets = r.targets;
    current = length-if_set s.command_received s.current j _ ∙ r.current;
    values = length-set s.values j _ ∙ r.values;
    state = r.state;
    buffer = r.buffer;
  }

  pub simulate-IsReady :
      (n : ℕ) (s : MockState)
      → n ≤ max_joints
      → IsReady s
      → Returns IsReady (for_range n 0 (simulate_joint sin) s)
  simulate-IsReady n s h r =
      for_range-Returns (λ _. IsReady) (simulate_joint sin) max_joints
        (λ i s b r. (
          move_joint sin i (get_or s.current i 0) (get_or s.targets i 0) s,
          simulate_joint-moves i s (omega (arith, r.current)) (omega (arith, r.targets)),
          move_joint-IsReady i (get_or s.current i 0) (get_or s.targets i 0) s r,
        ))
        n 0 n s (omega arith) h r

  -- The values of the joints are what is published of a tick.
  pub measure_lem :
      (joint_count now : ℕ) (s t : MockState)
      → for_range (active joint_count) 0 (simulate_joint sin) s ≡ some t
      → IsReady t
      → Returns
          (λ out.
            IsReady out.0
            × (out.1 ≡ encode (take (active joint_count) t.values))
            × (out.0.targets ≡ t.targets)
            × (out.0.current ≡ t.current)
            × (out.0.estop ≡ t.estop)
            × (out.0.command_received ≡ t.command_received))
          (measure sin joint_count now s)
  unfolding measure
  measure_lem joint_count now s t runs r =
      let values = take (active joint_count) t.values in
      let fits : length values ≤ max_joints =
        omega (arith, length-take (active joint_count) t.values) in
      let (out, runs', (bytes, size)) =
        write_state-set_values now t.state values t.tx_buf r.state fits (omega (arith, r.buffer)) in
      (
        (record t { state = set_values now t.state values; tx_buf = out.0 }, take out.1 out.0),
        rw (runs, runs') refl,
        (
          record {
            targets = r.targets;
            current = r.current;
            values = r.values;
            state = set_values-IsValidState now t.state values r.state;
            buffer = size ∙ r.buffer;
          },
          bytes,
          refl,
          refl,
          refl,
          refl,
        ),
      )

-- Counting a frame keeps what holds of the joints, and hands over the bytes and at most a status.
module _ {ℓ κ} (P : MockState → Type ℓ) (Q : Output → Type κ)
    (keep : (s : MockState) (frames : ℕ) (tick : F64)
      → P s
      → P (record s { frames = frames; tick = tick }))
    (free : (frames : ℕ) (estop : Bool) → Q (status frames estop)) where
  pub count_frame_lem :
      (sent told : Bool) (s : MockState) (bytes : List ℕ)
      → P s
      → Q (telemetry bytes)
      → let out = count_frame sent told s bytes in P out.0 × All Q out.1
  unfolding count_frame
  count_frame_lem false told s bytes p q = (p, (q, tt))
  count_frame_lem true told s bytes p q = elim (Bool-cases (wrap64 (s.frames + 1) % 100 == 0)) [
    | inl e ↦ rw e (stopped_or_not told, (q, (free _ s.estop, tt)))
    | inr e ↦
        rw e (keep s (wrap64 (s.frames + 1)) (add f64 s.tick 0x3FB9_9999_9999_999A) p, (q, tt))
  ]
    where
      stopped_or_not :
          (told : Bool)
          → P (
              if told
              then record s {
                frames = wrap64 (s.frames + 1);
                tick = add f64 s.tick 0x3FB9_9999_9999_999A;
              }
              else record s { frames = wrap64 (s.frames + 1) })
      stopped_or_not true = keep s (wrap64 (s.frames + 1)) (add f64 s.tick 0x3FB9_9999_9999_999A) p
      stopped_or_not false = keep s (wrap64 (s.frames + 1)) s.tick p
