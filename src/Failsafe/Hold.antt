-- ===== src/Failsafe/Hold.antt =====
-- What an armed guard commands: the frozen state, whatever the command was.
use native.Mathlib.Decide.{ℕ_discrete}
use sonny.Prelude.{
  ℕ, ◌+◌, ◌≤◌, ◌<◌, ◌≡◌, refl, ◌∙◌, true, false, List, some, arith, if◌then◌else◌, ltb, ◌==◌,
  lt→ltb, min, length, get_or, set, length-set, get_elem?-eq-get_or, get_or-set_self, get_or-set_ne,
  Bool-cases, inl, inr, for_range, for_range-Returns, Returns, Updated, Updated-start, Updated-set,
}
use sonny.Float.{F32, f32, le}
use sonny.Vectors.{CommandVector, IsValid, max_joints}
use sonny.Health.{wrap64}
use sonny.Failsafe.{FailsafeGuard, hold_joint, put_pressure, enforce}

pub record IsReady (g : FailsafeGuard) : Type 0 where
  pub size : length g.last_good ≡ max_joints
  pub grip : le f32 0 g.max_grip_n ≡ true

-- The value that the guard holds for a joint.
abbrev pub held : FailsafeGuard → ℕ → F32
held g i = if i == g.pressure_slot then g.last_good_pressure_n else get_or g.last_good i 0

module _ (g : FailsafeGuard) (targets : List F32) where
  abbrev Held : ℕ → List F32 → Type 0
  Held i t = Updated 0 targets (λ j. get_or g.last_good j 0) i t

  hold_loop :
      (n : ℕ)
      → n ≤ length targets
      → n ≤ length g.last_good
      → Returns (Held n) (for_range n 0 (hold_joint g) targets)
  hold_loop n ht hg =
      for_range-Returns Held (hold_joint g) n
        (λ i s b u. (
          set s i (get_or g.last_good i 0),
          rw (
            get_elem?-eq-get_or g.last_good i 0 (omega arith),
            lt→ltb i (length s) (omega (arith, u.size)),
          ),
          Updated-set 0 targets (λ j. get_or g.last_good j 0) i s (omega arith) u,
        ))
        n 0 n targets (omega arith) (omega arith)
        (Updated-start 0 targets (λ j. get_or g.last_good j 0))

  -- The pressure goes in last.
  put_pressure-held :
      (n : ℕ) (t : List F32)
      → n ≤ length targets
      → Held n t
      → Returns
          (λ t'. (length t' ≡ length targets) × ((i : ℕ) → i < n → get_or t' i 0 ≡ held g i))
          (put_pressure g n t)
  put_pressure-held n t h u = elim (Bool-cases (ltb g.pressure_slot n)) [
    | inl e ↦
        let fits : ltb g.pressure_slot (length t) ≡ true = ground (arith, u.size) in
        (
          set t g.pressure_slot g.last_good_pressure_n,
          rw (e, fits),
          (
            length-set t g.pressure_slot g.last_good_pressure_n ∙ u.size,
            λ i b. elim (ℕ_discrete i g.pressure_slot) [
              | yes same ↦
                  ground (arith, get_or-set_self t g.pressure_slot g.last_good_pressure_n 0, u.size)
              | no other ↦
                  ground (
                    arith,
                    get_or-set_ne t g.pressure_slot i g.last_good_pressure_n 0,
                    u.filled i b,
                  )
            ],
          ),
        )
    | inr e ↦ (t, rw e, (u.size, λ i b. ground (arith, u.filled i b)))
  ]

-- Two guards that hold the same.
abbrev pub Same : FailsafeGuard → FailsafeGuard → Type 0
Same g g' =
    (g'.last_good ≡ g.last_good)
    × (g'.last_good_pressure_n ≡ g.last_good_pressure_n)
    × (g'.pressure_slot ≡ g.pressure_slot)
    × (g'.max_grip_n ≡ g.max_grip_n)

-- The guard's answer: each active joint of the command holds the frozen value, the gripper's slot the
-- frozen pressure, and the guard keeps what it holds.
pub record IsHeld (g g' : FailsafeGuard) (c c' : CommandVector) : Type 0 where
  pub joints : (i : ℕ) → i < c.len → get_or c'.target_actuators i 0 ≡ held g i
  pub len : c'.len ≡ c.len
  pub valid : IsValid c'
  pub counted : g'.interventions ≡ wrap64 (g.interventions + 1)
  pub kept : Same g g'

enforce_runs :
    (elapsed : ℕ) (g : FailsafeGuard) (c : CommandVector) (t t' : List F32)
    → c.len ≤ max_joints
    → g.engaged ≡ true
    → for_range c.len 0 (hold_joint g) c.target_actuators ≡ some t
    → put_pressure g c.len t ≡ some t'
    → enforce elapsed g c
      ≡ some (
        record g { interventions = wrap64 (g.interventions + 1); last_response_us = elapsed },
        record c { target_actuators = t' },
        elapsed,
      )
unfolding enforce
enforce_runs elapsed g c t t' h e runs runs' =
    let all : min c.len max_joints ≡ c.len = omega arith in simp (all, e, runs, runs')

-- An armed guard does not panic, and replaces every active value of a valid command.
pub enforce-IsHeld :
    (elapsed : ℕ) (g : FailsafeGuard) (c : CommandVector)
    → IsReady g
    → IsValid c
    → g.engaged ≡ true
    → Returns (λ out. IsHeld g out.0 c out.1 × (out.2 ≡ elapsed)) (enforce elapsed g c)
enforce-IsHeld elapsed g c r v e =
    let (t, runs, u) = hold_loop g c.target_actuators c.len (omega arith) (omega arith) in
    let (t', runs', (size, joints)) =
      put_pressure-held g c.target_actuators c.len t (omega arith) u in
    (
      (
        record g { interventions = wrap64 (g.interventions + 1); last_response_us = elapsed },
        record c { target_actuators = t' },
        elapsed,
      ),
      enforce_runs elapsed g c t t' v.active e runs runs',
      (
        record {
          joints = joints;
          len = refl;
          valid = record { array = size ∙ v.array; active = v.active };
          counted = refl;
          kept = (refl, refl, refl, refl);
        },
        refl,
      ),
    )

-- A guard that is not armed changes nothing of the command, and counts no intervention.
pub enforce_disarmed :
    (elapsed : ℕ) (g : FailsafeGuard) (c : CommandVector)
    → g.engaged ≡ false
    → enforce elapsed g c ≡ some (record g { last_response_us = elapsed }, c, elapsed)
unfolding enforce
enforce_disarmed elapsed g c e = rw e
