-- ===== src/Failsafe/Snapshot.antt =====
-- What a snapshot of a healthy state freezes.
use sonny.Prelude.{
  ltb→lt, get_or-take, ℕ, ◌≤◌, ◌<◌, ◌≡◌, refl, ◌∙◌, true, arith, ltb, leb, min, length, get_or,
  take, length-take, length-overwrite, get_elem?-eq-get_or, overwrite, copy_into-fits,
  get_or-overwrite_front, get_or-overwrite_rest, Bool-cases, inl, inr, Returns,
}
use sonny.Float.{f32, clamp, clamp_in, IsNumber, Within, clamp_in-Within}
use sonny.Vectors.{StateVector, IsValidState, max_joints}
use sonny.Failsafe.{FailsafeGuard, hold_pressure, snapshot_healthy}
use sonny.Failsafe.Hold.{IsReady}

-- What a snapshot of a healthy state freezes: its active values, and the pressure in its range.
pub record IsFrozen (g g' : FailsafeGuard) (s : StateVector) : Type 0 where
  pub ready : IsReady g'
  pub joints : (i : ℕ) → i < s.len → get_or g'.last_good i 0 ≡ get_or s.values i 0
  pub others : (i : ℕ) → s.len ≤ i → get_or g'.last_good i 0 ≡ get_or g.last_good i 0
  pub slot : g'.pressure_slot ≡ g.pressure_slot
  pub pressure :
      g.pressure_slot < s.len
      → Within 0 g.max_grip_n g'.last_good_pressure_n
        × (g'.last_good_pressure_n
            ≡ clamp_in f32 (get_or s.values g.pressure_slot 0) 0 g.max_grip_n)

-- The guard with the active values of a state copied in.
abbrev with_values : FailsafeGuard → StateVector → FailsafeGuard
with_values g s = record g { last_good = overwrite g.last_good 0 (take s.len s.values) }

snapshot_runs :
    (g : FailsafeGuard) (s : StateVector)
    → IsReady g
    → IsValidState s
    → snapshot_healthy g s ≡ hold_pressure (with_values g s) s.values s.len
unfolding snapshot_healthy
snapshot_runs g s r v =
    let all : min s.len max_joints ≡ s.len = omega arith in
    let active : leb s.len (length s.values) ≡ true = ground arith in
    rw (
      all,
      active,
      copy_into-fits g.last_good 0 (take s.len s.values)
          (omega (arith, length-take s.len s.values)),
    )

module _ (g : FailsafeGuard) (s : StateVector) (r : IsReady g) (v : IsValidState s) where
  length_values : length (take s.len s.values) ≡ s.len
  length_values = omega (arith, length-take s.len s.values)

  with_values-IsReady : IsReady (with_values g s)
  with_values-IsReady = record {
    size =
        length-overwrite g.last_good 0 (take s.len s.values) (omega (arith, length_values))
        ∙ r.size;
    grip = r.grip;
  }

  with_values-joints :
      (i : ℕ) → i < s.len → get_or (with_values g s).last_good i 0 ≡ get_or s.values i 0
  with_values-joints i h =
      get_or-overwrite_front g.last_good (take s.len s.values) i 0 (omega (arith, length_values))
      ∙ get_or-take s.len s.values i 0 h

  with_values-others :
      (i : ℕ) → s.len ≤ i → get_or (with_values g s).last_good i 0 ≡ get_or g.last_good i 0
  with_values-others i h =
      get_or-overwrite_rest g.last_good (take s.len s.values) i 0 (omega (arith, length_values))

-- A snapshot of a valid state does not panic. Its active values are frozen, the others stay; a
-- pressure register among them is held within zero and the largest grip.
pub snapshot_healthy-IsFrozen :
    (g : FailsafeGuard) (s : StateVector)
    → IsReady g
    → IsValidState s
    → (g.pressure_slot < s.len → IsNumber (get_or s.values g.pressure_slot 0))
    → Returns (λ g'. IsFrozen g g' s) (snapshot_healthy g s)
unfolding clamp
snapshot_healthy-IsFrozen g s r v n =
    rw (snapshot_runs g s r v) (elim (Bool-cases (ltb g.pressure_slot s.len)) [
      | inl e ↦
          let below : g.pressure_slot < s.len = ltb→lt _ _ e in
          let p = clamp_in f32 (get_or s.values g.pressure_slot 0) 0 g.max_grip_n in
          (
            record (with_values g s) { last_good_pressure_n = p },
            rw (e, get_elem?-eq-get_or s.values g.pressure_slot 0 (omega arith), r.grip),
            record {
              ready = record { size = (with_values-IsReady g s r v).size; grip = r.grip };
              joints = with_values-joints g s r v;
              others = with_values-others g s r v;
              slot = refl;
              pressure = λ h. (clamp_in-Within _ 0 g.max_grip_n (n h) r.grip, refl);
            },
          )
      | inr e ↦ (
        with_values g s,
        rw e,
        record {
          ready = with_values-IsReady g s r v;
          joints = with_values-joints g s r v;
          others = with_values-others g s r v;
          slot = refl;
          pressure = λ h. absurd (ground arith);
        },
      )
    ])
