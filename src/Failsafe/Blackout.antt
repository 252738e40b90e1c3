-- ===== src/Failsafe/Blackout.antt =====
-- The guard over a blackout: a snapshot, then any calls, then the command of a blackout frame.
use sonny.Prelude.{
  ℕ, ◌<◌, ◌≡◌, ◌≢◌, refl, sym, subst, ◌∙◌, List, [], ◌∷◌, Option, none, some, true, ◌>>=◌, arith,
  get_or, Bool-cases, inl, inr, Returns,
}
use sonny.Float.{F32, f32, le, lt, clamp_in, IsNumber, Within}
use sonny.Vectors.{CommandVector, StateVector, IsValid, IsValidState}
use sonny.Failsafe.{FailsafeGuard, snapshot_healthy, on_blackout, disengage, enforce}
use sonny.Failsafe.Hold.{IsReady, Same, enforce-IsHeld, enforce_disarmed}
use sonny.Failsafe.Snapshot.{snapshot_healthy-IsFrozen}

-- What happens between two snapshots.
pub data Event : Type 0 where
  blackout : Event
  disarmed : Event
  enforced : ℕ → CommandVector → Event

abbrev pub run : FailsafeGuard → List Event → Option FailsafeGuard
run g [] = some g
run g (blackout ∷ es) = run (on_blackout g) es
run g (disarmed ∷ es) = run (disengage g) es
run g (enforced elapsed c ∷ es) = elim (enforce elapsed g c) [
  | none ↦ none
  | some out ↦ run out.0 es
]

enforce-Same :
    (elapsed : ℕ) (g : FailsafeGuard) (c : CommandVector)
    → IsReady g
    → IsValid c
    → Returns (λ out. Same g out.0) (enforce elapsed g c)
enforce-Same elapsed g c r v = elim (Bool-cases g.engaged) [
  | inl e ↦ let (out, runs, (h, _)) = enforce-IsHeld elapsed g c r v e in (out, runs, h.kept)
  | inr e ↦ (_, enforce_disarmed elapsed g c e, (refl, refl, refl, refl))
]

Same-IsReady : (g g' : FailsafeGuard) → IsReady g → Same g g' → IsReady g'
Same-IsReady g g' r (a, b, c, d) = record { size = rw a r.size; grip = rw d r.grip }

Same-trans : (f g h : FailsafeGuard) → Same f g → Same g h → Same f h
Same-trans f g h (a, b, c, d) (a', b', c', d') = (a' ∙ a, b' ∙ b, c' ∙ c, d' ∙ d)

-- The commands that the guard is asked to replace are valid vectors.
abbrev pub AllValid : List Event → Type 0
AllValid [] = Unit
AllValid (blackout ∷ es) = AllValid es
AllValid (disarmed ∷ es) = AllValid es
AllValid (enforced elapsed c ∷ es) = IsValid c × AllValid es

run-Same :
    (g : FailsafeGuard) (es : List Event) → IsReady g → AllValid es → Returns (Same g) (run g es)
unfolding on_blackout disengage
run-Same g [] r v = (g, refl, (refl, refl, refl, refl))
run-Same g (blackout ∷ es) r v =
    run-Same (on_blackout g) es (record { size = r.size; grip = r.grip }) v
run-Same g (disarmed ∷ es) r v =
    run-Same (disengage g) es (record { size = r.size; grip = r.grip }) v
run-Same g (enforced elapsed c ∷ es) r (v, vs) =
    let (out, runs, same) = enforce-Same elapsed g c r v in
    let (g', runs', same') = run-Same out.0 es (Same-IsReady g out.0 r same) vs in
    (g', rw (runs, run) runs', Same-trans g out.0 g' same same')

-- A pressure that is held for a measured one.
abbrev pub IsHeldPressure : (max_grip measured held : F32) → Type 0
IsHeldPressure max_grip measured held =
    (Within 0 max_grip measured → held ≡ measured)
    × (lt f32 measured 0 ≡ true → held ≡ 0)
    × (lt f32 max_grip measured ≡ true → held ≡ max_grip)

clamp_in-IsHeldPressure :
    (max_grip p : F32)
    → le f32 0 max_grip ≡ true
    → IsHeldPressure max_grip p (clamp_in f32 p 0 max_grip)
unfolding clamp_in le lt
clamp_in-IsHeldPressure max_grip p h =
    ((λ w. ground arith), (λ low. ground arith), (λ high. ground arith))

-- A snapshot of a valid state whose pressure is a number, into a guard that is ready, then any
-- calls but a snapshot, then one more blackout and a valid command: nothing panics, and the command
-- comes out with the values of the healthy state, as far as both have them, whatever it held
-- before. The gripper's slot comes out with the pressure of that state where that is within zero
-- and the largest grip, with zero where it is below, and with the largest grip where it is above.
pub blackout_holds :
    (g : FailsafeGuard) (s : StateVector) (es : List Event) (elapsed : ℕ) (c : CommandVector)
    → IsReady g
    → IsValidState s
    → IsNumber (get_or s.values g.pressure_slot 0)
    → AllValid es
    → IsValid c
    → Returns
        (λ out.
          ((i : ℕ)
            → i < c.len
            → i < s.len
            → i ≢ g.pressure_slot
            → get_or out.1.target_actuators i 0 ≡ get_or s.values i 0)
          × (g.pressure_slot < c.len
              → g.pressure_slot < s.len
              → IsHeldPressure g.max_grip_n
                  (get_or s.values g.pressure_slot 0)
                  (get_or out.1.target_actuators g.pressure_slot 0)))
        (do
          frozen ← snapshot_healthy g s
          later ← run frozen es
          enforce elapsed (on_blackout later) c)
unfolding on_blackout
blackout_holds g s es elapsed c r v n vs vc =
    let (g', runs, f) = snapshot_healthy-IsFrozen g s r v (λ _. n) in
    let (h, runs', same) = run-Same g' es f.ready vs in
    let (out, runs'', (k, _)) =
      enforce-IsHeld elapsed (on_blackout h) c
        (record {
          size = (Same-IsReady g' h f.ready same).size;
          grip = (Same-IsReady g' h f.ready same).grip;
        })
        vc refl in
    (
      out,
      rw (runs, runs') runs'',
      (
        (λ i hc hs ne. k.joints i hc ∙ ground (arith, same, f.slot, f.joints i hs)),
        (λ hc hs.
            let held : g'.last_good_pressure_n ≡ get_or out.1.target_actuators g.pressure_slot 0 =
              rw (k.joints g.pressure_slot hc) (ground (arith, same, f.slot)) in
            subst (IsHeldPressure g.max_grip_n (get_or s.values g.pressure_slot 0))
              (sym ((f.pressure hs).1) ∙ held)
              (clamp_in-IsHeldPressure g.max_grip_n (get_or s.values g.pressure_slot 0) r.grip)),
      ),
    )
