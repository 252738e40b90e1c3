-- ===== src/Failsafe/Tests.antt =====
-- A guard for a gripper on slot 1, over a blackout.
use sonny.Prelude.{ℕ, ◌≡◌, ◌≢◌, ◌<◌, refl, false, List, [], ◌∷◌, ◌>>=◌, arith, get_or, Returns}
use sonny.Float.{le, is_nan, IsNumber}
use sonny.Vectors.{
  CommandVector, StateVector, from_slice, new_state, zero_array, IsValid, IsValidState,
}
use sonny.Vectors.Valid.{from_slice-IsValid}
use sonny.Failsafe.{FailsafeGuard, snapshot_healthy, enforce, on_blackout}
use sonny.Failsafe.Hold.{IsReady}
use sonny.Failsafe.Blackout.{blackout, disarmed, enforced}
use sonny.Failsafe.Blackout.{Event, run, IsHeldPressure, blackout_holds}

-- The largest grip is 40 N, the held pressure 10 N.
abbrev guard : FailsafeGuard
guard = record {
  engaged = false;
  pressure_slot = 1;
  max_grip_n = 0x4220_0000;
  last_good = zero_array;
  last_good_pressure_n = 0x4120_0000;
  blackout_frames = 0;
  interventions = 0;
  last_response_us = 0;
}

ready : IsReady guard
unfolding le
ready = record { size = refl; grip = refl }

-- 0.5 rad, and a pressure of 60 N.
abbrev healthy : StateVector
healthy = new_state 7 [] (0x3F00_0000 ∷ 0x4270_0000 ∷ [])

healthy-IsValidState : IsValidState healthy
unfolding new_state
healthy-IsValidState = record { array = refl; active = omega arith }

-- Two joints at 1.0.
abbrev wanted : CommandVector
wanted = from_slice (0x3F80_0000 ∷ 0x3F80_0000 ∷ [])

wanted-IsValid : IsValid wanted
wanted-IsValid = from_slice-IsValid (0x3F80_0000 ∷ 0x3F80_0000 ∷ [])

number : IsNumber (get_or healthy.values 1 0)
unfolding is_nan new_state
number = refl

abbrev events : List Event
events = blackout ∷ enforced 3 wanted ∷ disarmed ∷ []

blackout_holds_example :
    Returns
      (λ out.
        ((i : ℕ)
          → i < wanted.len
          → i < healthy.len
          → i ≢ guard.pressure_slot
          → get_or out.1.target_actuators i 0 ≡ get_or healthy.values i 0)
        × (guard.pressure_slot < wanted.len
            → guard.pressure_slot < healthy.len
            → IsHeldPressure guard.max_grip_n
                (get_or healthy.values guard.pressure_slot 0)
                (get_or out.1.target_actuators guard.pressure_slot 0)))
      (do
        frozen ← snapshot_healthy guard healthy
        later ← run frozen events
        enforce 9 (on_blackout later) wanted)
blackout_holds_example =
    blackout_holds guard healthy events 9 wanted ready healthy-IsValidState number
      (wanted-IsValid, tt) wanted-IsValid
