-- ===== src/Network/Tests.antt =====
-- A state of two joints.
use sonny.Prelude.{ℕ, ◌≡◌, refl, List, [], ◌∷◌, ◌++◌, some, ◌>>=◌, arith, for_range, Returns}
use sonny.Text.{codes}
use sonny.Vectors.{StateVector, IsValidState, new_state, set_values, from_bytes, as_slice}
use sonny.Network.{put_state, push_to_brain, log_line}
use sonny.Network.Payload.{put_state-from_bytes}

abbrev arm : StateVector
arm = new_state 7 (codes "arm") []

arm-IsValidState : IsValidState arm
unfolding new_state
arm-IsValidState = record { array = refl; active = omega arith }

abbrev values : List ℕ
values = 0x3F80_0000 ∷ 0x7FC0_0000 ∷ []

put_state-from_bytes_example :
    Returns
      (λ p. (p.0 ≡ codes "t") × (as_slice (from_bytes p.1) ≡ some values))
      (put_state (codes "t") (set_values 9 arm values))
put_state-from_bytes_example =
    put_state-from_bytes (codes "t") 9 arm values arm-IsValidState (omega arith) (omega arith)

to_brain : (do p ← push_to_brain arm; some p.0) ≡ some (codes "alpha/brain/arm/input")
unfolding push_to_brain new_state for_range
to_brain = refl

-- A NaN is printed as such, which no JSON parser reads.
logged :
    log_line (λ vs. codes "[1.0, NaN]") (set_values 9 arm values)
    ≡ some (codes "{\"timestamp\":9,\"hardware\":\"arm\",\"values\":[1.0, NaN]}" ++ (10 ∷ []))
unfolding log_line new_state set_values
logged = refl
