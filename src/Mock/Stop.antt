-- ===== src/Mock/Stop.antt =====
-- The stop of the simulated robot: it publishes zeros, and stays at home until a command moves it.
use sonny.Prelude.{ℕ, ◌≡◌, ◌⊎◌, Bool, true, List, [], ◌∷◌, take, replicate}
use sonny.Float.{F32, F64}
use sonny.Vectors.{zero_array}
use sonny.Vectors.Codec.{encode}
use sonny.Fieldbus.Loop.{is_active}
use sonny.Mock.{MockState, Output, telemetry, status}
use sonny.Mock.Loop.{Event, tick_due, commanded, stopped, missed}
use sonny.Mock.Ready.{IsReady, active}

-- A robot at home, which has a reason not to move.
pub record IsHome (received estop : Bool) (s : MockState) : Type 0 where
  pub ready : IsReady s
  pub targets : s.targets ≡ zero_array
  pub current : s.current ≡ zero_array
  pub received_eq : s.command_received ≡ received
  pub estop_eq : s.estop ≡ estop

-- The events do not move a robot that is at home: commands come while it is stopped, and it is
-- released only if a command came before.
abbrev pub IsIdle : (received estop : Bool) → List Event → Type 0
IsIdle received estop [] = Unit
IsIdle received estop (tick_due _ _ _ ∷ es) = IsIdle received estop es
IsIdle received estop (commanded _ ∷ es) = (estop ≡ true) × IsIdle received estop es
IsIdle received estop (stopped bytes _ ∷ es) =
    ((is_active bytes ≡ true) ⊎ (received ≡ true)) × IsIdle received (is_active bytes) es
IsIdle received estop (missed ∷ es) = IsIdle received estop es

abbrev pub IsZero : ℕ → Output → Type 0
IsZero joint_count (telemetry bytes) = bytes ≡ encode (replicate (active joint_count) 0)
IsZero joint_count (status _ _) = Unit

abbrev zero_value : F32
zero_value = 0

module _ (sin : F64 → F64) (received estop : Bool) (held : (estop ≡ true) ⊎ (received ≡ true)) where
  -- After `i` joints of a tick.
  abbrev Moved : ℕ → MockState → Type 0
  Moved i s = IsHome received estop s × (take i s.values ≡ replicate i 0)
