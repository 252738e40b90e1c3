-- ===== src/Mock/Loop.antt =====
-- src/mocks/virtual_hardware_mock.rs: the turns of the loop, as a fold over what they take.
use sonny.Prelude.{ℕ, Bool, true, List, [], ◌∷◌, ◌++◌, Option, some, ◌>>=◌, if◌then◌else◌}
use sonny.Float.{F64}
use sonny.Mock.{MockState, Output, on_tick, on_command, on_estop}

-- What a turn of the loop takes; `missed` is a subscription that fails.
pub data Event : Type 0 where
  tick_due : (now : ℕ) (sent told : Bool) → Event
  commanded : List ℕ → Event
  stopped : List ℕ → (told : Bool) → Event
  missed : Event

module _ (sin : F64 → F64) (joint_count : ℕ) where
  -- The state after a turn, what it hands to the session, and whether the loop goes on.
  unfoldable pub turn : MockState → Event → Option (MockState × List Output × Bool)
  unfolding on_tick on_command on_estop
  turn s (tick_due now sent told) = on_tick sin joint_count now sent told s
  turn s (commanded bytes) = do t ← on_command bytes s; some (t, [], true)
  turn s (stopped bytes told) = some (on_estop bytes told s)
  turn s missed = some (s, [], true)

  unfoldable pub run_simulated_loop : MockState → List Event → Option (MockState × List Output)
  unfolding turn
  run_simulated_loop s [] = some (s, [])
  run_simulated_loop s (e ∷ es) = do
    out ← turn s e
    if out.2
        then (do rest ← run_simulated_loop out.0 es; some (rest.0, out.1 ++ rest.1))
        else some (out.0, out.1)
