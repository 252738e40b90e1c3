-- ===== src/Mock/Tests.antt =====
-- A robot of two joints that is commanded, stopped and released.
use sonny.Prelude.{ℕ, ◌≡◌, refl, true, List, [], ◌∷◌, All, get_or, Returns}
use sonny.Float.{F64, arithmetic}
use sonny.Mock.{MockState, Output, start, move_joint}
use sonny.Mock.Loop.{Event, tick_due, commanded, stopped, run_simulated_loop}
use sonny.Mock.Ready.{IsReady, IsWhole}
use sonny.Mock.Runs.{run_simulated_loop-IsReady, start-IsReady}

-- A stand-in for the sine.
abbrev sine : F64 → F64
sine x = x

-- Both joints to 1.0.
abbrev ones : List ℕ
ones = 0 ∷ 0 ∷ 128 ∷ 63 ∷ 0 ∷ 0 ∷ 128 ∷ 63 ∷ []

abbrev events : List Event
events =
    tick_due 1 true true
    ∷ commanded ones
    ∷ tick_due 2 true true
    ∷ stopped (1 ∷ []) true
    ∷ commanded ones
    ∷ tick_due 3 true true
    ∷ []

-- After a command a joint moves by a fifth of the way.
fifth :
    get_or
      (move_joint sine 0 0 0x3F80_0000 (record (start 0 []) { command_received = true })).values
      0
      1
    ≡ 0x3E4C_CCCD
unfolding move_joint start arithmetic
fifth = refl

run_simulated_loop-IsReady_example :
    Returns
      (λ (out : MockState × List Output). IsReady out.0 × All (IsWhole 2) out.1)
      (run_simulated_loop sine 2 (start 0 []) events)
run_simulated_loop-IsReady_example =
    run_simulated_loop-IsReady sine 2 (start 0 []) events (start-IsReady 0 [])

abbrev at_home : MockState
at_home = record (start 0 []) { command_received = true; estop = true }

-- A command that is ignored, and a release.
abbrev idle_events : List Event
idle_events =
    commanded ones ∷ tick_due 1 true true ∷ stopped (0 ∷ []) true ∷ tick_due 2 true true ∷ []
