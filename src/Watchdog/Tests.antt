-- ===== src/Watchdog/Tests.antt =====
-- A watchdog that sees a beat, a silence of five rounds and a beat again.
use sonny.Prelude.{
  ℕ, ◌≡◌, ◌+◌, ◌≤◌, ◌<◌, some, get_elem?, take, refl, true, false, List, [], ◌∷◌, replicate, arith,
}
use sonny.Watchdog.{
  Round, default_config, new_watchdog, monitor_round, monitor_loop, command, estop, status,
}
use sonny.Watchdog.Latch.{IsTold, monitor_loop-IsTold}
use sonny.Watchdog.Silence.{monitor_loop-trips}

abbrev round : ℕ → Round
round now = record {
  stop = false;
  now_ms = now;
  heartbeat = record { last_ping_ms = 100 };
  checked_at = now;
  forced_at = now;
}

abbrev rounds : List Round
rounds =
    round 105
    ∷ round 111
    ∷ round 112
    ∷ round 121
    ∷ record (round 130) { heartbeat = record { last_ping_ms = 129 } }
    ∷ []

abbrev zeros_of_one : List ℕ
zeros_of_one = replicate 4 0

-- It trips at 111, forces the zeros again at 121, and releases at 130.
published : monitor_loop default_config zeros_of_one (new_watchdog 0) rounds ≡ (
  record { tripped = false; trips = 1; last_force_at = 121 },
  command zeros_of_one ∷ estop true ∷ status true 1 10 ∷ command zeros_of_one ∷ estop false ∷ [],
)
unfolding monitor_loop monitor_round new_watchdog
published = refl

monitor_loop-IsTold_example :
    IsTold
      (new_watchdog 0)
      (monitor_loop default_config zeros_of_one (new_watchdog 0) rounds).0
      (monitor_loop default_config zeros_of_one (new_watchdog 0) rounds).1
unfolding new_watchdog
monitor_loop-IsTold_example =
    monitor_loop-IsTold default_config zeros_of_one (new_watchdog 0) rounds (omega arith)

-- Looks at the clock at 109, 110, 111 and 112 ms, with no beat since 100.
abbrev looks : List Round
looks = round 109 ∷ round 110 ∷ round 111 ∷ round 112 ∷ []

monitor_loop-trips_example :
    (k : ℕ) × (r : Round) × (get_elem? looks k ≡ some r)
    × (100 + 10 < r.now_ms)
    × (r.now_ms ≤ 100 + 10 + 1)
    × ((n : ℕ)
        → k < n
        → (monitor_loop default_config zeros_of_one (new_watchdog 0) (take n looks)).0.tripped
          ≡ true)
monitor_loop-trips_example =
    monitor_loop-trips default_config zeros_of_one 100 108 (new_watchdog 0) looks
      (
        refl,
        omega arith,
        omega arith,
        omega arith,
        (
          refl,
          omega arith,
          omega arith,
          omega arith,
          (
            refl,
            omega arith,
            omega arith,
            omega arith,
            (refl, omega arith, omega arith, omega arith, tt),
          ),
        ),
      )
      (omega arith) (omega arith)
