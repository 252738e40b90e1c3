-- ===== src/RtLoop/Monitor/Tests.antt =====
-- A telemetry of 100 Hz that stumbles once.
use sonny.Prelude.{ℕ, ◌+◌, ◌≡◌, refl, List, [], ◌∷◌, none, length, arith}
use sonny.Float.{arithmetic}
use sonny.Health.{wrap64}
use sonny.RtLoop.Monitor.{FrequencyEnforcer, new_enforcer, start_monitoring, new_loop, period_ms}
use sonny.RtLoop.Monitor.Intervals.{intervals, reports, start_monitoring-intervals}

-- 100.0 Hz
abbrev at_100hz : FrequencyEnforcer
at_100hz = record { expected_interval_us = 10000; max_jitter_us = 1000 }

made : new_enforcer 0x4059_0000_0000_0000 1000 ≡ at_100hz
unfolding new_enforcer arithmetic
made = refl

abbrev arrivals : List ℕ
arrivals = 5_000_000 ∷ 15_200_000 ∷ 29_000_000 ∷ 39_000_000 ∷ []

one_report :
    (start_monitoring at_100hz none 0 arrivals).1
    ≡ record { expected_us = 10000; measured_us = 13800; diff_us = 3800 } ∷ []
unfolding start_monitoring
one_report = refl

start_monitoring-intervals_example :
    start_monitoring at_100hz none 7 arrivals
    ≡ (wrap64 (7 + length arrivals), reports at_100hz (intervals arrivals))
start_monitoring-intervals_example = start_monitoring-intervals at_100hz 7 arrivals (omega arith)

-- 300.0 Hz is asked for, and the ticker runs at 333 Hz.
faster : period_ms (new_loop 6 [] 0x4072_C000_0000_0000 1000) ≡ 3
unfolding period_ms new_loop arithmetic
faster = refl
