-- ===== src/Watchdog.antt =====
-- src/io_bridge/watchdog_timer.rs: the supervisor that zeroes the actuators and latches the estop
-- when the heartbeat is silent. Each round of `monitor_loop` is a step over what it reads: the stop
-- flag, the clock and the heartbeat register; what it publishes is a list of messages. A `put` that
-- fails is only logged, so it changes nothing here. The thread's priority is not modelled.
pub mod Latch
pub mod Zeros
pub mod Silence
mod Tests
use sonny.Prelude.{
  ℕ, ◌+◌, ◌-◌, ◌*◌, Bool, true, false, List, [], ◌∷◌, ◌++◌, Option, none, some, if◌then◌else◌, ltb,
  leb, replicate, take, ◌>>=◌,
}
use sonny.Vectors.{zeros, write_to}
use sonny.Health.{wrap64}

-- The register of the last beat; `now_ms` is an argument.
pub record Heartbeat : Type 0 where
  pub last_ping_ms : ℕ

unfoldable pub new_heartbeat : ℕ → Heartbeat
new_heartbeat now_ms = record { last_ping_ms = now_ms }

unfoldable pub ping : ℕ → Heartbeat → Heartbeat
ping now_ms h = record { last_ping_ms = now_ms }

-- `saturating_sub`
unfoldable pub age_ms : ℕ → Heartbeat → ℕ
age_ms now_ms h = now_ms - h.last_ping_ms

pub record WatchdogConfig : Type 0 where
  pub heartbeat_timeout_ms : ℕ
  pub check_interval_ms : ℕ
  pub reassert_interval_ms : ℕ

abbrev pub default_config : WatchdogConfig
default_config = record {
  heartbeat_timeout_ms = 10;
  check_interval_ms = 1;
  reassert_interval_ms = 10;
}

-- What the watchdog puts on the bus.
pub data Message : Type 0 where
  command : List ℕ → Message
  estop : Bool → Message
  status : (tripped : Bool) (trips timeout_ms : ℕ) → Message

-- The atomics of `HardWatchdog`, and `last_force_at` of the loop.
pub record WatchdogState : Type 0 where
  pub tripped : Bool
  pub trips : ℕ
  pub last_force_at : ℕ

-- What one round reads. `checked_at` and `forced_at` are readings of the monotonic clock, the second
-- one after the messages are out.
pub record Round : Type 0 where
  pub stop : Bool
  pub now_ms : ℕ
  pub heartbeat : Heartbeat
  pub checked_at : ℕ
  pub forced_at : ℕ

unfoldable pub zero_bytes : ℕ → Option (List ℕ)
zero_bytes joint_count = do
  out ← write_to (zeros joint_count) (replicate 128 0)
  some (take out.1 out.0)

unfoldable pub publish_status : WatchdogConfig → WatchdogState → List Message
publish_status c s = status s.tripped s.trips c.heartbeat_timeout_ms ∷ []

unfoldable pub intervene : WatchdogConfig → List ℕ → WatchdogState → List Message
unfolding publish_status
intervene c bytes s = command bytes ∷ estop true ∷ publish_status c s

unfoldable pub reassert_zeros : List ℕ → List Message
reassert_zeros bytes = command bytes ∷ []

unfoldable pub release_estop : List Message
release_estop = estop false ∷ []

-- The branch of a silent heartbeat: the first round trips, the later ones force the zeros again.
unfoldable pub on_silent :
    WatchdogConfig → List ℕ → WatchdogState → Round → WatchdogState × List Message
unfolding intervene reassert_zeros
on_silent c bytes s r =
    if s.tripped
    then (if leb c.reassert_interval_ms (r.checked_at - s.last_force_at)
        then (record s { last_force_at = r.forced_at }, reassert_zeros bytes)
        else (s, []))
    else let t = record s { tripped = true; trips = wrap64 (s.trips + 1) } in
      (record t { last_force_at = r.forced_at }, intervene c bytes t)

-- One round; the flag says that the loop goes on.
unfoldable pub monitor_round :
    WatchdogConfig → List ℕ → WatchdogState → Round → WatchdogState × List Message × Bool
unfolding on_silent release_estop age_ms
monitor_round c bytes s r =
    if r.stop
    then (record s { tripped = false }, if s.tripped then release_estop else [], false)
    else if ltb c.heartbeat_timeout_ms (age_ms r.now_ms r.heartbeat)
    then (let (t, messages) = on_silent c bytes s r in (t, messages, true))
    else (record s { tripped = false }, if s.tripped then release_estop else [], true)

-- The rounds of the loop in order, with all that they publish; it ends at a round that stops.
unfoldable pub monitor_loop :
    WatchdogConfig → List ℕ → WatchdogState → List Round → WatchdogState × List Message
monitor_loop c bytes s [] = (s, [])
monitor_loop c bytes s (r ∷ rs) =
    let (t, messages, more) = monitor_round c bytes s r in
    let later = monitor_loop c bytes t rs in
    if more then (later.0, messages ++ later.1) else (t, messages)

unfoldable pub new_watchdog : ℕ → WatchdogState
new_watchdog now = record { tripped = false; trips = 0; last_force_at = now }
