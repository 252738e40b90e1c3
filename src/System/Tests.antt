-- ===== src/System/Tests.antt =====
-- A heart that stops beating, and a Comau on a cable that is pulled once.
use sonny.Prelude.{ℕ, ◌≡◌, refl, Bool, true, false, List, [], ◌∷◌, map, none, arith}
use sonny.Brand.{comau}
use sonny.Text.{codes}
use sonny.Adapters.Select.{adapter_for}
use sonny.Adapters.Comau.{comau_pdl2}
use sonny.Watchdog.{
  default_config, command, estop, status, new_watchdog, Round, monitor_round, monitor_loop,
}
use sonny.Fieldbus.Loop
use sonny.Fieldbus.Loop.{Event, received}
use sonny.Fieldbus.Serve.Whole.{Ends}
use sonny.Fieldbus.Reconnect.{Attempt, refused, lost, run_link}
use sonny.Fieldbus.Reconnect.Keeps.{stop_attempts, adapter_for-run_link}
use sonny.Fieldbus.Serve.Outputs.{stop_after}
use sonny.Fieldbus.Sample.{config, link, link-IsServing, comau_ne_luwu, nan_bytes}
use sonny.System.{put_message, deliver, robot_name, resolve_hardware_id}
use sonny.System.Trip.{run_link-monitor_loop, deliver-default_names}

abbrev zeros : List ℕ
zeros = 0 ∷ 0 ∷ 0 ∷ 0 ∷ []

-- The last beat was at 100 ms; the second look, at 120 ms, finds it silent.
abbrev rounds : List Round
rounds =
    record {
      stop = false;
      now_ms = 105;
      heartbeat = record { last_ping_ms = 100 };
      checked_at = 5;
      forced_at = 5;
    }
    ∷ record {
      stop = false;
      now_ms = 120;
      heartbeat = record { last_ping_ms = 100 };
      checked_at = 20;
      forced_at = 21;
    }
    ∷ []

-- The transport fails to open, opens, and is lost after a command; the stop comes on the next connection.
abbrev tries : List Attempt
tries = refused ∷ lost (Loop.command 3 nan_bytes ∷ []) ∷ []

abbrev now : List Event
now =
    received 7 (codes "0.5")
    ∷ Loop.command 4 zeros
    ∷ Loop.estop (1 ∷ [])
    ∷ Loop.command 5 nan_bytes
    ∷ []

abbrev no_text : Bool → ℕ → ℕ → List ℕ
no_text tripped trips timeout_ms = []

run_link-monitor_loop_example :
    Ends
      (adapter_for comau)
      config
      (monitor_loop default_config zeros (new_watchdog 0) rounds).0.tripped
      (run_link (adapter_for comau) config link tries now)
unfolding adapter_for comau_pdl2 deliver put_message monitor_loop new_watchdog monitor_round
run_link-monitor_loop_example =
    run_link-monitor_loop comau config link tries now default_config zeros (new_watchdog 0) rounds
      no_text 0 (codes "arm") comau_ne_luwu link-IsServing (omega arith) refl tt refl

adapter_for-run_link_example :
    Ends
      (adapter_for comau)
      config
      (stop_after (stop_attempts link.estop_active tries) now)
      (run_link (adapter_for comau) config link tries now)
unfolding adapter_for comau_pdl2
adapter_for-run_link_example =
    adapter_for-run_link comau config link tries now comau_ne_luwu link-IsServing

deliver-default_names_example :
    deliver 0 (resolve_hardware_id none none) (
      map
        (put_message no_text (robot_name none))
        (command zeros ∷ estop true ∷ status true 1 10 ∷ []))
    ≡ []
deliver-default_names_example =
    deliver-default_names no_text 0 (command zeros ∷ estop true ∷ status true 1 10 ∷ [])
