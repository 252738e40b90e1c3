-- ===== src/System/Trip.antt =====
-- What the watchdog decides reaches the hardware, or does not.
use sonny.Prelude.{
  subst, ℕ, ◌^◌, ◌<◌, ◌≡◌, ◌≢◌, refl, sym, ap, ◌∙◌, Bool, true, false, List, [], ◌∷◌, map, none,
}
use sonny.Brand.{RobotBrand, luwu_dynamics}
use sonny.Adapters.Select.{adapter_for}
use sonny.Watchdog.{
  WatchdogConfig, WatchdogState, Round, Message, command, estop, status, monitor_loop,
}
use sonny.Watchdog.Latch.{latch, monitor_loop-IsTold}
use sonny.Fieldbus.{FieldbusConfig}
use sonny.Fieldbus.Loop.{Event, LoopState}
use sonny.Fieldbus.Serve.Outputs.{IsServing, stop_after}
use sonny.Fieldbus.Serve.Whole.{Ends}
use sonny.Fieldbus.Reconnect.{Attempt, run_link}
use sonny.Fieldbus.Reconnect.Keeps.{stop_attempts, adapter_for-run_link}
use sonny.System.{put_message, deliver, robot_name, resolve_hardware_id}
use sonny.System.Stops.{
  stops, last_stop, IsOpen, all_events, deliver-latch, deliver-IsOpen, stop_attempts-all_events,
  stop_after-last_stop,
}

-- A robot of any brand but Luwu Dynamics that receives the stops of a watchdog's messages holds the last
-- of them.
pub run_link-latch :
    (brand : RobotBrand) (config : FieldbusConfig) (s : LoopState (adapter_for brand))
    (tries : List Attempt) (es : List Event) (ms : List Message)
    (status_text : Bool → ℕ → ℕ → List ℕ) (elapsed : ℕ) (id : List ℕ)
    → brand ≢ luwu_dynamics
    → IsServing (adapter_for brand) config s
    → IsOpen (all_events tries es)
    → stops (all_events tries es) ≡ stops (deliver elapsed id (map (put_message status_text id) ms))
    → Ends
        (adapter_for brand)
        config
        (latch s.estop_active ms)
        (run_link (adapter_for brand) config s tries es)
run_link-latch brand config s tries es ms text elapsed id other ready open_ heard =
    let sent = deliver elapsed id (map (put_message text id) ms) in
    let same : stop_after (stop_attempts s.estop_active tries) es ≡ latch s.estop_active ms =
      stop_attempts-all_events s.estop_active tries es open_
      ∙ stop_after-last_stop s.estop_active (all_events tries es) open_
      ∙ ap (last_stop s.estop_active) heard
      ∙ sym (
          stop_after-last_stop s.estop_active sent
            (deliver-IsOpen elapsed id (map (put_message text id) ms)))
      ∙ deliver-latch text elapsed id s.estop_active ms in
    subst
      (λ stop.
        Ends (adapter_for brand) config stop (run_link (adapter_for brand) config s tries es))
      same (adapter_for-run_link brand config s tries es other ready)

-- The watchdog and a robot of any brand but Luwu Dynamics under one name. Whatever else happens on the
-- bus and to the connection, if the stops that the hardware receives are those that the watchdog put
-- on the bus, then the hardware runs without a panic, sends only safe frames, and holds in the end the
-- stop that the watchdog holds.
pub run_link-monitor_loop :
    (brand : RobotBrand) (config : FieldbusConfig) (s : LoopState (adapter_for brand))
    (tries : List Attempt) (es : List Event) (c : WatchdogConfig) (bytes : List ℕ)
    (w : WatchdogState) (rounds : List Round) (status_text : Bool → ℕ → ℕ → List ℕ) (elapsed : ℕ)
    (id : List ℕ)
    → brand ≢ luwu_dynamics
    → IsServing (adapter_for brand) config s
    → w.trips < 2 ^ 64
    → s.estop_active ≡ w.tripped
    → IsOpen (all_events tries es)
    → stops (all_events tries es)
      ≡ stops
          (deliver elapsed id (map (put_message status_text id) (monitor_loop c bytes w rounds).1))
    → Ends
        (adapter_for brand)
        config
        (monitor_loop c bytes w rounds).0.tripped
        (run_link (adapter_for brand) config s tries es)
run_link-monitor_loop brand config s tries es c bytes w rounds text elapsed id other ready few held
      open_ heard =
    let ms = (monitor_loop c bytes w rounds).1 in
    let same : latch s.estop_active ms ≡ (monitor_loop c bytes w rounds).0.tripped =
      ap (λ b. latch b ms) held ∙ (monitor_loop-IsTold c bytes w rounds few).flag in
    subst
      (λ stop.
        Ends (adapter_for brand) config stop (run_link (adapter_for brand) config s tries es))
      same (run_link-latch brand config s tries es ms text elapsed id other ready open_ heard)

-- Without a configuration file, and without ROBOT_NAME, the hardware subscribes under another name than
-- the one under which the watchdog publishes: nothing that the watchdog puts on the bus reaches it.
pub deliver-default_names :
    (status_text : Bool → ℕ → ℕ → List ℕ) (elapsed : ℕ) (ms : List Message)
    → deliver elapsed
        (resolve_hardware_id none none)
        (map (put_message status_text (robot_name none)) ms)
      ≡ []
unfolding deliver put_message robot_name resolve_hardware_id
deliver-default_names text elapsed [] = refl
deliver-default_names text elapsed (command bytes ∷ ms) = deliver-default_names text elapsed ms
deliver-default_names text elapsed (estop true ∷ ms) = deliver-default_names text elapsed ms
deliver-default_names text elapsed (estop false ∷ ms) = deliver-default_names text elapsed ms
deliver-default_names text elapsed (status tripped trips timeout ∷ ms) =
    deliver-default_names text elapsed ms
