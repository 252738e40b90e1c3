-- ===== src/System/Pulse/Whole.antt =====
-- From the heart of the real-time loop to the joints.
use sonny.Prelude.{subst, ℕ, ◌^◌, ◌<◌, ◌≡◌, ◌≢◌, ap, sym, ◌∙◌, Bool, List, map, some}
use mathlib.Core.Option.{some-injective}
use sonny.Brand.{RobotBrand, luwu_dynamics}
use sonny.Limits.{IsOrdered}
use sonny.Adapters.Select.{adapter_for}
use sonny.RtLoop.{RtConfig, RtState}
use sonny.RtLoop.Frames.{IsReady}
use sonny.Watchdog.{WatchdogConfig, WatchdogState}
use sonny.Watchdog.Latch.{latch}
use sonny.Fieldbus.{FieldbusConfig}
use sonny.Fieldbus.Loop.{Event, LoopState}
use sonny.Fieldbus.Serve.Outputs.{IsServing}
use sonny.Fieldbus.Serve.Whole.{Ends}
use sonny.Fieldbus.Reconnect.{Attempt, run_link}
use sonny.System.{put_message, deliver}
use sonny.System.Stops.{stops, all_events, IsOpen}
use sonny.System.Trip.{run_link-latch}
use sonny.System.Pulse.{Beat, Lived, live}
use sonny.System.Pulse.Verdict.{verdict, PublishesValid, live-verdict}

module _ (c : RtConfig) (w : WatchdogConfig) (bytes : List ℕ) (o : IsOrdered c.limits) where
  live-latch :
      (s : RtState) (t : WatchdogState) (beats : List Beat) (out : Lived)
      → IsReady s
      → PublishesValid beats
      → t.trips < 2 ^ 64
      → live c w bytes s t beats ≡ some out
      → latch t.tripped out.messages
        ≡ verdict w.heartbeat_timeout_ms s.heartbeat.last_ping_ms t.tripped beats
  live-latch s t beats out r v few e =
      let (lived, runs, (_, _, flag, told)) = live-verdict c w bytes o s t beats r v few in
      let same : lived ≡ out = some-injective lived out (sym runs ∙ e) in
      subst
        (λ l.
          latch t.tripped l.messages
          ≡ verdict w.heartbeat_timeout_ms s.heartbeat.last_ping_ms t.tripped beats)
        same (told.flag ∙ flag)

  -- The real-time loop and the watchdog in any order of their steps, and a robot of any brand but Luwu
  -- Dynamics under one name, over any number of connections. Where the stops that the hardware receives
  -- are those that the watchdog put on the bus, the hardware runs without a panic, sends only safe
  -- frames, and is stopped in the end exactly if the last look of the watchdog came more than the
  -- timeout after the frame before it, or as it was where there was no look.
  pub run_link-live :
      (s : RtState) (t : WatchdogState) (beats : List Beat) (out : Lived) (brand : RobotBrand)
      (config : FieldbusConfig) (link : LoopState (adapter_for brand)) (tries : List Attempt)
      (es : List Event) (status_text : Bool → ℕ → ℕ → List ℕ) (elapsed : ℕ) (id : List ℕ)
      → IsReady s
      → PublishesValid beats
      → t.trips < 2 ^ 64
      → live c w bytes s t beats ≡ some out
      → brand ≢ luwu_dynamics
      → IsServing (adapter_for brand) config link
      → link.estop_active ≡ t.tripped
      → IsOpen (all_events tries es)
      → stops (all_events tries es)
        ≡ stops (deliver elapsed id (map (put_message status_text id) out.messages))
      → Ends
          (adapter_for brand)
          config
          (verdict w.heartbeat_timeout_ms s.heartbeat.last_ping_ms t.tripped beats)
          (run_link (adapter_for brand) config link tries es)
  run_link-live s t beats out brand config link tries es text elapsed id r v few e other ready held
        open_ heard =
      subst
        (λ stop.
          Ends (adapter_for brand) config stop (run_link (adapter_for brand) config link tries es))
        (ap (λ b. latch b out.messages) held ∙ live-latch s t beats out r v few e)
        (run_link-latch brand config link tries es out.messages text elapsed id other ready open_
          heard)
