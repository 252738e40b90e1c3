-- ===== src/Fieldbus/Reconnect/Keeps.antt =====
-- What outlives a connection.
use sonny.Prelude.{◌≡◌, ◌≢◌, refl, ◌∙◌, Bool, true, List, [], ◌∷◌, ◌++◌, All, All-append, arith}
use sonny.Brand.{RobotBrand, luwu_dynamics}
use sonny.Adapters.{BrandAdapter}
use sonny.Adapters.Select.{adapter_for}
use sonny.Fieldbus.{Transport, serial, udp, tcp, FieldbusConfig, Output, status, Run}
use sonny.Fieldbus.Loop.{Event, received, closed, command, estop, poll_tick, is_active, LoopState}
use sonny.Fieldbus.Serve.Outputs.{IsServing, IsTotal, stop_after, IsSafeOutput}
use sonny.Fieldbus.Serve.Whole.{Ends, serve-Ends, start_loop_lem}
use sonny.Fieldbus.Serve.Brand.{adapter_for-IsTotal}
use sonny.Fieldbus.Reconnect.{
  Attempt, refused, lost, refused_status, open_link, with_outputs, connection, attempt, run_link,
}

-- The stop after the attempts.
abbrev pub stop_attempts : Bool → List Attempt → Bool
stop_attempts b [] = b
stop_attempts b (refused ∷ tries) = stop_attempts b tries
stop_attempts b (lost es ∷ tries) = stop_attempts (stop_after b es) tries

stop_after-closed :
    (b : Bool) (es : List Event) → stop_after b (es ++ (closed ∷ [])) ≡ stop_after b es
stop_after-closed b [] = refl
stop_after-closed b (received _ _ ∷ es) = stop_after-closed b es
stop_after-closed b (closed ∷ es) = refl
stop_after-closed b (command _ _ ∷ es) = stop_after-closed b es
stop_after-closed b (estop bytes ∷ es) = stop_after-closed (is_active bytes) es
stop_after-closed b (poll_tick _ ∷ es) = stop_after-closed b es

module _ (adapter : BrandAdapter) (config : FieldbusConfig)
    (total : IsTotal adapter config.joint_count) where
  with_outputs-Ends :
      (stop : Bool) (run : Run (LoopState adapter × List Output)) (published : List Output)
      → All (IsSafeOutput adapter config) published
      → Ends adapter config stop run
      → Ends adapter config stop (with_outputs adapter config published run)
  with_outputs-Ends stop run published safe (t, later, runs, (ready, held, safe')) = (
    t,
    published ++ later,
    rw runs refl,
    (ready, held, All-append (IsSafeOutput adapter config) published later safe safe'),
  )

  connection-Ends :
      (s : LoopState adapter) (es : List Event)
      → IsServing adapter config s
      → Ends adapter config (stop_after s.estop_active es) (connection adapter config s es)
  unfolding connection
  connection-Ends s es ready =
      with_outputs-Ends (stop_after s.estop_active es) _ (status true 0 s.estop_active ∷ [])
        (tt, tt)
        (rw (start_loop_lem adapter config) (
          serve-Ends adapter config total (open_link adapter config s) es
            (record { frames = omega arith; state = ready.state; pipeline = ready.pipeline })))

  refused-safe : (t : Transport) (b : Bool) → IsSafeOutput adapter config (refused_status t b)
  unfolding refused_status
  refused-safe serial b = tt
  refused-safe udp b = tt
  refused-safe tcp b = tt

  run_link-Ends :
      (s : LoopState adapter) (tries : List Attempt) (es : List Event)
      → IsServing adapter config s
      → Ends adapter config
          (stop_after (stop_attempts s.estop_active tries) es)
          (run_link adapter config s tries es)
  unfolding run_link attempt
  run_link-Ends s [] es ready = connection-Ends s es ready
  run_link-Ends s (refused ∷ tries) es ready =
      with_outputs-Ends _ (run_link adapter config s tries es)
        (refused_status config.transport s.estop_active ∷ [])
        (refused-safe config.transport s.estop_active, tt) (run_link-Ends s tries es ready)
  run_link-Ends s (lost lost_es ∷ tries) es ready =
      let (t, published, runs, (ready', held, safe)) =
        connection-Ends s (lost_es ++ (closed ∷ [])) ready in
      let stop = held ∙ stop_after-closed s.estop_active lost_es in
      rw (run_link, runs, ← stop)
        (with_outputs-Ends _ (run_link adapter config t tries es) published safe
          (run_link-Ends t tries es ready'))

-- A robot of any brand but Luwu Dynamics, over any number of connections that fail or are lost:
-- nothing panics or fails to end, every frame that leaves for the robot is an encoded command within
-- its limits or the zeros of a stop, and a stop that was received holds until one is received that
-- releases it, however often the connection is lost between them.
pub adapter_for-run_link :
    (brand : RobotBrand) (config : FieldbusConfig) (s : LoopState (adapter_for brand))
    (tries : List Attempt) (es : List Event)
    → brand ≢ luwu_dynamics
    → IsServing (adapter_for brand) config s
    → Ends
        (adapter_for brand)
        config
        (stop_after (stop_attempts s.estop_active tries) es)
        (run_link (adapter_for brand) config s tries es)
adapter_for-run_link brand config s tries es other =
    run_link-Ends (adapter_for brand) config (adapter_for-IsTotal brand config.joint_count other) s
      tries es
