-- ===== src/Fieldbus/Serve/Whole.antt =====
-- The events of a connection, one after the other.
use sonny.Prelude.{◌≡◌, refl, sym, ap, ◌∙◌, Bool, true, false, List, [], ◌∷◌, ◌++◌, All, All-append}
use sonny.Adapters.{BrandAdapter}
use sonny.Fieldbus.{Transport, serial, udp, tcp, FieldbusConfig, Output, status, Run, done}
use sonny.Fieldbus.Loop.{
  Event, received, closed, command, estop, poll_tick, LoopState, is_active, on_event, serve,
  start_loop, run_serial_loop, run_udp_loop, run_tcp_loop,
}
use sonny.Fieldbus.Serve.Outputs.{IsServing, IsTotal, stop_after, IsSafeOutput}
use sonny.Fieldbus.Serve.Events.{Serves, command-Serves, estop-Serves, received-Serves, poll-Serves}

module _ (adapter : BrandAdapter) (config : FieldbusConfig) where
  -- How a connection ends.
  abbrev pub Ends : Bool → Run (LoopState adapter × List Output) → Type 0
  Ends stop run =
      (t : LoopState adapter) × (published : List Output) × (run ≡ done (t, published))
      × (IsServing adapter config t
          × (t.estop_active ≡ stop)
          × All (IsSafeOutput adapter config) published)

module _ (adapter : BrandAdapter) (config : FieldbusConfig)
    (total : IsTotal adapter config.joint_count) where
  serve_step :
      (s : LoopState adapter) (e : Event) (es : List Event) (stop : Bool)
      → Serves adapter config total stop true (on_event adapter config s e)
      → ((t : LoopState adapter)
          → IsServing adapter config t
          → Ends adapter config (stop_after t.estop_active es) (serve adapter config t es))
      → Ends adapter config (stop_after stop es) (serve adapter config s (e ∷ es))
  unfolding serve
  serve_step s e es stop (t, published, runs, (ready, held, safe)) later =
      let (last, rest, runs', (ready', held', safe')) = later t ready in
      (
        last,
        published ++ rest,
        rw (serve, runs, runs') refl,
        (
          ready',
          held' ∙ ap (λ b. stop_after b es) held,
          All-append (IsSafeOutput adapter config) published rest safe safe',
        ),
      )

  -- However the events of a connection come, no part of the loop panics or fails to end: every frame
  -- that leaves for the robot is an encoded command within the limits or the zeros of a stop, the
  -- stop that is held at the end is the last one received, and the loop is ready for the next
  -- connection.
  pub serve-Ends :
      (s : LoopState adapter) (es : List Event)
      → IsServing adapter config s
      → Ends adapter config (stop_after s.estop_active es) (serve adapter config s es)
  unfolding serve on_event
  serve-Ends s [] ready = (s, [], refl, (ready, refl, tt))
  serve-Ends s (closed ∷ es) ready =
      (s, status false s.receiver.frames s.estop_active ∷ [], refl, (ready, refl, (tt, tt)))
  serve-Ends s (received now bytes ∷ es) ready =
      serve_step s (received now bytes) es s.estop_active
        (received-Serves adapter config total s now bytes ready) (λ t r. serve-Ends t es r)
  serve-Ends s (command elapsed bytes ∷ es) ready =
      serve_step s (command elapsed bytes) es s.estop_active
        (command-Serves adapter config total s elapsed bytes ready) (λ t r. serve-Ends t es r)
  serve-Ends s (estop bytes ∷ es) ready =
      serve_step s (estop bytes) es (is_active bytes)
        (estop-Serves adapter config total s bytes ready) (λ t r. serve-Ends t es r)
  serve-Ends s (poll_tick delivered ∷ es) ready =
      serve_step s (poll_tick delivered) es s.estop_active
        (poll-Serves adapter config total s delivered ready) (λ t r. serve-Ends t es r)

-- The loop of a transport is the one loop at that transport.
pub start_loop_lem :
    (adapter : BrandAdapter) (config : FieldbusConfig)
    → start_loop adapter config ≡ serve adapter config
unfolding start_loop
start_loop_lem adapter config = at config.transport refl
  where
    at :
        (t : Transport)
        → config.transport ≡ t
        → (elim t [
          | serial ↦ run_serial_loop adapter config
          | udp ↦ run_udp_loop adapter config
          | tcp ↦ run_tcp_loop adapter config
        ])
          ≡ serve adapter config
    at serial e = ap (λ t. serve adapter (record config { transport = t })) (sym e)
    at udp e = ap (λ t. serve adapter (record config { transport = t })) (sym e)
    at tcp e = ap (λ t. serve adapter (record config { transport = t })) (sym e)
