-- ===== src/Fieldbus/Reconnect.antt =====
-- src/io_bridge/hardware_abstraction.rs: the outer loops, which open the transport again when it is
-- lost. What the operating system answers to an attempt is an event; the pause between two attempts is
-- left out. The stop and the adapter's state outlive a connection, the accumulator does not.
pub mod Keeps
use sonny.Prelude.{ℕ, Bool, true, false, List, [], ◌∷◌, ◌++◌, replicate}
use sonny.Adapters.{BrandAdapter}
use sonny.Fieldbus.{
  Transport, serial, udp, tcp, FieldbusConfig, Output, status, Run, done, panicked, unfinished,
}
use sonny.Fieldbus.Loop.{Event, closed, LoopState, serve, start_loop}

-- An attempt to open the transport: it fails, or the connection is there and lost after some events.
pub data Attempt : Type 0 where
  refused : Attempt
  lost : List Event → Attempt

-- What the serial loop tells is that no stop is active; the others tell their own.
unfoldable pub refused_status : Transport → Bool → Output
refused_status serial active = status false 0 false
refused_status udp active = status false 0 active
refused_status tcp active = status false 0 active

module _ (adapter : BrandAdapter) (config : FieldbusConfig) where
  -- The variables that a connection starts with.
  unfoldable pub open_link : LoopState adapter → LoopState adapter
  open_link s = record s {
    receiver = record s.receiver { acc = []; frames = 0 };
    poll_buf = replicate 64 0;
  }

  abbrev pub Served : Type 0
  Served = Run (LoopState adapter × List Output)

  abbrev pub with_outputs : List Output → Served → Served
  with_outputs published (done (t, later)) = done (t, published ++ later)
  with_outputs published panicked = panicked
  with_outputs published unfinished = unfinished

  unfoldable pub connection : LoopState adapter → List Event → Served
  unfolding open_link start_loop
  connection s es =
      with_outputs (status true 0 s.estop_active ∷ []) (start_loop adapter config (open_link s) es)

  unfoldable pub attempt : LoopState adapter → Attempt → Served
  unfolding connection refused_status
  attempt s refused = done (s, refused_status config.transport s.estop_active ∷ [])
  attempt s (lost es) = connection s (es ++ (closed ∷ []))

  -- The attempts that are over, and the events of the connection that is open.
  unfoldable pub run_link : LoopState adapter → List Attempt → List Event → Served
  unfolding attempt connection
  run_link s [] es = connection s es
  run_link s (a ∷ tries) es = elim (attempt s a) [
    | panicked ↦ panicked
    | unfinished ↦ unfinished
    | done (t, published) ↦ with_outputs published (run_link t tries es)
  ]
