-- ===== src/Fieldbus/Stop.antt =====
-- The emergency stop on the fieldbus, and the one adapter on which the loop over the frames has no end.
use sonny.Prelude.{
  ℕ, zero, suc, ◌≤◌, ◌≡◌, refl, ◌∙◌, true, false, List, [], ◌∷◌, ◌++◌, arith, length, drop,
  length-replicate,
}
use sonny.Adapters.{BrandAdapter}
use sonny.Fieldbus.{
  Transport, serial, udp, tcp, FieldbusConfig, Output, sent, status, Run, done, panicked,
  unfinished, Receiver, drain_frames,
}
use sonny.Fieldbus.Loop.{
  Event, received, closed, command, estop, poll_tick, LoopState, on_event, serve, command_buffer,
  buffer_of, is_active,
}
use sonny.Xgo.Uart.{xgo_uart}
use sonny.Xgo.Wire.{wire, push_frame-wire}

-- Commands, and further stops.
abbrev pub IsHeldBack : List Event → Type 0
IsHeldBack [] = Unit
IsHeldBack (command _ _ ∷ es) = IsHeldBack es
IsHeldBack (estop bytes ∷ es) = (is_active bytes ≡ true) × IsHeldBack es
IsHeldBack (received _ _ ∷ es) = ⊥
IsHeldBack (closed ∷ es) = ⊥
IsHeldBack (poll_tick _ ∷ es) = ⊥

module _ (adapter : BrandAdapter) (config : FieldbusConfig) where
  nothing_more :
      (run : Run (LoopState adapter × List Output))
      → elim run [
        | done (last, later) ↦ done (last, [] ++ later)
        | panicked ↦ panicked
        | unfinished ↦ unfinished
      ]
        ≡ run
  nothing_more (done (last, later)) = refl
  nothing_more panicked = refl
  nothing_more unfinished = refl

  serve_skip :
      (s : LoopState adapter) (e : Event) (es : List Event)
      → on_event adapter config s e ≡ done (s, [], true)
      → serve adapter config s (e ∷ es) ≡ serve adapter config s es
  unfolding serve
  serve_skip s e es h = rw (serve, h) (nothing_more (serve adapter config s es))

  command_stopped :
      (s : LoopState adapter) (elapsed : ℕ) (bytes : List ℕ)
      → s.estop_active ≡ true
      → on_event adapter config s (command elapsed bytes) ≡ done (s, [], true)
  unfolding on_event
  command_stopped s elapsed bytes e = simp e

  estop_stopped :
      (s : LoopState adapter) (bytes : List ℕ)
      → s.estop_active ≡ true
      → is_active bytes ≡ true
      → on_event adapter config s (estop bytes) ≡ done (s, [], true)
  unfolding on_event
  estop_stopped s bytes e a = simp (e, a)

  -- While the stop is active, commands and further stops leave no trace: nothing of them is sent, and
  -- what follows happens as if they had not come.
  pub serve_stopped :
      (s : LoopState adapter) (es rest : List Event)
      → s.estop_active ≡ true
      → IsHeldBack es
      → serve adapter config s (es ++ rest) ≡ serve adapter config s rest
  serve_stopped s [] rest e h = refl
  serve_stopped s (command elapsed bytes ∷ es) rest e h =
      serve_skip s (command elapsed bytes) (es ++ rest) (command_stopped s elapsed bytes e)
      ∙ serve_stopped s es rest e h
  serve_stopped s (estop bytes ∷ es) rest e (a, h) =
      serve_skip s (estop bytes) (es ++ rest) (estop_stopped s bytes e a)
      ∙ serve_stopped s es rest e h
  serve_stopped s (received now _ ∷ es) rest e h = elim h [ ]
  serve_stopped s (closed ∷ es) rest e h = elim h [ ]
  serve_stopped s (poll_tick delivered ∷ es) rest e h = elim h [ ]

-- An accumulator that is empty keeps the XGO's loop busy for ever: no fuel is enough.
pub xgo_uart-unfinished :
    (fuel joint_count now : ℕ) (r : Receiver xgo_uart.State)
    → drain_frames xgo_uart joint_count fuel now (record r { acc = [] }) ≡ unfinished
unfolding drain_frames xgo_uart
xgo_uart-unfinished zero joint_count now r = refl
xgo_uart-unfinished (suc fuel) joint_count now r =
    rw (drain_frames, xgo_uart-unfinished fuel joint_count now r) refl

buffer_of-room :
    (t : Transport) (cmd_buf : List ℕ) → 9 ≤ length cmd_buf → 9 ≤ length (buffer_of t cmd_buf)
unfolding buffer_of
buffer_of-room udp cmd_buf h = h
buffer_of-room serial cmd_buf h = omega (arith, length-replicate {A = ℕ} 2048 0)
buffer_of-room tcp cmd_buf h = omega (arith, length-replicate {A = ℕ} 2048 0)

-- A stop that an XGO did not have yet puts one frame on the bus, action 255, whatever the buffer holds,
-- and then tells the status; from then on commands are held back.
pub xgo_uart-estop :
    (config : FieldbusConfig) (s : LoopState xgo_uart) (bytes : List ℕ)
    → s.estop_active ≡ false
    → is_active bytes ≡ true
    → 9 ≤ length s.cmd_buf
    → (t : LoopState xgo_uart) × (on_event xgo_uart config s (estop bytes)
        ≡ done
            (t, sent (wire 0x00 0x3E (255 ∷ [])) ∷ status true s.receiver.frames true ∷ [], true))
      × (t.estop_active ≡ true)
      × (t.receiver ≡ s.receiver)
      × (t.pipeline ≡ s.pipeline)
unfolding on_event command_buffer xgo_uart
xgo_uart-estop config s bytes e a room =
    let buf = buffer_of config.transport s.cmd_buf in
    let pushed =
      push_frame-wire buf 0x00 0x3E (255 ∷ []) (omega arith)
        (omega (arith, buffer_of-room config.transport s.cmd_buf room)) in
    (
      record s { estop_active = true; cmd_buf = wire 0x00 0x3E (255 ∷ []) ++ drop 9 buf },
      simp (a, e, pushed),
      refl,
      refl,
      refl,
    )
