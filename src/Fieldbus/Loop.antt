-- ===== src/Fieldbus/Loop.antt =====
-- src/io_bridge/hardware_abstraction.rs: one connection of a loop, as a fold over the events that its
-- `select!` takes, and what each of them does.
use sonny.Prelude.{
  ℕ, suc, Bool, true, false, not, ◌||◌, List, [], ◌∷◌, ◌++◌, Option, none, some, ◌>>=◌,
  if◌then◌else◌, ltb, ◌==◌, length, take, replicate,
}
use sonny.Vectors.{from_bytes}
use sonny.Adapters.{BrandAdapter}
use sonny.Fieldbus.{
  Transport, serial, udp, tcp, FieldbusConfig, Pipeline, clamp_command, Output, sent, status, Run,
  done, panicked, unfinished, Receiver, drain_frames,
}

-- `closed` is a read or a subscription that ends. `delivered` says whether the write of a poll, which
-- ends the loop when it fails, went through. A status that cannot be published would end the function
-- with an error, and is not modelled.
pub data Event : Type 0 where
  received : (now : ℕ) → List ℕ → Event
  closed : Event
  command : (elapsed_ns : ℕ) → List ℕ → Event
  estop : List ℕ → Event
  poll_tick : (delivered : Bool) → Event

pub record LoopState (adapter : BrandAdapter) : Type 0 where
  pub receiver : Receiver adapter.State
  pub pipeline : Pipeline
  pub estop_active : Bool
  pub cmd_buf : List ℕ
  pub poll_buf : List ℕ

-- `payload.first().copied().unwrap_or(0) != 0`
unfoldable pub is_active : List ℕ → Bool
is_active [] = false
is_active (b ∷ _) = not (b == 0)

-- `active == estop_active`
abbrev pub same : Bool → Bool → Bool
same true b = b
same false b = not b

-- Where a command is encoded: UDP keeps one buffer, the others have a fresh one for each command.
unfoldable pub buffer_of : Transport → List ℕ → List ℕ
buffer_of udp cmd_buf = cmd_buf
buffer_of serial cmd_buf = replicate 2048 0
buffer_of tcp cmd_buf = replicate 2048 0

module _ (adapter : BrandAdapter) (config : FieldbusConfig) where
  abbrev pub Reaction : Type 0
  Reaction = LoopState adapter × List Output × Bool

  unfoldable pub command_buffer : LoopState adapter → List ℕ
  unfolding buffer_of
  command_buffer s = buffer_of config.transport s.cmd_buf

  -- The bytes encoded, written to the bus; the flag says that the loop goes on.
  unfoldable pub send : LoopState adapter → Option (List ℕ × ℕ) → Option Reaction
  send s encoded = do
    out ← encoded
    some (record s { cmd_buf = out.0 }, sent (take out.1 out.0) ∷ [], true)

  unfoldable pub on_command : LoopState adapter → (elapsed_ns : ℕ) → List ℕ → Option Reaction
  unfolding send command_buffer clamp_command
  on_command s elapsed_ns bytes =
      if s.estop_active || (length bytes == 0) then some (s, [], true) else (do
        clamped ← clamp_command elapsed_ns config.joint_limits_rad s.pipeline (from_bytes bytes)
        send (record s { pipeline = clamped.0 })
            (adapter.encode_command clamped.1 (command_buffer s)))

  unfoldable pub on_estop : LoopState adapter → List ℕ → Option Reaction
  unfolding send command_buffer is_active
  on_estop s bytes =
      let active = is_active bytes in
      let t = record s { estop_active = active } in
      let told = status true s.receiver.frames active ∷ [] in
      if same active s.estop_active
      then some (s, [], true)
      else if active
      then (do
        out ← send t (adapter.encode_estop config.joint_count (command_buffer s))
        some (out.0, out.1 ++ told, true))
      else some (t, told, true)

  unfoldable pub on_poll : LoopState adapter → (delivered : Bool) → Option Reaction
  on_poll s delivered = do
    polled ← adapter.poll_request s.receiver.adapter_state s.poll_buf
    let t = record s {
      receiver = record s.receiver { adapter_state = polled.0 };
      poll_buf = polled.1;
    }
    if ltb 0 polled.2
        then some (t, sent (take polled.2 polled.1) ∷ [], delivered)
        else some (t, [], true)

  -- The poll arm of the serial loop is open if the adapter polls.
  unfoldable pub polls : Bool
  polls = elim config.transport [ serial ↦ ltb 0 adapter.poll_period_ms | _ ↦ false ]

  -- A round whose loop over the frames is given enough fuel for one round per byte, and one more.
  unfoldable pub on_received : LoopState adapter → (now : ℕ) → List ℕ → Run Reaction
  unfolding drain_frames
  on_received s now bytes =
      let acc = s.receiver.acc ++ bytes in
      elim (drain_frames adapter config.joint_count (suc (length acc)) now
        (record s.receiver { acc = acc })) [
          | done (r, published) ↦ done (record s { receiver = r }, published, true)
          | panicked ↦ panicked
          | unfinished ↦ unfinished
        ]

  abbrev pub run_of : Option Reaction → Run Reaction
  run_of none = panicked
  run_of (some r) = done r

  unfoldable pub on_event : LoopState adapter → Event → Run Reaction
  unfolding on_command on_estop on_poll on_received polls
  on_event s (received now bytes) = on_received s now bytes
  on_event s closed = done (s, [], false)
  on_event s (command elapsed_ns bytes) = run_of (on_command s elapsed_ns bytes)
  on_event s (estop bytes) = run_of (on_estop s bytes)
  on_event s (poll_tick delivered) =
      if polls then run_of (on_poll s delivered) else done (s, [], true)

  -- A connection: its events in order, up to one that ends it.
  unfoldable pub serve : LoopState adapter → List Event → Run (LoopState adapter × List Output)
  unfolding on_event
  serve s [] = done (s, [])
  serve s (e ∷ es) = elim (on_event s e) [
    | panicked ↦ panicked
    | unfinished ↦ unfinished
    | done (t, published, more) ↦
        if more
        then (elim (serve t es) [
          | done (last, later) ↦ done (last, published ++ later)
          | panicked ↦ panicked
          | unfinished ↦ unfinished
        ])
        else done (t, published ++ (status false t.receiver.frames t.estop_active ∷ []))
  ]

-- The three loops, for one connection each.
unfoldable pub run_serial_loop :
    (adapter : BrandAdapter)
    → FieldbusConfig
    → LoopState adapter
    → List Event
    → Run (LoopState adapter × List Output)
unfolding serve
run_serial_loop adapter config = serve adapter (record config { transport = serial })

unfoldable pub run_udp_loop :
    (adapter : BrandAdapter)
    → FieldbusConfig
    → LoopState adapter
    → List Event
    → Run (LoopState adapter × List Output)
unfolding serve
run_udp_loop adapter config = serve adapter (record config { transport = udp })

unfoldable pub run_tcp_loop :
    (adapter : BrandAdapter)
    → FieldbusConfig
    → LoopState adapter
    → List Event
    → Run (LoopState adapter × List Output)
unfolding serve
run_tcp_loop adapter config = serve adapter (record config { transport = tcp })

unfoldable pub start_loop :
    (adapter : BrandAdapter)
    → FieldbusConfig
    → LoopState adapter
    → List Event
    → Run (LoopState adapter × List Output)
unfolding run_serial_loop run_udp_loop run_tcp_loop
start_loop adapter config = elim config.transport [
  | serial ↦ run_serial_loop adapter config
  | udp ↦ run_udp_loop adapter config
  | tcp ↦ run_tcp_loop adapter config
]
