-- ===== src/Fieldbus/Tests.antt =====
-- A robot of one joint on a fieldbus, and an XGO that is stopped.
use sonny.Prelude.{
  suc, ◌+◌, ◌≡◌, refl, map, length, true, false, List, [], ◌∷◌, ◌++◌, replicate, arith, Returns,
}
use sonny.Float.{F32, lt, le, is_finite, arithmetic}
use sonny.Health.{new_metric}
use sonny.Vectors.{IsValid, from_bytes}
use sonny.Limits.{pairs-IsOrdered}
use sonny.JerkLimiter.{default_dt}
use sonny.JerkLimiter.Bounds.{InRange}
use sonny.Adapters.Binary.{generic_binary}
use sonny.Adapters.Select.{adapter_for}
use sonny.Brand.{comau}
use sonny.Adapters.Comau.{comau_pdl2}
use sonny.Text.{codes}
use sonny.Fieldbus.Brands.{adapter_for-messages}
use sonny.Xgo.Uart.{xgo_uart, new_uart}
use sonny.Fieldbus.{
  FieldbusConfig, Pipeline, serial, clamp_command, Receiver, Output, sent, status, done, unfinished,
  drain_frames, telemetry,
}
use sonny.Fieldbus.Loop.{command, estop, LoopState, serve, is_active}
use sonny.Fieldbus
use sonny.Fieldbus.{new_pipeline}
use sonny.Fieldbus.Command.{new_pipeline-IsReady, IsReady, clamp_command-InRange}
use sonny.Fieldbus.Messages.{Finds, drain_frames-messages}
use sonny.Health.{wrap64}
use sonny.Vectors.Codec.{encode}
use sonny.Fieldbus.Progress.{generic_binary-IsProductive}
use sonny.Fieldbus.Stop.{serve_stopped, xgo_uart-unfinished}
use sonny.Fieldbus.Sample.{
  comau_ne_luwu, limits, pipeline, period, is_limited, ready, nan_bytes, state, state-IsValidState,
  config,
}

clamp_command-InRange_example :
    Returns
      (λ out.
        IsReady limits out.0
        × IsValid out.1
        × (out.1.len ≡ (from_bytes nan_bytes).len)
        × InRange limits out.1)
      (clamp_command 5 limits pipeline (from_bytes nan_bytes))
clamp_command-InRange_example = clamp_command-InRange 5 limits pipeline nan_bytes ready

-- Two frames of one joint and a byte of the next.
abbrev two_frames : Receiver generic_binary.State
unfolding generic_binary
two_frames = record {
  adapter_state = tt;
  acc = 0 ∷ 0 ∷ 0x80 ∷ 0x3F ∷ 0 ∷ 0 ∷ 0 ∷ 0x40 ∷ 9 ∷ [];
  frames = 3;
  state = state;
  tx_buf = replicate 128 0;
}

drain_frames-messages_example :
    (r' : Receiver generic_binary.State) × (messages : List (List F32)) × Finds generic_binary 1
      two_frames.adapter_state two_frames.acc messages r'.adapter_state r'.acc
    × (drain_frames generic_binary 1 10 77 two_frames
        ≡ done (r', map (λ vs. telemetry (encode vs)) messages))
    × (r'.frames ≡ wrap64 (two_frames.frames + length messages))
unfolding two_frames
drain_frames-messages_example =
    drain_frames-messages generic_binary 1 (λ _. Unit) 10 77 two_frames
      (generic_binary-IsProductive 1) (omega arith) (omega arith) state-IsValidState (omega arith)
      tt

-- Two lines of a Comau robot of one joint, and the start of the next.
abbrev comau_receiver : Receiver (adapter_for comau).State
unfolding adapter_for comau_pdl2
comau_receiver = record {
  adapter_state = tt;
  acc = codes "0.5\n-1.25\n2.";
  frames = 3;
  state = state;
  tx_buf = replicate 128 0;
}

adapter_for-messages_example :
    (r' : Receiver (adapter_for comau).State) × (messages : List (List F32)) × Finds
      (adapter_for comau)
      1
      comau_receiver.adapter_state
      comau_receiver.acc
      messages
      r'.adapter_state
      r'.acc
    × (drain_frames (adapter_for comau) 1 (suc (length comau_receiver.acc)) 77 comau_receiver
        ≡ done (r', map (λ vs. telemetry (encode vs)) messages))
    × (r'.frames ≡ wrap64 (comau_receiver.frames + length messages))
unfolding comau_receiver
adapter_for-messages_example =
    adapter_for-messages comau 1 77 comau_receiver comau_ne_luwu (omega arith) state-IsValidState
      (omega arith)

abbrev xgo_receiver : Receiver xgo_uart.State
unfolding xgo_uart
xgo_receiver = record {
  adapter_state = new_uart;
  acc = [];
  frames = 0;
  state = state;
  tx_buf = replicate 128 0;
}

abbrev running : LoopState xgo_uart
unfolding xgo_receiver
running = record {
  receiver = xgo_receiver;
  pipeline = pipeline;
  estop_active = false;
  cmd_buf = replicate 2048 0;
  poll_buf = replicate 64 0;
}

xgo_uart-unfinished_example :
    drain_frames xgo_uart 12 1000 0 (record xgo_receiver { acc = [] }) ≡ unfinished
xgo_uart-unfinished_example = xgo_uart-unfinished 1000 12 0 xgo_receiver

abbrev stopped : LoopState xgo_uart
unfolding running
stopped = record running { estop_active = true }

-- Two commands and one more stop, then the release.
serve_stopped_example :
    serve xgo_uart config stopped
      ((command 1 nan_bytes ∷ estop (1 ∷ []) ∷ command 2 (0 ∷ []) ∷ []) ++ (estop [] ∷ []))
    ≡ serve xgo_uart config stopped (estop [] ∷ [])
unfolding is_active stopped
serve_stopped_example =
    serve_stopped xgo_uart config stopped
      (command 1 nan_bytes ∷ estop (1 ∷ []) ∷ command 2 (0 ∷ []) ∷ []) (estop [] ∷ []) refl
      (refl, tt)

-- One joint at 100 Hz.
abbrev one_joint : FieldbusConfig
one_joint = record config {
  joint_count = 1;
  expected_hz = 0x4059_0000_0000_0000;
  max_speed_rad_s = 0x3F80_0000 ∷ [];
  max_accel_rad_s2 = 0x4000_0000 ∷ [];
  max_jerk_rad_s3 = 0x42C8_0000 ∷ [];
}

period_100hz : Fieldbus.period one_joint.expected_hz ≡ default_dt
unfolding Fieldbus.period arithmetic lt
period_100hz = refl

new_pipeline-IsReady_example : IsReady limits (new_pipeline one_joint new_metric)
unfolding is_finite le
new_pipeline-IsReady_example =
    new_pipeline-IsReady one_joint new_metric (pairs-IsOrdered limits ((refl, refl, refl), tt))
      (rw period_100hz period) (omega arith) refl refl refl
      (λ i h. rw period_100hz (is_limited i h))
