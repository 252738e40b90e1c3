-- ===== src/System/Pulse/Tests.antt =====
-- A loop of one joint that a producer and the watchdog come between.
use sonny.Prelude.{ℕ, ◌≡◌, ◌∷◌, [], refl, All, some, true, false, List, length, Returns, arith}
use sonny.Float.{le, is_finite}
use sonny.Health.{new_health}
use sonny.Vectors.{CommandVector, from_slice}
use sonny.Vectors.Valid.{from_slice-IsValid}
use sonny.Limits.{Limits, IsOrdered, pairs-IsOrdered}
use sonny.RtLoop.{RtConfig, RtState, new_slot, start_state, run}
use sonny.RtLoop.Frames.{IsReady, IsSafeBytes, start_state-IsReady}
use sonny.Watchdog.{WatchdogState, default_config}
use sonny.Watchdog.Latch.{IsTold}
use sonny.System.Pulse.{Beat, published, ticked, looked, live}
use sonny.System.Pulse.Verdict.{verdict, live-verdict, live-quiet, steps_of}
use sonny.Brand.{comau}
use sonny.Adapters.Select.{adapter_for}
use sonny.Adapters.Comau.{comau_pdl2}
use sonny.Fieldbus.Loop
use sonny.Fieldbus.Loop.{Event}
use sonny.Fieldbus.Serve.Whole.{Ends}
use sonny.Fieldbus.Reconnect.{Attempt, lost, run_link}
use sonny.Fieldbus.Sample
use sonny.Fieldbus.Sample.{link, link-IsServing, comau_ne_luwu}
use sonny.System.Pulse.{Lived, look}
use sonny.System.Pulse.Whole.{run_link-live}
use sonny.System.{put_message, deliver}
use sonny.Watchdog.{monitor_round}
use sonny.Sanitizer.{sanitize_and_clamp}
use sonny.Prelude.{for_range, copy_into}
use sonny.Float.{is_nan, clamp, to_le_bytes, is_infinite}
use sonny.Vectors.{write_to}
use sonny.Prelude.{value_or, ap, sym, ◌∙◌}
use sonny.Text.{codes}
use sonny.RtLoop.{frame, publish}

abbrev limits : Limits
limits = (0xBF80_0000, 0x3F80_0000) ∷ []

ordered : IsOrdered limits
unfolding is_finite le
ordered = pairs-IsOrdered limits ((refl, refl, refl), tt)

abbrev config : RtConfig
config = record {
  joint_count = 1;
  limits = limits;
  expected_interval_us = 10000;
  max_jitter_us = 500;
}

abbrev frame_at : ℕ → Beat
frame_at now = ticked (record {
  sanitize_ns = 300;
  now_ms = now;
  now_ns = now;
  sent = true;
  tx_ns = 20;
  elapsed_us = 90;
  elapsed_ns = 90_000;
})

abbrev look_at : ℕ → Beat
look_at now = looked now now now

-- NaN
abbrev dirty : CommandVector
dirty = from_slice (0x7FC0_0000 ∷ [])

abbrev punctual : List Beat
punctual = look_at 3 ∷ published dirty ∷ frame_at 10 ∷ look_at 20 ∷ frame_at 20 ∷ look_at 21 ∷ []

-- The last frame is at 20, the last look at 31.
abbrev late : List Beat
late = look_at 3 ∷ published dirty ∷ frame_at 10 ∷ look_at 20 ∷ frame_at 20 ∷ look_at 31 ∷ []

abbrev zeros : List ℕ
zeros = 0 ∷ 0 ∷ 0 ∷ 0 ∷ []

abbrev start : RtState
start = start_state config new_slot (record { last_ping_ms = 0 }) new_health

abbrev armed : WatchdogState
armed = record { tripped = false; trips = 0; last_force_at = 0 }

ready : IsReady start
unfolding new_slot
ready = start_state-IsReady config new_slot (record { last_ping_ms = 0 }) new_health tt

is_late : verdict 10 0 false late ≡ true
is_late = refl

live-verdict_example :
    Returns
      (λ out.
        (length out.frames ≡ 2)
        × All (IsSafeBytes limits) out.frames
        × (out.watchdog.tripped ≡ verdict 10 start.heartbeat.last_ping_ms false late)
        × IsTold armed out.watchdog out.messages)
      (live config default_config zeros start armed late)
live-verdict_example =
    live-verdict config default_config zeros ordered start armed late ready
      (from_slice-IsValid (0x7FC0_0000 ∷ []), tt) (omega arith)

live-quiet_example :
    Returns
      (λ out.
        (out.messages ≡ [])
        × (out.watchdog ≡ armed)
        × (run config start (steps_of punctual) ≡ some (out.rt, out.frames)))
      (live config default_config zeros start armed punctual)
unfolding start_state
live-quiet_example =
    live-quiet config default_config zeros ordered start armed punctual ready
      (from_slice-IsValid (0x7FC0_0000 ∷ []), tt) refl
      (omega arith, (omega arith, (omega arith, tt)))

-- What the late schedule leaves.
abbrev ended : Lived
ended =
    value_or (record { rt = start; watchdog = armed; frames = []; messages = [] })
      (live config default_config zeros start armed late)

ends : live config default_config zeros start armed late ≡ some ended
ends =
    live-verdict_example.1
    ∙ ap some (
        sym (
          ap (value_or (record { rt = start; watchdog = armed; frames = []; messages = [] }))
            live-verdict_example.1))

-- The cable is pulled before the stop comes.
abbrev tries : List Attempt
tries = lost (Loop.command 4 zeros ∷ []) ∷ []

abbrev now : List Event
now = Loop.estop (1 ∷ []) ∷ Loop.command 5 zeros ∷ []

run_link-live_example :
    Ends
      (adapter_for comau)
      Sample.config
      (verdict 10 start.heartbeat.last_ping_ms false late)
      (run_link (adapter_for comau) Sample.config link tries now)
unfolding adapter_for comau_pdl2 live frame look monitor_round publish deliver put_message new_slot
    start_state sanitize_and_clamp for_range from_slice is_nan clamp write_to copy_into to_le_bytes
    is_infinite
run_link-live_example =
    run_link-live config default_config zeros ordered start armed late ended comau Sample.config
      link tries now (λ tripped trips timeout. []) 0 (codes "arm") ready
      (from_slice-IsValid (0x7FC0_0000 ∷ []), tt) (omega arith) ends comau_ne_luwu link-IsServing
      refl tt refl
