-- ===== src/System/Pulse.antt =====
-- src/main.rs: the heartbeat that the real-time loop and the watchdog share. The two threads and the
-- producer of the commands come between each other in any order; `main` never stops the watchdog. The
-- clocks of both threads are readings of one clock, in milliseconds.
pub mod Verdict
pub mod Whole
mod Tests
use sonny.Prelude.{ℕ, false, List, [], ◌∷◌, ◌++◌, Option, none, some, ◌>>=◌}
use sonny.Vectors.{CommandVector}
use sonny.RtLoop.{RtConfig, RtState, Tick, frame, publish}
use sonny.Watchdog.{WatchdogConfig, WatchdogState, Message, monitor_round}

-- A command into the register, a frame of the real-time loop, or a look of the watchdog.
pub data Beat : Type 0 where
  published : CommandVector → Beat
  ticked : Tick → Beat
  looked : (now_ms checked_at forced_at : ℕ) → Beat

-- The state of both, the frames that were published, and the watchdog's messages.
pub record Lived : Type 0 where
  pub rt : RtState
  pub watchdog : WatchdogState
  pub frames : List (List ℕ)
  pub messages : List Message

module _ (w : WatchdogConfig) (bytes : List ℕ) where
  -- A look of the watchdog, which reads the heartbeat of the loop.
  unfoldable pub look :
      RtState → WatchdogState → (now_ms checked_at forced_at : ℕ) → WatchdogState × List Message
  unfolding monitor_round
  look s t now_ms checked_at forced_at =
      let out = monitor_round w bytes t (record {
        stop = false;
        now_ms = now_ms;
        heartbeat = s.heartbeat;
        checked_at = checked_at;
        forced_at = forced_at;
      }) in
      (out.0, out.1)

module _ (c : RtConfig) (w : WatchdogConfig) (bytes : List ℕ) where
  unfoldable pub live : RtState → WatchdogState → List Beat → Option Lived
  unfolding frame publish look
  live s t [] = some (record { rt = s; watchdog = t; frames = []; messages = [] })
  live s t (published cmd ∷ beats) = live (record s { buffer = publish s.buffer cmd }) t beats
  live s t (ticked tick ∷ beats) = do
    out ← frame c s tick
    rest ← live out.0 t beats
    some (record rest { frames = out.1 ∷ rest.frames })
  live s t (looked now_ms checked_at forced_at ∷ beats) = do
    let out = look w bytes s t now_ms checked_at forced_at
    rest ← live s out.0 beats
    some (record rest { messages = out.1 ++ rest.messages })
