-- ===== src/RtLoop.antt =====
-- src/diagnostics/frequency_enforcer.rs: the jitter report, the register of the latest command, and
-- the frames of the real-time loop. The register here is the value that its pointer leads to;
-- the pointer, and threads that come between each other, are in RtLoop/Boxes. The clocks and the outcome of the `put` are
-- arguments of a frame; `none` is a panic.
pub mod Frames
pub mod Boxes
pub mod Monitor
mod Tests
use sonny.Prelude.{
  ℕ, ◌+◌, ◌-◌, ◌*◌, ◌/◌, Bool, List, [], ◌∷◌, Option, none, some, ◌>>=◌, if◌then◌else◌, ltb, ◌==◌,
  take, replicate,
}
use sonny.Vectors.{CommandVector, zeros, write_to}
use sonny.Limits.{Limits}
use sonny.Health.{AtomicHealth, wrap64, record_ns, ping_beat}
use sonny.Sanitizer.{VectorSanitizer, new_sanitizer, sanitize_and_clamp}
use sonny.Watchdog.{Heartbeat, ping}

pub record JitterReport : Type 0 where
  pub expected_us : ℕ
  pub measured_us : ℕ
  pub diff_us : ℕ

-- The product is that of `u64`.
unfoldable pub deviation_pct : JitterReport → ℕ
deviation_pct r = if r.expected_us == 0 then 0 else wrap64 (r.diff_us * 100) / r.expected_us

-- `a.abs_diff(b)`
abbrev pub abs_diff : ℕ → ℕ → ℕ
abs_diff a b = (a - b) + (b - a)

unfoldable pub compute_jitter :
    (expected_interval_us max_jitter_us elapsed_us : ℕ) → Option JitterReport
compute_jitter expected_interval_us max_jitter_us elapsed_us =
    let diff_us = abs_diff elapsed_us expected_interval_us in
    if ltb max_jitter_us diff_us
    then some
        (record { expected_us = expected_interval_us; measured_us = elapsed_us; diff_us = diff_us })
    else none

-- The register: empty, or the box of a command.
pub record LatestCommand : Type 0 where
  pub slot : Option CommandVector

unfoldable pub new_slot : LatestCommand
new_slot = record { slot = none }

unfoldable pub publish : LatestCommand → CommandVector → LatestCommand
publish b cmd = record { slot = some cmd }

unfoldable pub take_or : LatestCommand → CommandVector → LatestCommand × CommandVector
take_or b fallback = (record { slot = none }, elim b.slot [ none ↦ fallback | some cmd ↦ cmd ])

unfoldable pub take_slot : LatestCommand → LatestCommand × Option CommandVector
take_slot b = (record { slot = none }, b.slot)

-- The fields of `RealTimeControlLoop` that the frames read.
pub record RtConfig : Type 0 where
  pub joint_count : ℕ
  pub limits : Limits
  pub expected_interval_us : ℕ
  pub max_jitter_us : ℕ

-- What the frames change: the loop's own state and what it shares.
pub record RtState : Type 0 where
  pub buffer : LatestCommand
  pub sanitizer : VectorSanitizer
  pub last_valid : CommandVector
  pub heartbeat : Heartbeat
  pub health : AtomicHealth

-- What one frame reads.
pub record Tick : Type 0 where
  pub sanitize_ns : ℕ
  pub now_ms : ℕ
  pub now_ns : ℕ
  pub sent : Bool
  pub tx_ns : ℕ
  pub elapsed_us : ℕ
  pub elapsed_ns : ℕ

unfoldable pub start_state : RtConfig → LatestCommand → Heartbeat → AtomicHealth → RtState
unfolding new_sanitizer zeros
start_state c buffer heartbeat health = record {
  buffer = buffer;
  sanitizer = new_sanitizer;
  last_valid = zeros c.joint_count;
  heartbeat = heartbeat;
  health = health;
}

-- The health probe after a frame.
unfoldable pub sample : Tick → AtomicHealth → AtomicHealth
unfolding record_ns ping_beat
sample t h = record h {
  rt_thread_beat = ping_beat t.now_ns h.rt_thread_beat;
  zenoh_tx_errors = if t.sent then h.zenoh_tx_errors else wrap64 (h.zenoh_tx_errors + 1);
  zenoh_tx_latency = record_ns h.zenoh_tx_latency t.tx_ns;
  rt_frame = record_ns h.rt_frame t.elapsed_ns;
}

-- A frame: the state after it, the bytes published, and the jitter report.
unfoldable pub frame : RtConfig → RtState → Tick → Option (RtState × List ℕ × Option JitterReport)
unfolding take_or ping sample compute_jitter
frame c s t = do
  let taken = take_or s.buffer s.last_valid
  clean ← sanitize_and_clamp t.sanitize_ns s.sanitizer taken.1 c.limits s.health.sanitizer_cycle
  out ← write_to clean.1 (replicate 128 0)
  some (
    record {
      buffer = taken.0;
      sanitizer = clean.0;
      last_valid = clean.1;
      heartbeat = ping t.now_ms s.heartbeat;
      health = sample t (record s.health { sanitizer_cycle = clean.2 });
    },
    take out.1 out.0,
    compute_jitter c.expected_interval_us c.max_jitter_us t.elapsed_us,
  )

-- The producer's publications and the loop's frames, in the order in which they happen.
pub data Step : Type 0 where
  published : CommandVector → Step
  ticked : Tick → Step

unfoldable pub run : RtConfig → RtState → List Step → Option (RtState × List (List ℕ))
unfolding frame publish
run c s [] = some (s, [])
run c s (published cmd ∷ steps) = run c (record s { buffer = publish s.buffer cmd }) steps
run c s (ticked t ∷ steps) = do
  out ← frame c s t
  rest ← run c out.0 steps
  some (rest.0, out.1 ∷ rest.1)
