-- ===== src/Health.antt =====
-- src/diagnostics/atomic_health.rs: the probe that every thread writes and the command line reads.
-- An `AtomicU64` is a number below 2 ^ 64; `fetch_add` wraps. One call is one step here: the relaxed
-- order of the stores of one call is not modelled. The clock is an argument, in nanoseconds.
pub mod Metrics
pub mod Line
mod Tests
use sonny.Prelude.{
  ℕ, ◌+◌, ◌-◌, ◌/◌, ◌%◌, ◌^◌, Option, none, some, List, [], ◌∷◌, max, ◌==◌, if◌then◌else◌,
}

abbrev pub wrap64 : ℕ → ℕ
wrap64 n = n % 2 ^ 64

pub record CycleMetric : Type 0 where
  pub last_ns : ℕ
  pub max_ns : ℕ
  pub total_ns : ℕ
  pub count : ℕ

pub record CycleSnapshot : Type 0 where
  pub last_ns : ℕ
  pub max_ns : ℕ
  pub avg_ns : ℕ
  pub count : ℕ

unfoldable pub new_metric : CycleMetric
new_metric = record { last_ns = 0; max_ns = 0; total_ns = 0; count = 0 }

-- `CycleMetric::record`
unfoldable pub record_ns : CycleMetric → ℕ → CycleMetric
record_ns m duration_ns = record {
  last_ns = duration_ns;
  max_ns = max m.max_ns duration_ns;
  total_ns = wrap64 (m.total_ns + duration_ns);
  count = wrap64 (m.count + 1);
}

unfoldable pub snapshot_metric : CycleMetric → CycleSnapshot
snapshot_metric m = record {
  last_ns = m.last_ns;
  max_ns = m.max_ns;
  avg_ns = if m.count == 0 then 0 else m.total_ns / m.count;
  count = m.count;
}

pub record ThreadBeat : Type 0 where
  pub last_beat_unix_ns : ℕ

unfoldable pub new_beat : ThreadBeat
new_beat = record { last_beat_unix_ns = 0 }

unfoldable pub ping_beat : ℕ → ThreadBeat → ThreadBeat
ping_beat now_ns b = record { last_beat_unix_ns = now_ns }

-- `none` if never beaten; a clock that went back gives age 0.
unfoldable pub beat_age_ms : ℕ → ThreadBeat → Option ℕ
beat_age_ms now_ns b =
    if b.last_beat_unix_ns == 0 then none else some ((now_ns - b.last_beat_unix_ns) / 1_000_000)

pub record AtomicHealth : Type 0 where
  pub sanitizer_cycle : CycleMetric
  pub wasm_cycle : CycleMetric
  pub rt_frame : CycleMetric
  pub zenoh_tx_latency : CycleMetric
  pub zenoh_rx_frames : ℕ
  pub zenoh_tx_errors : ℕ
  pub rt_thread_beat : ThreadBeat
  pub wasm_thread_beat : ThreadBeat

pub record HealthSnapshot : Type 0 where
  pub sanitizer : CycleSnapshot
  pub wasm : CycleSnapshot
  pub rt_frame : CycleSnapshot
  pub zenoh_tx : CycleSnapshot
  pub zenoh_rx_frames : ℕ
  pub zenoh_tx_errors : ℕ
  pub rt_age_ms : Option ℕ
  pub wasm_age_ms : Option ℕ

unfoldable pub new_health : AtomicHealth
unfolding new_metric new_beat
new_health = record {
  sanitizer_cycle = new_metric;
  wasm_cycle = new_metric;
  rt_frame = new_metric;
  zenoh_tx_latency = new_metric;
  zenoh_rx_frames = 0;
  zenoh_tx_errors = 0;
  rt_thread_beat = new_beat;
  wasm_thread_beat = new_beat;
}

unfoldable pub snapshot : ℕ → AtomicHealth → HealthSnapshot
unfolding snapshot_metric beat_age_ms
snapshot now_ns h = record {
  sanitizer = snapshot_metric h.sanitizer_cycle;
  wasm = snapshot_metric h.wasm_cycle;
  rt_frame = snapshot_metric h.rt_frame;
  zenoh_tx = snapshot_metric h.zenoh_tx_latency;
  zenoh_rx_frames = h.zenoh_rx_frames;
  zenoh_tx_errors = h.zenoh_tx_errors;
  rt_age_ms = beat_age_ms now_ns h.rt_thread_beat;
  wasm_age_ms = beat_age_ms now_ns h.wasm_thread_beat;
}

-- A thread's samples, one after the other.
unfoldable pub record_all : CycleMetric → List ℕ → CycleMetric
record_all m [] = m
record_all m (d ∷ ds) = record_all (record_ns m d) ds
