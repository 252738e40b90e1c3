-- ===== src/RtLoop/Monitor.antt =====
-- src/diagnostics/frequency_enforcer.rs: the monitor of the telemetry's rate, and what the real-time
-- loop is made of. The arrivals are readings of the monotonic clock, in nanoseconds; a report is
-- printed, and that is all that comes of it.
pub mod Intervals
mod Tests
use sonny.Prelude.{ℕ, ◌+◌, ◌-◌, ◌/◌, ◌^◌, max, List, [], ◌∷◌, ◌++◌, Option, none, some}
use sonny.Float.{F64, f64, div, of_uint, to_uint}
use sonny.Limits.{Limits}
use sonny.Health.{wrap64}
use sonny.RtLoop.{JitterReport, compute_jitter, RtConfig}

-- 1000.0
unfoldable pub jitter_ms : JitterReport → F64
jitter_ms r = div f64 (of_uint f64 r.diff_us) 0x408F_4000_0000_0000

pub record FrequencyEnforcer : Type 0 where
  pub expected_interval_us : ℕ
  pub max_jitter_us : ℕ

-- `(1_000_000.0 / expected_hz) as u64`
unfoldable pub new_enforcer : (expected_hz : F64) → (max_jitter_us : ℕ) → FrequencyEnforcer
new_enforcer expected_hz max_jitter_us = record {
  expected_interval_us = to_uint f64 (2 ^ 64 - 1) (div f64 0x412E_8480_0000_0000 expected_hz);
  max_jitter_us = max_jitter_us;
}

unfoldable pub analyze_interval : FrequencyEnforcer → ℕ → Option JitterReport
unfolding compute_jitter
analyze_interval e elapsed_us = compute_jitter e.expected_interval_us e.max_jitter_us elapsed_us

abbrev pub to_list : Option JitterReport → List JitterReport
to_list none = []
to_list (some r) = r ∷ []

-- What one sample adds to the reports.
unfoldable pub on_sample : FrequencyEnforcer → (last : Option ℕ) → (now : ℕ) → List JitterReport
unfolding analyze_interval
on_sample e none now = []
on_sample e (some last) now = to_list (analyze_interval e (wrap64 ((now - last) / 1000)))

-- The samples in order: the counter of the probe, and the reports.
unfoldable pub start_monitoring :
    FrequencyEnforcer → (last : Option ℕ) → (rx_frames : ℕ) → List ℕ → ℕ × List JitterReport
unfolding on_sample
start_monitoring e last rx_frames [] = (rx_frames, [])
start_monitoring e last rx_frames (now ∷ samples) =
    let later = start_monitoring e (some now) (wrap64 (rx_frames + 1)) samples in
    (later.0, on_sample e last now ++ later.1)

-- `RealTimeControlLoop::new`, as far as the frames read it.
unfoldable pub new_loop :
    (joint_count : ℕ) → Limits → (expected_hz : F64) → (max_jitter_us : ℕ) → RtConfig
unfolding new_enforcer
new_loop joint_count limits expected_hz max_jitter_us =
    let enforcer = new_enforcer expected_hz max_jitter_us in
    record {
      joint_count = joint_count;
      limits = limits;
      expected_interval_us = enforcer.expected_interval_us;
      max_jitter_us = enforcer.max_jitter_us;
    }

-- The period of the ticker, in whole milliseconds.
unfoldable pub period_ms : RtConfig → ℕ
period_ms c = max (c.expected_interval_us / 1000) 1
