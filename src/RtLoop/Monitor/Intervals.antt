-- ===== src/RtLoop/Monitor/Intervals.antt =====
-- The monitor against its description: one look at each interval between two arrivals.
use sonny.Prelude.{
  ltb, if◌then◌else◌, Bool-cases, inl, inr, ℕ, ◌+◌, ◌-◌, ◌*◌, ◌/◌, ◌^◌, ◌<◌, ◌≤◌, ◌≡◌, ap, List, [],
  ◌∷◌, ◌++◌, none, some, length, arith,
}
use sonny.Health.{wrap64}
use sonny.RtLoop.{JitterReport, RtConfig, compute_jitter}
use sonny.RtLoop.Monitor.{FrequencyEnforcer, analyze_interval, to_list, start_monitoring, period_ms}

-- The intervals between two arrivals, in microseconds.
abbrev pub intervals : List ℕ → List ℕ
intervals [] = []
intervals (a ∷ []) = []
intervals (a ∷ b ∷ rest) = wrap64 ((b - a) / 1000) ∷ intervals (b ∷ rest)

-- An interval is reported if it is longer or shorter than expected by more than the tolerance, with what
-- it lacks or exceeds.
abbrev pub outside : FrequencyEnforcer → ℕ → List JitterReport
outside e d =
    if ltb (e.expected_interval_us + e.max_jitter_us) d
    then record {
      expected_us = e.expected_interval_us;
      measured_us = d;
      diff_us = d - e.expected_interval_us;
    }
      ∷ []
    else if ltb (d + e.max_jitter_us) e.expected_interval_us
    then record {
      expected_us = e.expected_interval_us;
      measured_us = d;
      diff_us = e.expected_interval_us - d;
    }
      ∷ []
    else []

-- The reports on some intervals.
abbrev pub reports : FrequencyEnforcer → List ℕ → List JitterReport
reports e [] = []
reports e (d ∷ ds) = outside e d ++ reports e ds

analyze_interval-outside :
    (e : FrequencyEnforcer) (d : ℕ) → to_list (analyze_interval e d) ≡ outside e d
unfolding analyze_interval compute_jitter
analyze_interval-outside e d =
    elim (Bool-cases (ltb (e.expected_interval_us + e.max_jitter_us) d)) [
      | inl l ↦ ground arith
      | inr l ↦ elim (Bool-cases (ltb (d + e.max_jitter_us) e.expected_interval_us)) [
        | inl m ↦ ground arith
        | inr m ↦ ground arith
      ]
    ]

monitor_from :
    (e : FrequencyEnforcer) (last rx : ℕ) (samples : List ℕ)
    → rx < 2 ^ 64
    → start_monitoring e (some last) rx samples
      ≡ (wrap64 (rx + length samples), reports e (intervals (last ∷ samples)))
unfolding start_monitoring
monitor_from e last rx [] h = ap (λ n. (n, [])) (omega (arith, h))
monitor_from e last rx (now ∷ samples) h =
    let later = monitor_from e now (wrap64 (rx + 1)) samples (omega arith) in
    rw (later, analyze_interval-outside e (wrap64 ((now - last) / 1000)))
      (ap
        (λ n.
          (n, outside e (wrap64 ((now - last) / 1000)) ++ reports e (intervals (now ∷ samples))))
        (omega arith))

-- The monitor counts every arrival, modulo 2^64, and reports, in their order and each once, the intervals
-- between arrivals that are longer or shorter than expected by more than the tolerance, with the
-- difference; the first arrival gives no report.
pub start_monitoring-intervals :
    (e : FrequencyEnforcer) (rx : ℕ) (samples : List ℕ)
    → rx < 2 ^ 64
    → start_monitoring e none rx samples
      ≡ (wrap64 (rx + length samples), reports e (intervals samples))
unfolding start_monitoring
start_monitoring-intervals e rx [] h = ap (λ n. (n, [])) (omega (arith, h))
start_monitoring-intervals e rx (now ∷ samples) h =
    rw (monitor_from e now (wrap64 (rx + 1)) samples (omega arith))
      (ap (λ n. (n, reports e (intervals (now ∷ samples)))) (omega arith))

-- The ticker is never slower than the period that is asked for, if that is a millisecond or more, and
-- less than a millisecond faster.
pub period_ms_bounds :
    (c : RtConfig)
    → 1000 ≤ c.expected_interval_us
    → (period_ms c * 1000 ≤ c.expected_interval_us)
      × (c.expected_interval_us < period_ms c * 1000 + 1000)
unfolding period_ms
period_ms_bounds c h = omega arith
