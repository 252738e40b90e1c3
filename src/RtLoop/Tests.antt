-- ===== src/RtLoop/Tests.antt =====
-- A loop of two joints whose producer misses a tick and publishes a NaN.
use sonny.Prelude.{ℕ, ◌≡◌, refl, true, List, [], ◌∷◌, All, some, length, Returns}
use sonny.Float.{le, is_finite}
use sonny.Health.{new_health}
use sonny.Vectors.{CommandVector, from_slice}
use sonny.Vectors.Valid.{from_slice-IsValid}
use sonny.Limits.{Limits, IsOrdered, pairs-IsOrdered}
use sonny.RtLoop.{
  RtConfig, RtState, Tick, Step, published, ticked, run, start_state, new_slot, compute_jitter,
}
use sonny.RtLoop.Frames.{IsReady, IsSafeBytes, start_state-IsReady, run-IsSafeBytes}

abbrev limits : Limits
limits = (0xBF80_0000, 0x3F80_0000) ∷ (0xBF80_0000, 0x3F80_0000) ∷ []

ordered : IsOrdered limits
unfolding is_finite le
ordered = pairs-IsOrdered limits ((refl, refl, refl), ((refl, refl, refl), tt))

abbrev config : RtConfig
config = record {
  joint_count = 2;
  limits = limits;
  expected_interval_us = 10000;
  max_jitter_us = 500;
}

abbrev tick : ℕ → Tick
tick now = record {
  sanitize_ns = 300;
  now_ms = now;
  now_ns = now;
  sent = true;
  tx_ns = 20;
  elapsed_us = 90;
  elapsed_ns = 90_000;
}

abbrev start : RtState
start = start_state config new_slot (record { last_ping_ms = 0 }) new_health

-- [0.5, NaN]
abbrev dirty : CommandVector
dirty = from_slice (0x3F00_0000 ∷ 0x7FC0_0000 ∷ [])

abbrev steps : List Step
steps = ticked (tick 10) ∷ published dirty ∷ ticked (tick 20) ∷ ticked (tick 30) ∷ []

run-IsSafeBytes_example :
    Returns
      (λ out. IsReady out.0 × (length out.1 ≡ 3) × All (IsSafeBytes limits) out.1)
      (run config start steps)
unfolding new_slot
run-IsSafeBytes_example =
    run-IsSafeBytes config start steps ordered
      (start_state-IsReady config new_slot (record { last_ping_ms = 0 }) new_health tt)
      (from_slice-IsValid (0x3F00_0000 ∷ 0x7FC0_0000 ∷ []), tt)

-- The loop hands over the time that a frame takes, not the distance of two frames, so a frame that is
-- through in 90 us is reported.
fast_frame :
    compute_jitter 10000 500 90
    ≡ some (record { expected_us = 10000; measured_us = 90; diff_us = 9910 })
unfolding compute_jitter
fast_frame = refl
