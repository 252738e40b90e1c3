-- ===== src/Sanitizer/Tests.antt =====
-- A command with a NaN and a value above its limit, for the sanitizer.
use sonny.Prelude.{◌≡◌, refl, true, [], ◌∷◌, some, ◌>>=◌, for_range, arith, get_or, take, Returns}
use sonny.Float.{le, is_finite, is_nan, is_infinite, lt, clamp, IsFinite}
use sonny.Vectors.{CommandVector, from_slice, IsValid}
use sonny.Vectors.Valid.{from_slice-IsValid}
use sonny.Health.{new_metric, record_ns}
use sonny.Limits.{Limits, IsOrdered, pairs-IsOrdered, InLimits}
use sonny.Sanitizer.{new_sanitizer, is_illegal, sanitize_and_clamp}
use sonny.Sanitizer.Outcome.{IsReady, new_sanitizer-IsReady}
use sonny.Sanitizer.Safety.{IsSafe, sanitize_and_clamp-IsSafe, sanitize_and_clamp_values}

-- [-1, 1] for two joints.
abbrev limits : Limits
limits = (0xBF80_0000, 0x3F80_0000) ∷ (0xBF80_0000, 0x3F80_0000) ∷ []

ordered : IsOrdered limits
unfolding is_finite le
ordered = pairs-IsOrdered limits ((refl, refl, refl), ((refl, refl, refl), tt))

-- NaN, and 5.0.
abbrev dirty : CommandVector
dirty = from_slice (0x7FC0_0000 ∷ 0x40A0_0000 ∷ [])

-- The two joints come out as 0.0 and 1.0.
cleaned :
    (do
      out ← sanitize_and_clamp 0 new_sanitizer dirty limits new_metric
      some (take 2 out.1.target_actuators))
    ≡ some (0 ∷ 0x3F80_0000 ∷ [])
unfolding sanitize_and_clamp new_sanitizer from_slice le is_nan is_infinite lt clamp record_ns
    new_metric for_range
cleaned = refl

sanitize_and_clamp-IsSafe_example :
    Returns
      (λ out. IsSafe limits out.1 × IsValid out.1 × (out.1.len ≡ dirty.len) × IsReady out.0)
      (sanitize_and_clamp 3 new_sanitizer dirty limits new_metric)
sanitize_and_clamp-IsSafe_example =
    sanitize_and_clamp-IsSafe 3 new_sanitizer dirty limits new_metric ordered new_sanitizer-IsReady
      (from_slice-IsValid (0x7FC0_0000 ∷ 0x40A0_0000 ∷ []))

sanitize_and_clamp_values_example :
    Returns
      (λ out.
        (IsFinite (get_or dirty.target_actuators 0 0)
          → InLimits limits 0 (get_or dirty.target_actuators 0 0)
          → get_or out.1.target_actuators 0 0 ≡ get_or dirty.target_actuators 0 0)
        × (is_illegal (get_or dirty.target_actuators 0 0) ≡ true
            → InLimits limits 0 (get_or new_sanitizer.last_safe 0 0)
            → get_or out.1.target_actuators 0 0 ≡ get_or new_sanitizer.last_safe 0 0)
        × (get_or out.0.last_safe 0 0 ≡ get_or out.1.target_actuators 0 0)
        × (out.2 ≡ record_ns new_metric 3))
      (sanitize_and_clamp 3 new_sanitizer dirty limits new_metric)
unfolding from_slice
sanitize_and_clamp_values_example =
    sanitize_and_clamp_values 3 new_sanitizer dirty limits new_metric 0 ordered
      new_sanitizer-IsReady (from_slice-IsValid (0x7FC0_0000 ∷ 0x40A0_0000 ∷ [])) (omega arith)
