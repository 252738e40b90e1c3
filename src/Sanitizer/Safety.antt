-- ===== src/Sanitizer/Safety.antt =====
-- What leaves the sanitizer: finite values within the limits, whatever came in.
use native.Mathlib.Decide.{dec_lt}
use sonny.Prelude.{sym, ℕ, ◌<◌, ◌≡◌, ◌∙◌, true, arith, get_or, Returns}
use sonny.Float.{IsFinite, IsFinite-IsNumber}
use sonny.Vectors.{CommandVector, IsValid}
use sonny.Health.{CycleMetric, record_ns}
use sonny.Limits.{Limits, IsOrdered, InLimits, clamped-InLimits, clamped-IsFinite, clamped_id}
use sonny.Sanitizer.{VectorSanitizer, is_illegal, sanitize_and_clamp}
use sonny.Sanitizer.Outcome.{
  IsReady, legal-IsFinite, legal_id, safe_value, SanitizerResult, Outcome,
  sanitize_and_clamp-Outcome,
}

-- A command that may go to the drives: each active joint has a finite value, in its limits if it
-- has any.
pub record IsSafe (limits : Limits) (c : CommandVector) : Type 0 where
  pub finite : (i : ℕ) → i < c.len → IsFinite (get_or c.target_actuators i 0)
  pub limited : (i : ℕ) → i < c.len → InLimits limits i (get_or c.target_actuators i 0)

module _ (limits : Limits) (o : IsOrdered limits) (s : VectorSanitizer) (c : CommandVector) where
  value-IsFinite :
      IsReady s → (i : ℕ) → IsFinite (safe_value limits o c.target_actuators s.last_safe i)
  value-IsFinite r i = clamped-IsFinite limits i _ o (legal-IsFinite _ _ (r.finite i))

  pub Outcome-IsSafe :
      (metric : CycleMetric) (out : SanitizerResult)
      → IsReady s
      → Outcome limits o s c metric out
      → IsSafe limits out.1
  Outcome-IsSafe metric (s', c', m') r (el, em, (ut, ul)) = record {
    finite = λ i h. rw (ut.filled i (omega arith)) (value-IsFinite r i);
    limited = λ i h.
        rw (ut.filled i (omega arith))
          (clamped-InLimits limits i _ o (IsFinite-IsNumber _ (legal-IsFinite _ _ (r.finite i))));
  }

  pub Outcome-IsReady :
      (metric : CycleMetric) (out : SanitizerResult)
      → IsReady s
      → Outcome limits o s c metric out
      → IsReady out.0
  Outcome-IsReady metric (s', c', m') r (el, em, (ut, ul)) = record {
    size = ul.size ∙ r.size;
    finite = λ i. elim (dec_lt i c.len) [
      | yes h ↦ rw (ul.filled i h) (value-IsFinite r i)
      | no h ↦ rw (ul.kept i (omega arith)) (r.finite i)
    ];
  }

-- Whatever the bits of the command are, NaN and infinities included, the sanitizer returns without a
-- panic; each active joint then has a finite value in its limits, the length and the size of the
-- array stay, and the sanitizer is ready for the next call.
pub sanitize_and_clamp-IsSafe :
    (elapsed : ℕ) (s : VectorSanitizer) (c : CommandVector) (limits : Limits) (metric : CycleMetric)
    → IsOrdered limits
    → IsReady s
    → IsValid c
    → Returns
        (λ out. IsSafe limits out.1 × IsValid out.1 × (out.1.len ≡ c.len) × IsReady out.0)
        (sanitize_and_clamp elapsed s c limits metric)
sanitize_and_clamp-IsSafe elapsed s c limits metric o r v =
    let (out, runs, p) = sanitize_and_clamp-Outcome elapsed s c limits metric o r v in
    (
      out,
      runs,
      (
        Outcome-IsSafe limits o s c _ out r p,
        record { array = p.2.0.size ∙ v.array; active = omega arith },
        p.0,
        Outcome-IsReady limits o s c _ out r p,
      ),
    )

-- A joint whose value is finite and in its limits keeps it; one that is NaN or infinite gets the last
-- safe value, if that is in the limits; and what a joint gets is its last safe value from then on.
pub sanitize_and_clamp_values :
    (elapsed : ℕ) (s : VectorSanitizer) (c : CommandVector) (limits : Limits) (metric : CycleMetric)
    (i : ℕ)
    → IsOrdered limits
    → IsReady s
    → IsValid c
    → i < c.len
    → let v = get_or c.target_actuators i 0 in
      let last = get_or s.last_safe i 0 in
      Returns
        (λ out.
          (IsFinite v → InLimits limits i v → get_or out.1.target_actuators i 0 ≡ v)
          × (is_illegal v ≡ true
              → InLimits limits i last
              → get_or out.1.target_actuators i 0 ≡ last)
          × (get_or out.0.last_safe i 0 ≡ get_or out.1.target_actuators i 0)
          × (out.2 ≡ record_ns metric elapsed))
        (sanitize_and_clamp elapsed s c limits metric)
sanitize_and_clamp_values elapsed s c limits metric i o r v h =
    let (out, runs, (el, em, (ut, ul))) =
      sanitize_and_clamp-Outcome elapsed s c limits metric o r v in
    (
      out,
      runs,
      (
        (λ f w.
            ut.filled i h ∙ rw (legal_id _ (get_or s.last_safe i 0) f) (clamped_id limits i _ w)),
        (λ e w. ut.filled i h ∙ rw e (clamped_id limits i _ w)),
        ul.filled i h ∙ sym (ut.filled i h),
        em,
      ),
    )
