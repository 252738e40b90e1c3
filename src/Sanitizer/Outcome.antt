-- ===== src/Sanitizer/Outcome.antt =====
-- What the loop of the sanitizer makes of every joint.
use sonny.Prelude.{
  ℕ, suc, ◌≤◌, ◌<◌, ◌≡◌, refl, List, some, arith, min, if◌then◌else◌, Bool-cases, inl, inr, length,
  get_or, set, for_range, for_range-Returns, Returns, Updated, Updated-start, Updated-set,
  Updated-read, get_or-replicate,
}
use sonny.Float.{
  is_finite, F32, f32, is_nan, is_infinite, IsFinite, IsFinite-IsNumber, IsFinite_of_classes,
  is_infinite-IsFinite,
}
use sonny.Vectors.{CommandVector, IsValid, max_joints}
use sonny.Health.{CycleMetric, record_ns}
use sonny.Limits.{Limits, IsOrdered, clamped, clamp_at-IsOrdered}
use sonny.Sanitizer.{VectorSanitizer, new_sanitizer, is_illegal, sanitize_joint, sanitize_and_clamp}

-- Between two calls the array of last safe values has 32 slots, all finite.
pub record IsReady (s : VectorSanitizer) : Type 0 where
  pub size : length s.last_safe ≡ max_joints
  pub finite : (i : ℕ) → IsFinite (get_or s.last_safe i 0)

-- `v`, or the last safe value where `v` is NaN or infinite.
abbrev pub legal : F32 → F32 → F32
legal v last = if is_illegal v then last else v

pub legal-IsFinite : (v last : F32) → IsFinite last → IsFinite (legal v last)
legal-IsFinite v last h = elim (Bool-cases (is_nan f32 v)) [
  | inl n ↦ rw n h
  | inr n ↦ elim (Bool-cases (is_infinite f32 v)) [
    | inl i ↦ rw (n, i) h
    | inr i ↦ rw (n, i) (IsFinite_of_classes v n i)
  ]
]

pub legal_id : (v last : F32) → IsFinite v → legal v last ≡ v
legal_id v last h = rw (IsFinite-IsNumber v h, is_infinite-IsFinite v h)

legal_choice : (v last : F32) → (if is_illegal v then some last else some v) ≡ some (legal v last)
legal_choice v last = elim (Bool-cases (is_illegal v)) [ inl e ↦ rw e | inr e ↦ rw e ]

pub new_sanitizer-IsReady : IsReady new_sanitizer
unfolding new_sanitizer is_finite
new_sanitizer-IsReady = record { size = refl; finite = λ i. rw (get_or-replicate 32 i) zero_finite }
  where
    zero_finite : IsFinite 0
    zero_finite = refl

module _ (limits : Limits) (o : IsOrdered limits) (targets last_safe : List F32) where
  -- The value that joint `i` gets.
  abbrev pub safe_value : ℕ → F32
  safe_value i = clamped limits i (legal (get_or targets i 0) (get_or last_safe i 0))

  abbrev Sanitized : ℕ → List F32 × List F32 → Type 0
  Sanitized i (t, l) = Updated 0 targets safe_value i t × Updated 0 last_safe safe_value i l

  sanitize_joint-Sanitized :
      (i : ℕ) (s : List F32 × List F32)
      → i < length targets
      → i < length last_safe
      → Sanitized i s
      → Returns (Sanitized (suc i)) (sanitize_joint limits i s)
  sanitize_joint-Sanitized i (t, l) ht hl (ut, ul) = (
    (set t i (safe_value i), set l i (safe_value i)),
    rw (
      Updated-read 0 targets safe_value i t ht ut,
      Updated-read 0 last_safe safe_value i l hl ul,
      legal_choice (get_or targets i 0) (get_or last_safe i 0),
      clamp_at-IsOrdered limits i _ o,
    ),
    (Updated-set 0 targets safe_value i t ht ut, Updated-set 0 last_safe safe_value i l hl ul),
  )

  sanitize_loop :
      (n : ℕ)
      → n ≤ length targets
      → n ≤ length last_safe
      → Returns (Sanitized n) (for_range n 0 (sanitize_joint limits) (targets, last_safe))
  sanitize_loop n ht hl =
      for_range-Returns Sanitized (sanitize_joint limits) n
        (λ i s b u. sanitize_joint-Sanitized i s (omega arith) (omega arith) u) n 0 n
        (targets, last_safe) (omega arith) (omega arith)
        (Updated-start 0 targets safe_value, Updated-start 0 last_safe safe_value)

-- A call of the sanitizer has returned, and its loop has run over the active joints.
abbrev pub SanitizerResult : Type 0
SanitizerResult = VectorSanitizer × CommandVector × CycleMetric

abbrev pub Outcome :
    (limits : Limits)
    → IsOrdered limits
    → VectorSanitizer
    → CommandVector
    → CycleMetric
    → SanitizerResult
    → Type 0
Outcome limits o s c metric (s', c', m') =
    (c'.len ≡ c.len)
    × (m' ≡ metric)
    × Sanitized limits o c.target_actuators s.last_safe c.len (c'.target_actuators, s'.last_safe)

sanitize_and_clamp_runs :
    (elapsed : ℕ) (s : VectorSanitizer) (c : CommandVector) (limits : Limits) (metric : CycleMetric)
    (out : List F32 × List F32)
    → c.len ≤ max_joints
    → for_range c.len 0 (sanitize_joint limits) (c.target_actuators, s.last_safe) ≡ some out
    → sanitize_and_clamp elapsed s c limits metric
      ≡ some (
        record { last_safe = out.1 },
        record c { target_actuators = out.0 },
        record_ns metric elapsed,
      )
unfolding sanitize_and_clamp
sanitize_and_clamp_runs elapsed s c limits metric out h runs =
    let all : min c.len max_joints ≡ c.len = omega arith in rw (all, runs)

pub sanitize_and_clamp-Outcome :
    (elapsed : ℕ) (s : VectorSanitizer) (c : CommandVector) (limits : Limits) (metric : CycleMetric)
    (o : IsOrdered limits)
    → IsReady s
    → IsValid c
    → Returns
        (Outcome limits o s c (record_ns metric elapsed))
        (sanitize_and_clamp elapsed s c limits metric)
sanitize_and_clamp-Outcome elapsed s c limits metric o r v =
    let (out, runs, done) =
      sanitize_loop limits o c.target_actuators s.last_safe c.len (omega arith) (omega arith) in
    (
      (
        record { last_safe = out.1 },
        record c { target_actuators = out.0 },
        record_ns metric elapsed,
      ),
      sanitize_and_clamp_runs elapsed s c limits metric out v.active runs,
      (refl, refl, done),
    )
