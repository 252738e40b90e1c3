-- ===== src/Limits.antt =====
-- The joint limits of src/io_bridge/vector_sanitizer.rs and src/io_bridge/jerk_limiter.rs, slices of
-- pairs (min, max), and the clamp of a value to the limits of its joint, if it has any. `none` is the
-- panic of `clamp` at a pair that is not ordered.
use mathlib.Core.Option.{none-ne-some, some-injective}
use sonny.Prelude.{
  ℕ, zero, suc, [], ◌∷◌, All, subst, ◌≡◌, true, List, Option, none, some, Option-cases, inl, inr,
  get_elem?,
}
use sonny.Float.{
  F32, f32, clamp, clamp_in, le, IsFinite, IsNumber, Within, IsFinite-IsNumber, clamp_in-Within,
  clamp_in_id, Within-IsFinite,
}

abbrev pub Limits : Type 0
Limits = List (F32 × F32)

-- `if let Some((min, max)) = limits.get(i) { v = v.clamp(*min, *max); }`
abbrev pub clamp_at : Limits → ℕ → F32 → Option F32
clamp_at limits i v = elim (get_elem? limits i) [
  | none ↦ some v
  | some (lo, hi) ↦ clamp f32 v lo hi
]

-- Limits as a configuration should have them: finite, and no minimum above its maximum.
abbrev pub IsOrdered : Limits → Type 0
IsOrdered limits =
    (i : ℕ) (lo hi : F32)
    → get_elem? limits i ≡ some (lo, hi)
    → IsFinite lo × IsFinite hi × (le f32 lo hi ≡ true)

-- A joint whose limits are set keeps to them.
abbrev pub InLimits : Limits → ℕ → F32 → Type 0
InLimits limits i v = (lo hi : F32) → get_elem? limits i ≡ some (lo, hi) → Within lo hi v

-- The value of `clamp_at` where it does not panic.
abbrev pub clamped : Limits → ℕ → F32 → F32
clamped limits i v = elim (get_elem? limits i) [ none ↦ v | some (lo, hi) ↦ clamp_in f32 v lo hi ]

module _ (limits : Limits) (i : ℕ) (v : F32) where
  pub clamp_at-IsOrdered : IsOrdered limits → clamp_at limits i v ≡ some (clamped limits i v)
  unfolding clamp
  clamp_at-IsOrdered o = elim (Option-cases (get_elem? limits i)) [
    | inl e ↦ rw (e, clamp_at, clamped)
    | inr ((lo, hi), e) ↦ rw (e, clamp_at, clamped, (o i lo hi e).2)
  ]

  pub clamped-InLimits : IsOrdered limits → IsNumber v → InLimits limits i (clamped limits i v)
  clamped-InLimits o h lo hi e = rw (e, clamped) (clamp_in-Within v lo hi h (o i lo hi e).2)

  pub clamped-IsFinite : IsOrdered limits → IsFinite v → IsFinite (clamped limits i v)
  clamped-IsFinite o h = elim (Option-cases (get_elem? limits i)) [
    | inl e ↦ rw (e, clamped) h
    | inr ((lo, hi), e) ↦
        let (l, r, le) = o i lo hi e in
        rw (e, clamped)
          (Within-IsFinite lo hi _ l r (clamp_in-Within v lo hi (IsFinite-IsNumber v h) le))
  ]

  -- A joint with limits gets a finite value also from an infinite one.
  pub clamped-IsFinite_limited :
      (lo hi : F32)
      → get_elem? limits i ≡ some (lo, hi)
      → IsOrdered limits
      → IsNumber v
      → IsFinite (clamped limits i v)
  clamped-IsFinite_limited lo hi e o h =
      let (l, r, le) = o i lo hi e in
      rw (e, clamped) (Within-IsFinite lo hi _ l r (clamp_in-Within v lo hi h le))

  -- A value in its limits is not changed.
  pub clamped_id : InLimits limits i v → clamped limits i v ≡ v
  clamped_id w = elim (Option-cases (get_elem? limits i)) [
    | inl e ↦ rw (e, clamp_at, clamped)
    | inr ((lo, hi), e) ↦ rw (e, clamped) (clamp_in_id v lo hi (w lo hi e))
  ]

-- Limits whose pairs are each finite and ordered.
abbrev pub IsPair : F32 × F32 → Type 0
IsPair (lo, hi) = IsFinite lo × IsFinite hi × (le f32 lo hi ≡ true)

pub pairs-IsOrdered : (limits : Limits) → All IsPair limits → IsOrdered limits
pairs-IsOrdered [] h i lo hi e = absurd (none-ne-some (lo, hi) e)
pairs-IsOrdered (p ∷ limits) (h, hs) zero lo hi e = subst IsPair (some-injective p (lo, hi) e) h
pairs-IsOrdered (p ∷ limits) (h, hs) (suc i) lo hi e = pairs-IsOrdered limits hs i lo hi e
