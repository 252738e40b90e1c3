-- ===== src/Xgo/Degrees.antt =====
-- The angles that the bytes of the motors stand for, in exact numbers.
use mathlib.Core.Bool.{false≢true}
use sonny.Prelude.{
  ℕ, zero, suc, ◌+◌, ◌-◌, ◌*◌, ◌/◌, ◌^◌, ◌%◌, ◌<◌, ◌≡◌, refl, ap, ◌∙◌, Bool, true, ◌&&◌,
  if◌then◌else◌, leb, arith, Bool-cases, inl, inr, lt_or_le,
}
use sonny.Float.{F32, f32, is_neg, is_finite, units, arithmetic}
use sonny.Xgo.Uart.{joint_limits_deg, conver2float, deg2rad}

-- The range of a leg's three motors, in degrees: from how far below zero to how far above.
abbrev pub leg_range : ℕ → ℕ × ℕ
leg_range zero = (70, 50)
leg_range (suc zero) = (70, 90)
leg_range (suc (suc _)) = (30, 30)

-- A finite number that is within 8 * 10^-7 of the angle, in radians, that divides the range into 255
-- equal steps, π being 3.14159265, and so within 10^-6 of the exact angle.
abbrev pub is_near : ℕ × ℕ → ℕ → F32 → Bool
is_near (below, above) raw x =
    let one = 255 * 180 * 100_000_000 in
    let up = raw * (below + above) * 314_159_265 * 2 ^ 149 in
    let down = 255 * below * 314_159_265 * 2 ^ 149 in
    let a = (if is_neg f32 x then 0 else units f32 x) * one + down in
    let b = (if is_neg f32 x then units f32 x else 0) * one + up in
    is_finite f32 x && leb ((a - b) + (b - a)) (one / 1_250_000 * 2 ^ 149)

-- The number that the decoder makes of a byte.
abbrev pub decoded : ℕ → ℕ → F32
decoded joint raw = let (lo, hi) = joint_limits_deg joint in deg2rad (conver2float raw lo hi)

abbrev all_below : ℕ → (ℕ → Bool) → Bool
all_below zero p = true
all_below (suc n) p = p n && all_below n p

all_below_lem : (n : ℕ) (p : ℕ → Bool) (raw : ℕ) → all_below n p ≡ true → raw < n → p raw ≡ true
all_below_lem zero p raw h k = absurd (omega (arith, k))
all_below_lem (suc n) p raw h k = elim (lt_or_le n raw) [
  | inl past ↦ absurd (omega (arith, past, k))
  | inr until ↦ elim (Bool-cases (p n)) [
    | inl holds ↦ elim (lt_or_le raw n) [
      | inl before ↦ all_below_lem n p raw (rw holds at h) before
      | inr from ↦ let same : raw ≡ n = omega (arith, until, from) in ap p same ∙ holds
    ]
    | inr fails ↦ absurd (false≢true (rw fails at h))
  ]
]

hips : all_below 256 (λ raw. is_near (70, 50) raw (decoded 0 raw)) ≡ true
unfolding joint_limits_deg conver2float deg2rad arithmetic is_finite
hips = refl

knees : all_below 256 (λ raw. is_near (70, 90) raw (decoded 1 raw)) ≡ true
unfolding joint_limits_deg conver2float deg2rad arithmetic is_finite
knees = refl

feet : all_below 256 (λ raw. is_near (30, 30) raw (decoded 2 raw)) ≡ true
unfolding joint_limits_deg conver2float deg2rad arithmetic is_finite
feet = refl

leg : (j raw : ℕ) → j < 3 → raw < 256 → is_near (leg_range j) raw (decoded j raw) ≡ true
leg zero raw h k = all_below_lem 256 (λ raw. is_near (70, 50) raw (decoded 0 raw)) raw hips k
leg (suc zero) raw h k = all_below_lem 256 (λ raw. is_near (70, 90) raw (decoded 1 raw)) raw knees k
leg (suc (suc zero)) raw h k =
    all_below_lem 256 (λ raw. is_near (30, 30) raw (decoded 2 raw)) raw feet k
leg (suc (suc (suc j))) raw h k = absurd (omega (arith, h))

pub joint_limits_deg-mod : (joint : ℕ) → joint_limits_deg joint ≡ joint_limits_deg (joint % 3)
unfolding joint_limits_deg
joint_limits_deg-mod joint = let same : joint % 3 % 3 ≡ joint % 3 = omega arith in rw same refl

-- The decoder's number for a byte is near the angle that the byte stands for.
pub decoded-near :
    (joint raw : ℕ) → raw < 256 → is_near (leg_range (joint % 3)) raw (decoded joint raw) ≡ true
decoded-near joint raw h = rw (joint_limits_deg-mod joint) (leg (joint % 3) raw (omega arith) h)
