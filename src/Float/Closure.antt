-- ===== src/Float/Closure.antt =====
-- Which operations keep NaN out.
use sonny.Prelude.{
  ℕ, ◌≡◌, refl, ◌≢◌, ◌⊎◌, ◌+◌, ◌*◌, ◌^◌, ◌≤◌, Bool-cases, inl, inr, ltb, ◌==◌, Bool, true, false,
  arith,
}
use sonny.Float.Format.{f32, is_nan, lt, is_finite, is_infinite, mag, is_neg, neg, le, fmin}
use sonny.Float.Arith.{
  units, sqrt_floor, round, add_finite, add, sub, mul, div, sqrt, signed, differ,
}
use sonny.Float.Order.{
  le-IsNumber_right, IsFinite-IsNumber, is_infinite-IsFinite, neg-IsFinite, IsFinite, IsNumber,
}

round-le : (n d : ℕ) → round f32 n d ≤ 0x7f80_0000
unfolding round
round-le n d = omega arith

signed-IsNumber : (s : Bool) (m : ℕ) → m ≤ 0x7f80_0000 → IsNumber (signed f32 s m)
unfolding is_nan
signed-IsNumber true m h = ground arith
signed-IsNumber false m h = ground arith

zero-IsNumber : IsNumber 0
unfolding is_nan
zero-IsNumber = refl

add_finite-IsNumber : (a b : ℕ) → IsNumber (add_finite f32 a b)
unfolding add_finite
add_finite-IsNumber a b = elim (Bool-cases (differ f32 a b)) [
  | inl d ↦ rw d (elim (Bool-cases (units f32 a == units f32 b)) [
    | inl e ↦ rw e zero-IsNumber
    | inr e ↦ rw e (elim (Bool-cases (ltb (units f32 b) (units f32 a))) [
      | inl l ↦ rw l (signed-IsNumber (is_neg f32 a) _ (round-le _ 1))
      | inr l ↦ rw l (signed-IsNumber (is_neg f32 b) _ (round-le _ 1))
    ])
  ])
  | inr d ↦ rw d (signed-IsNumber (is_neg f32 a) _ (round-le _ 1))
]

-- A finite number added to one that is not NaN: ∞ - ∞ cannot occur.
pub add-IsNumber : (a b : ℕ) → IsNumber a → IsFinite b → IsNumber (add f32 a b)
unfolding add is_nan is_finite is_infinite
add-IsNumber a b h k = ground (arith, add_finite-IsNumber a b)

pub add-IsNumber_left : (a b : ℕ) → IsFinite a → IsNumber b → IsNumber (add f32 a b)
unfolding add is_nan is_finite is_infinite
add-IsNumber_left a b h k = ground (arith, add_finite-IsNumber a b)

pub sub-IsNumber : (a b : ℕ) → IsNumber a → IsFinite b → IsNumber (sub f32 a b)
unfolding sub
sub-IsNumber a b h k = add-IsNumber a (neg f32 b) h (neg-IsFinite b k)

pub mul-IsNumber : (a b : ℕ) → IsFinite a → IsFinite b → IsNumber (mul f32 a b)
unfolding mul
mul-IsNumber a b h k =
    rw
      (
        IsFinite-IsNumber a h,
        IsFinite-IsNumber b k,
        is_infinite-IsFinite a h,
        is_infinite-IsFinite b k,
      )
      (signed-IsNumber (differ f32 a b) _ (round-le _ _))

-- A number divided by a finite one that is not a zero.
pub div-IsNumber : (a b : ℕ) → IsNumber a → IsFinite b → mag f32 b ≢ 0 → IsNumber (div f32 a b)
unfolding div
div-IsNumber a b h k n =
    rw (h, IsFinite-IsNumber b k, is_infinite-IsFinite b k)
      (elim (Bool-cases (is_infinite f32 a)) [
        | inl i ↦ rw i (signed-IsNumber (differ f32 a b) f32.inf (omega arith))
        | inr i ↦ rw (i, not_zero) (signed-IsNumber (differ f32 a b) _ (round-le _ _))
      ])
  where
    not_zero : (mag f32 b == 0) ≡ false
    not_zero = ground arith

min_number :
    (a b : ℕ)
    → IsNumber a
    → le f32 0 a ≡ true
    → (is_nan f32 b ≡ true) ⊎ (le f32 0 b ≡ true)
    → le f32 0 (fmin f32 a b) ≡ true
unfolding is_nan fmin le
min_number a b n h k = ground arith

le_zero_of_le_inf : (x : ℕ) → x ≤ 0x7f80_0000 → le f32 0 x ≡ true
unfolding le
le_zero_of_le_inf x h = ground arith

le_zero_of_positive :
    (x : ℕ) → is_nan f32 x ≡ false → (mag f32 x ≡ 0) ⊎ (is_neg f32 x ≡ false) → le f32 0 x ≡ true
unfolding le is_nan
le_zero_of_positive x h k = ground arith

-- A root is not negative, where it is a number.
sqrt_cases : (a : ℕ) → (is_nan f32 (sqrt f32 a) ≡ true) ⊎ (le f32 0 (sqrt f32 a) ≡ true)
unfolding sqrt is_nan
sqrt_cases a = ground (
  arith,
  le_zero_of_positive a,
  le_zero_of_le_inf (sqrt f32 a),
  round-le (2 * sqrt_floor 5000 (units f32 a * 2 ^ 149) + 0) 2,
  round-le (2 * sqrt_floor 5000 (units f32 a * 2 ^ 149) + 1) 2,
)

-- The smaller of a limit and a root is a limit again.
pub fmin-sqrt_nonneg : (a b : ℕ) → le f32 0 a ≡ true → le f32 0 (fmin f32 a (sqrt f32 b)) ≡ true
fmin-sqrt_nonneg a b h = min_number a (sqrt f32 b) (le-IsNumber_right 0 a h) h (sqrt_cases b)

pub fmin-le : (a b : ℕ) → IsNumber a → le f32 (fmin f32 a b) a ≡ true
unfolding is_nan fmin le lt
fmin-le a b n = ground arith

-- A product of numbers whose sign bits are clear is not negative.
pub mul_nonneg :
    (a b : ℕ)
    → IsFinite a
    → IsFinite b
    → is_neg f32 a ≡ false
    → is_neg f32 b ≡ false
    → le f32 0 (mul f32 a b) ≡ true
unfolding mul
mul_nonneg a b h k na nb =
    rw
      (
        IsFinite-IsNumber a h,
        IsFinite-IsNumber b k,
        is_infinite-IsFinite a h,
        is_infinite-IsFinite b k,
        na,
        nb,
      )
      (le_zero_of_le_inf _ (round-le _ _))
