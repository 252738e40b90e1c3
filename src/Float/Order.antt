-- ===== src/Float/Order.antt =====
-- The order of the numbers that are not NaN, and what `clamp` promises.
use sonny.Prelude.{ℕ, ◌≡◌, true, false, arith, Returns}
use sonny.Float.Format.{f32, is_nan, is_finite, is_infinite, le, neg, abs, clamp_in, clamp}

-- A value in a closed range, which NaN is not.
abbrev pub Within : ℕ → ℕ → ℕ → Type 0
Within lo hi v = (le f32 lo v ≡ true) × (le f32 v hi ≡ true)

abbrev pub IsFinite : ℕ → Type 0
IsFinite x = is_finite f32 x ≡ true

abbrev pub IsNumber : ℕ → Type 0
IsNumber x = is_nan f32 x ≡ false

pub IsFinite-IsNumber : (x : ℕ) → IsFinite x → IsNumber x
unfolding is_nan is_finite
IsFinite-IsNumber x h = ground arith

pub is_infinite-IsFinite : (x : ℕ) → IsFinite x → is_infinite f32 x ≡ false
unfolding is_infinite is_finite
is_infinite-IsFinite x h = ground arith

-- A number that is neither NaN nor infinite is finite.
pub IsFinite_of_classes : (x : ℕ) → is_nan f32 x ≡ false → is_infinite f32 x ≡ false → IsFinite x
unfolding is_nan is_finite is_infinite
IsFinite_of_classes x h k = ground arith

pub le_refl : (x : ℕ) → IsNumber x → le f32 x x ≡ true
unfolding is_nan le
le_refl x h = ground arith

pub le_trans : (x y z : ℕ) → le f32 x y ≡ true → le f32 y z ≡ true → le f32 x z ≡ true
unfolding le
le_trans x y z h k = ground arith

pub Within-IsFinite : (lo hi v : ℕ) → IsFinite lo → IsFinite hi → Within lo hi v → IsFinite v
unfolding is_finite le
Within-IsFinite lo hi v l h w = ground arith

pub le-IsNumber_right : (x y : ℕ) → le f32 x y ≡ true → IsNumber y
unfolding is_nan le
le-IsNumber_right x y h = ground arith

pub le-IsNumber_left : (x y : ℕ) → le f32 x y ≡ true → IsNumber x
unfolding is_nan le
le-IsNumber_left x y h = ground arith

pub Within-IsNumber : (lo hi v : ℕ) → Within lo hi v → IsNumber v
unfolding is_nan le
Within-IsNumber lo hi v w = ground arith

-- `clamp` puts a number between its bounds.
pub clamp_in-Within :
    (v lo hi : ℕ) → IsNumber v → le f32 lo hi ≡ true → Within lo hi (clamp_in f32 v lo hi)
unfolding is_nan le clamp_in
clamp_in-Within v lo hi n h = ground arith

-- It leaves a value in the range as it is.
pub clamp_in_id : (v lo hi : ℕ) → Within lo hi v → clamp_in f32 v lo hi ≡ v
unfolding le clamp_in
clamp_in_id v lo hi w = ground arith

pub clamp_in-nan : (v lo hi : ℕ) → is_nan f32 v ≡ true → clamp_in f32 v lo hi ≡ v
unfolding is_nan clamp_in
clamp_in-nan v lo hi h = ground arith

pub clamp-Returns :
    (v lo hi : ℕ) → IsNumber v → le f32 lo hi ≡ true → Returns (Within lo hi) (clamp f32 v lo hi)
unfolding clamp
clamp-Returns v lo hi n h = (clamp_in f32 v lo hi, rw h, clamp_in-Within v lo hi n h)

pub le-neg_self : (x : ℕ) → le f32 0 x ≡ true → le f32 (neg f32 x) x ≡ true
unfolding le neg
le-neg_self x h = ground arith

pub neg-IsFinite : (x : ℕ) → IsFinite x → IsFinite (neg f32 x)
unfolding is_finite neg
neg-IsFinite x h = ground arith

pub abs_nonneg : (x : ℕ) → IsNumber x → le f32 0 (abs f32 x) ≡ true
unfolding is_nan le abs
abs_nonneg x h = ground arith
