-- ===== src/Float/Format.antt =====
-- A binary interchange format, and what the language does with a bit pattern without rounding:
-- classes, comparison, `abs`, negation, `min`, `max`, `clamp`.
use sonny.Prelude.{
  ℕ, ◌+◌, ◌-◌, ◌/◌, ◌%◌, Bool, not, ◌&&◌, Option, none, some, ltb, leb, ◌==◌, if◌then◌else◌,
}

-- `frac` stored fraction bits; `sign` is the weight of the sign bit, `inf` the pattern of +∞, and
-- every finite value is a multiple of 2 ^ -scale.
pub record Format : Type 0 where
  pub frac : ℕ
  pub sign : ℕ
  pub inf : ℕ
  pub scale : ℕ

abbrev pub f32 : Format
f32 = record { frac = 23; sign = 0x8000_0000; inf = 0x7f80_0000; scale = 149 }

abbrev pub f64 : Format
f64 = record { frac = 52; sign = 0x8000_0000_0000_0000; inf = 0x7ff0_0000_0000_0000; scale = 1074 }

-- A bit pattern, `f32::to_bits`.
abbrev pub F32 : Type 0
F32 = ℕ

abbrev pub F64 : Type 0
F64 = ℕ

module _ (f : Format) where
  open f use {sign, inf}

  abbrev pub mag : ℕ → ℕ
  mag x = x % sign

  abbrev pub is_neg : ℕ → Bool
  is_neg x = x / sign % 2 == 1

  unfoldable pub is_nan : ℕ → Bool
  is_nan x = ltb inf (mag x)

  unfoldable pub is_infinite : ℕ → Bool
  is_infinite x = mag x == inf

  unfoldable pub is_finite : ℕ → Bool
  is_finite x = ltb (mag x) inf

  -- Numbers that are not NaN stand in the order of their keys; both zeros have one key.
  abbrev pub key : ℕ → ℕ
  key x = if is_neg x then sign - mag x else sign + mag x

  unfoldable pub lt : ℕ → ℕ → Bool
  unfolding is_nan
  lt a b = (not (is_nan a) && not (is_nan b)) && ltb (key a) (key b)

  unfoldable pub le : ℕ → ℕ → Bool
  unfolding is_nan
  le a b = (not (is_nan a) && not (is_nan b)) && leb (key a) (key b)

  unfoldable pub neg : ℕ → ℕ
  neg x = if is_neg x then mag x else sign + mag x

  unfoldable pub abs : ℕ → ℕ
  abs x = mag x

  -- One NaN argument is ignored.
  unfoldable pub fmin : ℕ → ℕ → ℕ
  unfolding is_nan lt
  fmin a b = if is_nan a then b else if is_nan b then a else if lt b a then b else a

  unfoldable pub fmax : ℕ → ℕ → ℕ
  unfolding is_nan lt
  fmax a b = if is_nan a then b else if is_nan b then a else if lt a b then b else a

  -- The value that `clamp` returns where it does not panic; NaN stays NaN.
  unfoldable pub clamp_in : ℕ → ℕ → ℕ → ℕ
  unfolding lt
  clamp_in v lo hi = let low = if lt v lo then lo else v in if lt hi low then hi else low

  -- `clamp` asserts `min <= max`, which a NaN bound fails too.
  unfoldable pub clamp : ℕ → ℕ → ℕ → Option ℕ
  unfolding le clamp_in
  clamp v lo hi = if le lo hi then some (clamp_in v lo hi) else none
