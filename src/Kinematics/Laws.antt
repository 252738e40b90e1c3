-- ===== src/Kinematics/Laws.antt =====
-- Laws that survive rounding, and the quaternions that have an inverse.
use sonny.Prelude.{◌*◌, ◌≡◌, refl, Bool, true, false, ◌||◌, ◌==◌, arith}
use sonny.Vectors.Codec.{IsWord}
use sonny.Float.{F32, f32, mul, neg, is_nan, is_infinite, mag, units, differ}
use sonny.Kinematics.{Vector3, sum_of_products, dot, Quaternion, conjugate}

differ_comm : (a b : F32) → differ f32 a b ≡ differ f32 b a
differ_comm a b = ground arith

or_comm : (a b : Bool) → (a || b) ≡ (b || a)
or_comm true true = refl
or_comm true false = refl
or_comm false true = refl
or_comm false false = refl

-- A product rounds the same in both orders.
pub mul_comm : (a b : F32) → mul f32 a b ≡ mul f32 b a
unfolding mul
mul_comm a b =
    let product : units f32 a * units f32 b ≡ units f32 b * units f32 a = grind arith in
    rw
      (
        or_comm (is_nan f32 a) (is_nan f32 b),
        or_comm (is_infinite f32 a) (is_infinite f32 b),
        or_comm (mag f32 a == 0) (mag f32 b == 0),
        differ_comm a b,
        product,
      )
      refl

pub dot_comm : (v w : Vector3) → dot v w ≡ dot w v
unfolding dot sum_of_products
dot_comm v w = rw (mul_comm v.x w.x, mul_comm v.y w.y, mul_comm v.z w.z) refl

pub neg-neg : (x : F32) → IsWord x → neg f32 (neg f32 x) ≡ x
unfolding neg
neg-neg x h = ground (arith, h)

-- The conjugate of the conjugate is the quaternion, bit for bit, and both have one norm.
pub conjugate-conjugate :
    (q : Quaternion) → IsWord q.x → IsWord q.y → IsWord q.z → conjugate (conjugate q) ≡ q
unfolding conjugate
conjugate-conjugate q hx hy hz = rw (neg-neg q.x hx, neg-neg q.y hy, neg-neg q.z hz) refl
