-- ===== src/Kinematics.antt =====
-- src/math_utils/kinematics_math.rs: vectors, matrices and quaternions of f32. `sin` and `cos` are the
-- mathematics library's, and parameters. The operations of `Add`, `Sub` and `Mul` have a name per type.
pub mod Laws
mod Tests
use sonny.Prelude.{ℕ, Bool, List, [], ◌∷◌, if◌then◌else◌}
use sonny.Float.{F32, f32, add, sub, mul, div, sqrt, neg, abs, lt}

-- 1e-6
abbrev pub epsilon : F32
epsilon = 0x3586_37BD

abbrev pub one : F32
one = 0x3F80_0000

abbrev pub two : F32
two = 0x4000_0000

unfoldable pub approx_eq : F32 → F32 → Bool
approx_eq a b = lt f32 (abs f32 (sub f32 a b)) epsilon

pub record Vector3 : Type 0 where
  pub x : F32
  pub y : F32
  pub z : F32

abbrev pub vector : F32 → F32 → F32 → Vector3
vector x y z = record { x = x; y = y; z = z }

abbrev pub zero_vector : Vector3
zero_vector = vector 0 0 0

-- `a * d + b * e + c * f`
unfoldable pub sum_of_products : (a d b e c f : F32) → F32
sum_of_products a d b e c f = add f32 (add f32 (mul f32 a d) (mul f32 b e)) (mul f32 c f)

unfoldable pub dot : Vector3 → Vector3 → F32
unfolding sum_of_products
dot v w = sum_of_products v.x w.x v.y w.y v.z w.z

-- `a * b - c * d`
unfoldable pub minor : (a b c d : F32) → F32
minor a b c d = sub f32 (mul f32 a b) (mul f32 c d)

unfoldable pub cross : Vector3 → Vector3 → Vector3
unfolding minor
cross v w = vector (minor v.y w.z v.z w.y) (minor v.z w.x v.x w.z) (minor v.x w.y v.y w.x)

unfoldable pub norm : Vector3 → F32
unfolding dot
norm v = sqrt f32 (dot v v)

unfoldable pub add_vector : Vector3 → Vector3 → Vector3
add_vector v w = vector (add f32 v.x w.x) (add f32 v.y w.y) (add f32 v.z w.z)

unfoldable pub sub_vector : Vector3 → Vector3 → Vector3
sub_vector v w = vector (sub f32 v.x w.x) (sub f32 v.y w.y) (sub f32 v.z w.z)

unfoldable pub scale_vector : Vector3 → F32 → Vector3
scale_vector v scalar = vector (mul f32 v.x scalar) (mul f32 v.y scalar) (mul f32 v.z scalar)

unfoldable pub normalized : Vector3 → Vector3
unfolding norm scale_vector
normalized v =
    let n = norm v in if lt f32 n epsilon then zero_vector else scale_vector v (div f32 one n)

unfoldable pub to_array : Vector3 → List F32
to_array v = v.x ∷ v.y ∷ v.z ∷ []

-- Three rows.
pub record Matrix3 : Type 0 where
  pub row0 : Vector3
  pub row1 : Vector3
  pub row2 : Vector3

unfoldable pub identity_matrix : Matrix3
identity_matrix = record { row0 = vector one 0 0; row1 = vector 0 one 0; row2 = vector 0 0 one }

module _ (sin cos : F32 → F32) where
  unfoldable pub rotation_x : F32 → Matrix3
  rotation_x angle = record {
    row0 = vector one 0 0;
    row1 = vector 0 (cos angle) (neg f32 (sin angle));
    row2 = vector 0 (sin angle) (cos angle);
  }

  unfoldable pub rotation_y : F32 → Matrix3
  rotation_y angle = record {
    row0 = vector (cos angle) 0 (sin angle);
    row1 = vector 0 one 0;
    row2 = vector (neg f32 (sin angle)) 0 (cos angle);
  }

  unfoldable pub rotation_z : F32 → Matrix3
  rotation_z angle = record {
    row0 = vector (cos angle) (neg f32 (sin angle)) 0;
    row1 = vector (sin angle) (cos angle) 0;
    row2 = vector 0 0 one;
  }

unfoldable pub mul_vector : Matrix3 → Vector3 → Vector3
unfolding dot
mul_vector m v = vector (dot m.row0 v) (dot m.row1 v) (dot m.row2 v)

-- One row of a product.
unfoldable pub mul_row : Vector3 → Matrix3 → Vector3
unfolding sum_of_products
mul_row r b =
    vector (sum_of_products r.x b.row0.x r.y b.row1.x r.z b.row2.x)
      (sum_of_products r.x b.row0.y r.y b.row1.y r.z b.row2.y)
      (sum_of_products r.x b.row0.z r.y b.row1.z r.z b.row2.z)

unfoldable pub mul_matrix : Matrix3 → Matrix3 → Matrix3
unfolding mul_row
mul_matrix a b = record {
  row0 = mul_row a.row0 b;
  row1 = mul_row a.row1 b;
  row2 = mul_row a.row2 b;
}

pub record Quaternion : Type 0 where
  pub w : F32
  pub x : F32
  pub y : F32
  pub z : F32

abbrev pub quaternion : F32 → F32 → F32 → F32 → Quaternion
quaternion w x y z = record { w = w; x = x; y = y; z = z }

abbrev pub identity_quaternion : Quaternion
identity_quaternion = quaternion one 0 0 0

unfoldable pub from_axis_angle : (sin cos : F32 → F32) → Vector3 → F32 → Quaternion
unfolding normalized
from_axis_angle sin cos axis angle =
    let half = mul f32 angle 0x3F00_0000 in
    let s = sin half in
    let a = normalized axis in quaternion (cos half) (mul f32 a.x s) (mul f32 a.y s) (mul f32 a.z s)

-- `1.0 - 2.0 * (a + b)`
abbrev pub diagonal : F32 → F32 → F32
diagonal a b = sub f32 one (mul f32 two (add f32 a b))

unfoldable pub to_matrix : Quaternion → Matrix3
to_matrix q =
    let xx = mul f32 q.x q.x in
    let yy = mul f32 q.y q.y in
    let zz = mul f32 q.z q.z in
    let xy = mul f32 q.x q.y in
    let xz = mul f32 q.x q.z in
    let yz = mul f32 q.y q.z in
    let wx = mul f32 q.w q.x in
    let wy = mul f32 q.w q.y in
    let wz = mul f32 q.w q.z in
    record {
      row0 = vector (diagonal yy zz) (mul f32 two (sub f32 xy wz)) (mul f32 two (add f32 xz wy));
      row1 = vector (mul f32 two (add f32 xy wz)) (diagonal xx zz) (mul f32 two (sub f32 yz wx));
      row2 = vector (mul f32 two (sub f32 xz wy)) (mul f32 two (add f32 yz wx)) (diagonal xx yy);
    }

unfoldable pub rotate_vector : Quaternion → Vector3 → Vector3
unfolding to_matrix mul_vector
rotate_vector q v = mul_vector (to_matrix q) v

unfoldable pub quaternion_norm : Quaternion → F32
unfolding sum_of_products
quaternion_norm q = sqrt f32 (add f32 (sum_of_products q.w q.w q.x q.x q.y q.y) (mul f32 q.z q.z))

unfoldable pub quaternion_normalized : Quaternion → Quaternion
unfolding quaternion_norm
quaternion_normalized q =
    let n = quaternion_norm q in
    if lt f32 n epsilon
    then identity_quaternion
    else quaternion (div f32 q.w n) (div f32 q.x n) (div f32 q.y n) (div f32 q.z n)

unfoldable pub conjugate : Quaternion → Quaternion
conjugate q = quaternion q.w (neg f32 q.x) (neg f32 q.y) (neg f32 q.z)

unfoldable pub inverse : Quaternion → Quaternion
unfolding quaternion_norm conjugate
inverse q =
    let n = quaternion_norm q in
    let n_sq = mul f32 n n in
    let c = conjugate q in
    if lt f32 n_sq epsilon
    then identity_quaternion
    else quaternion (div f32 c.w n_sq) (div f32 c.x n_sq) (div f32 c.y n_sq) (div f32 c.z n_sq)

unfoldable pub mul_quaternion : Quaternion → Quaternion → Quaternion
mul_quaternion p q =
    quaternion
      (sub f32 (sub f32 (sub f32 (mul f32 p.w q.w) (mul f32 p.x q.x)) (mul f32 p.y q.y))
        (mul f32 p.z q.z))
      (sub f32 (add f32 (add f32 (mul f32 p.w q.x) (mul f32 p.x q.w)) (mul f32 p.y q.z))
        (mul f32 p.z q.y))
      (add f32 (add f32 (sub f32 (mul f32 p.w q.y) (mul f32 p.x q.z)) (mul f32 p.y q.w))
        (mul f32 p.z q.x))
      (add f32 (sub f32 (add f32 (mul f32 p.w q.z) (mul f32 p.x q.y)) (mul f32 p.y q.x))
        (mul f32 p.z q.w))
