-- ===== src/Kinematics/Tests.antt =====
-- The rotation by the identity, the basis, and a quaternion that is too short to invert.
use sonny.Prelude.{◌≡◌, refl, [], ◌∷◌}
use sonny.Float.{arithmetic, lt}
use sonny.Kinematics.{
  vector, zero_vector, one, two, cross, normalized, to_array, identity_quaternion, quaternion,
  rotate_vector, inverse, mul_quaternion,
}

-- [1, 2, 3]
unrotated :
    to_array (rotate_vector identity_quaternion (vector one two 0x4040_0000))
    ≡ one ∷ two ∷ 0x4040_0000 ∷ []
unfolding rotate_vector to_array arithmetic
unrotated = refl

-- i × j = k
basis : to_array (cross (vector one 0 0) (vector 0 one 0)) ≡ 0 ∷ 0 ∷ one ∷ []
unfolding cross to_array arithmetic
basis = refl

-- [3, 0, 4], whose length is 5, and a vector that is too short for a direction
direction :
    to_array (normalized (vector 0x4040_0000 0 0x4080_0000)) ≡ 0x3F19_999A ∷ 0 ∷ 0x3F4C_CCCD ∷ []
unfolding normalized to_array arithmetic lt
direction = refl

no_direction : normalized (vector 0x3400_0000 0 0) ≡ zero_vector
unfolding normalized arithmetic lt
no_direction = refl

-- 0.0005 has a direction for `normalized`, and no inverse.
no_inverse : inverse (quaternion 0x3A03_126F 0 0 0) ≡ identity_quaternion
unfolding inverse arithmetic lt
no_inverse = refl

-- i * j = k
units_multiply : mul_quaternion (quaternion 0 one 0 0) (quaternion 0 0 one 0) ≡ quaternion 0 0 0 one
unfolding mul_quaternion arithmetic
units_multiply = refl
