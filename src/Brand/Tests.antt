-- ===== src/Brand/Tests.antt =====
-- Names of manufacturers.
use sonny.Prelude.{◌≡◌, refl, [], ◌∷◌}
use sonny.Brand.{universal_robots, from_manufacturer}

-- "Furuno" is taken for Universal Robots.
furuno : from_manufacturer (70 ∷ 117 ∷ 114 ∷ 117 ∷ 110 ∷ 111 ∷ []) ≡ universal_robots
unfolding from_manufacturer
furuno = refl
