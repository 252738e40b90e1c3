-- ===== src/Vectors/Tests.antt =====
-- A vector of two joints over the bus.
use sonny.Prelude.{◌≡◌, [], ◌∷◌, take, replicate, arith, Returns, All, All-replicate}
use sonny.Vectors.{CommandVector, from_slice, from_bytes, as_slice, write_to}
use sonny.Vectors.Valid.{from_slice-IsValid}
use sonny.Vectors.Codec.{from_bytes-write_to, IsWord}

abbrev vector : CommandVector
vector = from_slice (0x3F80_0000 ∷ 0xC020_0000 ∷ [])

words : All IsWord vector.target_actuators
unfolding from_slice
words = (omega arith, (omega arith, All-replicate IsWord 30 0 (omega arith)))

from_bytes-write_to_example :
    Returns
      (λ r. as_slice (from_bytes (take r.1 r.0)) ≡ as_slice vector)
      (write_to vector (replicate 128 0))
from_bytes-write_to_example =
    from_bytes-write_to vector (replicate 128 0)
      (from_slice-IsValid (0x3F80_0000 ∷ 0xC020_0000 ∷ [])) words (omega arith)
