-- ===== src/Float/Bytes.antt =====
-- `from_le_bytes`, `to_le_bytes` and the big-endian readers, over lists of bytes.
use sonny.Prelude.{ℕ, ◌+◌, ◌*◌, ◌/◌, ◌%◌, ◌<◌, ◌≡◌, List, [], ◌∷◌, arith}

unfoldable pub to_le_bytes : ℕ → List ℕ
to_le_bytes x = x % 256 ∷ x / 256 % 256 ∷ x / 65536 % 256 ∷ x / 16777216 % 256 ∷ []

unfoldable pub from_le_bytes : ℕ → ℕ → ℕ → ℕ → ℕ
from_le_bytes a b c d = a + 256 * b + 65536 * c + 16777216 * d

-- `u32::from_be_bytes`; the number of the bytes read from the front.
unfoldable pub from_be_bytes : ℕ → List ℕ → ℕ
from_be_bytes acc [] = acc
from_be_bytes acc (b ∷ bs) = from_be_bytes (acc * 256 + b) bs

pub from-to_le_bytes :
    (x : ℕ)
    → x < 4294967296
    → from_le_bytes (x % 256) (x / 256 % 256) (x / 65536 % 256) (x / 16777216 % 256) ≡ x
unfolding from_le_bytes
from-to_le_bytes x h = omega arith
