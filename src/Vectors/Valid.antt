-- ===== src/Vectors/Valid.antt =====
-- Every constructor gives a valid vector.
use sonny.Prelude.{
  ℕ, ◌+◌, ◌≤◌, ◌≡◌, refl, List, [], ◌∷◌, arith, min, length, set, take, length-take, length-set,
  length-overwrite,
}
use sonny.Float.{F32, from_le_bytes}
use sonny.Vectors.{IsValid, max_joints, zero_array, new, zeros, from_slice, load_chunks, from_bytes}

pub new-IsValid : IsValid new
unfolding new
new-IsValid = record { array = refl; active = omega arith }

pub zeros-IsValid : (n : ℕ) → IsValid (zeros n)
unfolding zeros
zeros-IsValid n = record { array = refl; active = omega arith }

pub from_slice-IsValid : (xs : List F32) → IsValid (from_slice xs)
unfolding from_slice
from_slice-IsValid xs = record {
  array =
      length-overwrite zero_array 0 (take (min (length xs) max_joints) xs)
        (omega (arith, length-take (min (length xs) max_joints) xs));
  active = omega arith;
}

pub load_chunks-IsValid :
    (array : List F32) (n : ℕ) (bytes : List ℕ)
    → length array ≡ max_joints
    → n ≤ max_joints
    → IsValid (load_chunks array n bytes)
unfolding load_chunks
load_chunks-IsValid array n (a ∷ b ∷ c ∷ d ∷ rest) e h = ground (
  arith,
  load_chunks-IsValid (set array n (from_le_bytes a b c d)) (n + 1) rest,
  length-set array n (from_le_bytes a b c d),
)
load_chunks-IsValid array n (a ∷ b ∷ c ∷ []) e h = record { array = e; active = h }
load_chunks-IsValid array n (a ∷ b ∷ []) e h = record { array = e; active = h }
load_chunks-IsValid array n (a ∷ []) e h = record { array = e; active = h }
load_chunks-IsValid array n [] e h = record { array = e; active = h }

-- Whatever arrives from the bus becomes a vector of 32 slots, at most 32 of them active.
pub from_bytes-IsValid : (bytes : List ℕ) → IsValid (from_bytes bytes)
unfolding from_bytes
from_bytes-IsValid bytes = load_chunks-IsValid zero_array 0 bytes refl (omega arith)
