-- ===== src/Adapters/Slice.antt =====
-- A part of a slice that lies in it.
use sonny.Prelude.{
  ℕ, ◌-◌, ◌≤◌, ◌≡◌, List, some, arith, length, take, drop, length-take, length-drop,
}
use sonny.Adapters.Packet.{sub_slice}

pub sub_slice-fits :
    (v : List ℕ) (from to : ℕ)
    → from ≤ to
    → to ≤ length v
    → (sub_slice v from to ≡ some (take (to - from) (drop from v)))
      × (length (take (to - from) (drop from v)) ≡ to - from)
unfolding sub_slice
sub_slice-fits v from to h k =
    (ground arith, omega (arith, length-take (to - from) (drop from v), length-drop from v))
