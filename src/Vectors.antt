-- ===== src/Vectors.antt =====
-- src/io_bridge/command_vector.rs and src/io_bridge/state_vector.rs. An array `[f32; 32]` is a list
-- of 32 bit patterns (`IsValid` keeps the length); `none` is a panic of an index or a slice. The
-- clock of `StateVector` is an argument of the calls that read it.
pub mod Codec
pub mod State
pub mod Valid
mod Tests
use sonny.Prelude.{
  ℕ, zero, suc, ◌+◌, ◌*◌, ◌/◌, ◌≤◌, ◌<◌, ◌≡◌, List, [], ◌∷◌, Option, none, some, ◌>>=◌, leb, min,
  if◌then◌else◌, length, get_elem?, set, take, replicate, overwrite, copy_into, for_range,
}
use sonny.Float.{F32, to_le_bytes, from_le_bytes}

abbrev pub max_joints : ℕ
max_joints = 32

pub record CommandVector : Type 0 where
  pub target_actuators : List F32
  pub len : ℕ

-- `[0.0; MAX_JOINTS]`
abbrev pub zero_array : List F32
zero_array = replicate 32 0

unfoldable pub new : CommandVector
new = record { target_actuators = zero_array; len = 0 }

unfoldable pub zeros : ℕ → CommandVector
zeros joint_count = record { target_actuators = zero_array; len = min joint_count max_joints }

unfoldable pub from_slice : List F32 → CommandVector
unfolding new overwrite
from_slice values =
    let n = min (length values) max_joints in
    record { target_actuators = overwrite zero_array 0 (take n values); len = n }

-- The loop over `chunks_exact(4)`: a rest of fewer than four bytes is left out.
unfoldable pub load_chunks : List F32 → ℕ → List ℕ → CommandVector
load_chunks array n (a ∷ b ∷ c ∷ d ∷ rest) =
    let next = load_chunks (set array n (from_le_bytes a b c d)) (n + 1) rest in
    if leb max_joints n then record { target_actuators = array; len = n } else next
load_chunks array n _ = record { target_actuators = array; len = n }

unfoldable pub from_bytes : List ℕ → CommandVector
unfolding load_chunks
from_bytes bytes = load_chunks zero_array 0 bytes

-- `&v[..len]` panics where the array is shorter.
unfoldable pub as_slice : CommandVector → Option (List F32)
as_slice v =
    if leb v.len (length v.target_actuators) then some (take v.len v.target_actuators) else none

abbrev pub Out : Type 0
Out = List ℕ × ℕ

-- One round of the loop of `write_to`: the bytes of joint `i` at the offset written so far.
abbrev pub put_value : List F32 → ℕ → Out → Option Out
put_value values i (out, written) = do
  v ← get_elem? values i
  out' ← copy_into out written (to_le_bytes v)
  some (out', written + 4)

unfoldable pub write_values : List F32 → ℕ → List ℕ → Option Out
write_values values len out = for_range (min len (length out / 4)) 0 (put_value values) (out, 0)

-- The buffer and the number of bytes written into it.
unfoldable pub write_to : CommandVector → List ℕ → Option Out
unfolding write_values
write_to v out = write_values v.target_actuators v.len out

-- Every constructor of the program gives such a vector.
pub record IsValid (v : CommandVector) : Type 0 where
  pub array : length v.target_actuators ≡ max_joints
  pub active : v.len ≤ max_joints

pub record StateVector : Type 0 where
  pub hardware_id : List ℕ
  pub timestamp : ℕ
  pub values : List F32
  pub len : ℕ

unfoldable pub set_values : ℕ → StateVector → List F32 → StateVector
unfolding overwrite
set_values now s values =
    let n = min (length values) max_joints in
    record s { values = overwrite s.values 0 (take n values); len = n; timestamp = now }

unfoldable pub new_state : ℕ → List ℕ → List F32 → StateVector
unfolding set_values
new_state now hardware_id values =
    set_values now
      (record { hardware_id = hardware_id; timestamp = now; values = zero_array; len = 0 }) values

unfoldable pub state_slice : StateVector → Option (List F32)
state_slice s = if leb s.len (length s.values) then some (take s.len s.values) else none

unfoldable pub write_state : StateVector → List ℕ → Option Out
unfolding write_values
write_state s out = write_values s.values s.len out

pub record IsValidState (s : StateVector) : Type 0 where
  pub array : length s.values ≡ max_joints
  pub active : s.len ≤ max_joints
