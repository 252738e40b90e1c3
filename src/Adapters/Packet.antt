-- ===== src/Adapters/Packet.antt =====
-- src/io_bridge/adapters/franka_fci.rs and src/io_bridge/adapters/universal_robots.rs: packets with a
-- big-endian length in front, which carry the joints as big-endian doubles. The script that Universal
-- Robots takes as a command is text: Adapters/Script.
use sonny.Prelude.{
  ℕ, ◌+◌, ◌-◌, ◌*◌, ◌||◌, ◌&&◌, List, Option, none, some, ◌>>=◌, if◌then◌else◌, ltb, leb, min,
  length, get_elem?, set, take, drop, replicate, copy_into, for_range,
}
use sonny.Float.{F32, narrow, from_be_bytes, to_le_bytes}
use sonny.Vectors.{CommandVector, max_joints, zero_array, as_slice}
use sonny.Adapters.{Decoded, Encoded}

-- `&v[from..to]`
unfoldable pub sub_slice : List ℕ → (from to : ℕ) → Option (List ℕ)
sub_slice v from to =
    if leb from to && leb to (length v) then some (take (to - from) (drop from v)) else none

-- `values[i] = read_f64_be(&body[off..off + 8]) as f32`
unfoldable pub read_double : (offset : ℕ) → List ℕ → ℕ → List F32 → Option (List F32)
unfolding sub_slice from_be_bytes
read_double offset body i values = do
  bytes ← sub_slice body (offset + i * 8) (offset + i * 8 + 8)
  some (set values i (narrow (from_be_bytes 0 bytes)))

-- A packet for `joints` joints whose positions begin at `offset` in its body.
unfoldable pub decode_packet : (joints offset : ℕ) → List ℕ → ℕ → Option (Option Decoded)
unfolding read_double
decode_packet joints offset acc joint_count =
    let size = from_be_bytes 0 (take 4 acc) in
    let n = min (min joint_count joints) max_joints in
    if ltb (length acc) 4 || (ltb size 4 || ltb (length acc) size) then some none else (do
      body ← sub_slice acc 4 size
      if ltb (length body) (offset + n * 8) then some none else (do
        values ← for_range n 0 (read_double offset body) zero_array
        some (some (size, values, n))))

unfoldable pub decode_franka : List ℕ → ℕ → Option (Option Decoded)
unfolding decode_packet
decode_franka = decode_packet 7 8

unfoldable pub decode_universal_robots : List ℕ → ℕ → Option (Option Decoded)
unfolding decode_packet
decode_universal_robots = decode_packet 6 248

-- One joint of the robot command.
unfoldable pub put_joint : List F32 → ℕ → List ℕ → Option (List ℕ)
put_joint values i frame = do v ← get_elem? values i; copy_into frame (22 + i * 4) (to_le_bytes v)

-- The header's only field that is not zero is the frame type.
unfoldable pub encode_franka : CommandVector → List ℕ → Encoded
unfolding put_joint
encode_franka command out = do
  frame ← copy_into (replicate 192 0) 6 (to_le_bytes 1)
  values ← as_slice command
  let n = min (length values) 7
  frame ← for_range n 0 (put_joint (take n values)) frame
  let m = min 192 (length out)
  out ← copy_into out 0 (take m frame)
  some (out, m)
