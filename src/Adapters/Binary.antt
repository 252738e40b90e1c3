-- ===== src/Adapters/Binary.antt =====
-- src/io_bridge/adapters/generic_binary.rs and src/io_bridge/adapters/amr_ros2.rs: frames of a fixed
-- size, four bytes per joint. The two codecs are the same code.
use sonny.Prelude.{
  ℕ, ◌+◌, ◌-◌, ◌*◌, ◌^◌, ◌||◌, List, Option, none, some, ◌>>=◌, if◌then◌else◌, ltb, ◌==◌, min,
  length, get_elem?, set, for_range,
}
use sonny.Float.{F32, from_le_bytes}
use sonny.Vectors.{CommandVector, max_joints, zero_array, zeros, write_to}
use sonny.Adapters.{BrandAdapter, Decoded, Encoded, fixed}

-- `values[i] = f32::from_le_bytes([acc[off], ..])`
unfoldable pub read_value : List ℕ → ℕ → List F32 → Option (List F32)
read_value acc i values = do
  let off = i * 4
  a ← get_elem? acc off
  b ← get_elem? acc (off + 1)
  c ← get_elem? acc (off + 2)
  d ← get_elem? acc (off + 3)
  some (set values i (from_le_bytes a b c d))

-- `joint_count.saturating_mul(4)` of a `usize` of 64 bits.
unfoldable pub frame_size : ℕ → ℕ
frame_size joint_count = min (joint_count * 4) (2 ^ 64 - 1)

unfoldable pub decode_fixed : List ℕ → (joint_count : ℕ) → Option (Option Decoded)
unfolding read_value
decode_fixed acc joint_count =
    let size = frame_size joint_count in
    let n = min joint_count max_joints in
    if (size == 0) || ltb (length acc) size
    then some none
    else (do values ← for_range n 0 (read_value acc) zero_array; some (some (size, values, n)))

-- The default of the trait: the command of zeros.
unfoldable pub estop_zeros : (CommandVector → List ℕ → Encoded) → ℕ → List ℕ → Encoded
estop_zeros encode joint_count out = encode (zeros joint_count) out

unfoldable pub generic_binary : BrandAdapter
unfolding decode_fixed estop_zeros
generic_binary = record {
  State = Unit;
  frame_strategy = fixed 4;
  decode_telemetry =
      λ s acc joint_count. (do decoded ← decode_fixed acc joint_count; some (s, decoded));
  encode_command = write_to;
  encode_estop = estop_zeros write_to;
  poll_request = λ s out. some (s, out, 0);
  poll_period_ms = 0;
}
