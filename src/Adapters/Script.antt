-- ===== src/Adapters/Script.antt =====
-- src/io_bridge/adapters/universal_robots.rs: the command, a line of URScript, and the adapter.
use sonny.Prelude.{ℕ, zero, suc, List, [], ◌∷◌, some, ◌>>=◌, take}
use sonny.Float.{F32}
use sonny.Vectors.{CommandVector, as_slice}
use sonny.Text.{codes, write_pieces, print_fixed}
use sonny.Adapters.{BrandAdapter, Encoded, length_prefixed}
use sonny.Adapters.Binary.{estop_zeros}
use sonny.Adapters.Packet.{decode_universal_robots}

abbrev pub ur_joints : ℕ
ur_joints = 6

-- The values with a comma between them, and the end of the call.
unfoldable pub servo_pieces : ℕ → List F32 → List (List ℕ)
servo_pieces i [] = codes "], 0, 0, 0.008, 0.05, 100)\n" ∷ []
servo_pieces zero (v ∷ values) = print_fixed v ∷ servo_pieces 1 values
servo_pieces (suc i) (v ∷ values) = codes ", " ∷ print_fixed v ∷ servo_pieces (suc (suc i)) values

unfoldable pub encode_command : CommandVector → List ℕ → Encoded
unfolding servo_pieces write_pieces
encode_command command out = do
  values ← as_slice command
  sink ←
      write_pieces (codes "servoj([" ∷ servo_pieces 0 (take ur_joints values))
        (record { buf = out; pos = 0 })
  some (sink.buf, sink.pos)

unfoldable pub universal_robots_adapter : BrandAdapter
unfolding encode_command estop_zeros
universal_robots_adapter = record {
  State = Unit;
  frame_strategy = length_prefixed 4;
  decode_telemetry = λ s acc joint_count. (do
    decoded ← decode_universal_robots acc joint_count
    some (s, decoded));
  encode_command = encode_command;
  encode_estop = estop_zeros encode_command;
  poll_request = λ s out. some (s, out, 0);
  poll_period_ms = 0;
}
