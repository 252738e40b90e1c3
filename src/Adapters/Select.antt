-- ===== src/Adapters/Select.antt =====
-- src/io_bridge/adapters/mod.rs and src/io_bridge/adapters/franka_fci.rs: the adapter of each brand.
use sonny.Prelude.{some, ◌>>=◌}
use sonny.Brand.{
  RobotBrand, generic, kuka, comau, universal_robots, franka_emika, luwu_dynamics, amr,
}
use sonny.Adapters.{BrandAdapter, length_prefixed}
use sonny.Adapters.Binary.{generic_binary, estop_zeros}
use sonny.Adapters.Packet.{decode_franka, encode_franka}
use sonny.Adapters.Amr.{amr_ros2}
use sonny.Adapters.Comau.{comau_pdl2}
use sonny.Adapters.Kuka.{kuka_ethernet_krl}
use sonny.Adapters.Script.{universal_robots_adapter}
use sonny.Xgo.Uart.{xgo_uart}

unfoldable pub franka_fci : BrandAdapter
unfolding estop_zeros
franka_fci = record {
  State = Unit;
  frame_strategy = length_prefixed 4;
  decode_telemetry =
      λ s acc joint_count. (do decoded ← decode_franka acc joint_count; some (s, decoded));
  encode_command = encode_franka;
  encode_estop = estop_zeros encode_franka;
  poll_request = λ s out. some (s, out, 0);
  poll_period_ms = 0;
}

unfoldable pub adapter_for : RobotBrand → BrandAdapter
adapter_for kuka = kuka_ethernet_krl
adapter_for comau = comau_pdl2
adapter_for universal_robots = universal_robots_adapter
adapter_for franka_emika = franka_fci
adapter_for amr = amr_ros2
adapter_for luwu_dynamics = xgo_uart
adapter_for generic = generic_binary
