-- ===== src/Fieldbus/Serve/Brand.antt =====
-- The connection with the adapter of each brand.
use sonny.Prelude.{ℕ, ◌≢◌, refl}
use sonny.Brand.{
  RobotBrand, generic, kuka, comau, universal_robots, franka_emika, luwu_dynamics, amr,
}
use sonny.Adapters.Binary.{generic_binary, estop_zeros}
use sonny.Adapters.Comau.{comau_pdl2}
use sonny.Adapters.Kuka.{kuka_ethernet_krl}
use sonny.Adapters.Script.{universal_robots_adapter}
use sonny.Adapters.Select.{franka_fci, adapter_for}
use sonny.Adapters.Encode.{
  write_to-IsEncoder, comau-IsEncoder, kuka-IsEncoder, script-IsEncoder, franka-IsEncoder,
}
use sonny.Fieldbus.Brands.{adapter_for-IsProductive}
use sonny.Fieldbus.Serve.Outputs.{IsTotal}

pub adapter_for-IsTotal :
    (brand : RobotBrand) (joint_count : ℕ)
    → brand ≢ luwu_dynamics
    → IsTotal (adapter_for brand) joint_count
unfolding adapter_for generic_binary comau_pdl2 kuka_ethernet_krl universal_robots_adapter
    franka_fci estop_zeros
adapter_for-IsTotal generic n h = record {
  decodes = adapter_for-IsProductive generic n h;
  encodes = write_to-IsEncoder;
  stops = λ out. refl;
  quiet = λ s out. refl;
}
adapter_for-IsTotal amr n h = record {
  decodes = adapter_for-IsProductive amr n h;
  encodes = write_to-IsEncoder;
  stops = λ out. refl;
  quiet = λ s out. refl;
}
adapter_for-IsTotal kuka n h = record {
  decodes = adapter_for-IsProductive kuka n h;
  encodes = kuka-IsEncoder;
  stops = λ out. refl;
  quiet = λ s out. refl;
}
adapter_for-IsTotal comau n h = record {
  decodes = adapter_for-IsProductive comau n h;
  encodes = comau-IsEncoder;
  stops = λ out. refl;
  quiet = λ s out. refl;
}
adapter_for-IsTotal universal_robots n h = record {
  decodes = adapter_for-IsProductive universal_robots n h;
  encodes = script-IsEncoder;
  stops = λ out. refl;
  quiet = λ s out. refl;
}
adapter_for-IsTotal franka_emika n h = record {
  decodes = adapter_for-IsProductive franka_emika n h;
  encodes = franka-IsEncoder;
  stops = λ out. refl;
  quiet = λ s out. refl;
}
adapter_for-IsTotal luwu_dynamics n h = absurd (h refl)
