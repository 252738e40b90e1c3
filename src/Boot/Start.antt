-- ===== src/Boot/Start.antt =====
-- src/main.rs: what the parts of the system are started with. The parser of the file is a parameter;
-- `none` is a start that ends with the loader's error. The tasks, and the printed lines of the start,
-- are left out.
use sonny.Prelude.{
  ℕ, zero, suc, ◌+◌, List, [], ◌∷◌, ◌++◌, map, Option, none, some, ◌>>=◌, if◌then◌else◌,
}
use sonny.Float.{F64}
use sonny.Limits.{Limits}
use sonny.Text.{codes, print_uint, trim}
use sonny.Brand.{label}
use sonny.Health.{AtomicHealth}
use sonny.Health.Line.{render_line}
use sonny.HalLoader.{HardwareConfig, joint_limits, resolved_brand, same_bytes}
use sonny.RtLoop.{RtConfig}
use sonny.RtLoop.Monitor.{FrequencyEnforcer, new_enforcer, new_loop}
use sonny.Terminal.{UiState, new_ui}
use sonny.Boot.{of_joints}

-- `env::var("ROBOT_CONFIG_PATH").or_else(|_| env::args().nth(1))`
unfoldable pub config_path : (variable argument : Option (List ℕ)) → Option (List ℕ)
config_path (some path) argument = some path
config_path none argument = argument

-- What the file says of the robot, or the mock mode: 100.0 Hz, 1000 us, six joints.
pub record BootConfig : Type 0 where
  pub config : Option HardwareConfig
  pub robot_name : List ℕ
  pub expected_hz : F64
  pub max_jitter_us : ℕ
  pub dof : ℕ

unfoldable pub boot_config :
    (from_file : List ℕ → Option HardwareConfig) → Option (List ℕ) → Option BootConfig
boot_config from_file none = some (record {
  config = none;
  robot_name = codes "MockRobot";
  expected_hz = 0x4059_0000_0000_0000;
  max_jitter_us = 1000;
  dof = 6;
})
boot_config from_file (some path) = do
  config ← from_file path
  some (record {
    config = some config;
    robot_name = config.robot_name;
    expected_hz = config.expected_hz;
    max_jitter_us = config.max_jitter_us;
    dof = config.dof;
  })

-- "J1", "J2", ...
unfoldable pub numbered_names : (n i : ℕ) → List (List ℕ)
unfolding print_uint
numbered_names zero i = []
numbered_names (suc n) i = (codes "J" ++ print_uint (i + 1)) ∷ numbered_names n (suc i)

unfoldable pub joint_names : BootConfig → List (List ℕ)
unfolding numbered_names
joint_names b = elim b.config [
  | none ↦ numbered_names b.dof 0
  | some c ↦ map (λ j. j.name) c.joints
]

unfoldable pub boot_limits : BootConfig → Limits
unfolding of_joints
boot_limits b = of_joints joint_limits b.config

unfoldable pub start_rt_loop : BootConfig → RtConfig
unfolding boot_limits new_loop
start_rt_loop b = new_loop b.dof (boot_limits b) b.expected_hz b.max_jitter_us

unfoldable pub start_enforcer : BootConfig → FrequencyEnforcer
unfolding new_enforcer
start_enforcer b = new_enforcer b.expected_hz b.max_jitter_us

unfoldable pub start_ui : BootConfig → UiState
unfolding new_ui joint_names boot_limits
start_ui b = new_ui (joint_names b) (boot_limits b)

unfoldable pub brand_label : BootConfig → List ℕ
unfolding resolved_brand
brand_label b = elim b.config [ none ↦ codes "GENERIC" | some c ↦ label (resolved_brand c) ]

-- The lines of the terminal, each with the probe and the clock when it is read; no bytes are the end.
unfoldable pub health_prompt : List (List ℕ × ℕ × AtomicHealth) → List (List ℕ)
unfolding trim render_line
health_prompt [] = []
health_prompt (([], _, _) ∷ lines) = []
health_prompt ((c ∷ line, now_ns, health) ∷ lines) =
    let reports = health_prompt lines in
    if same_bytes (trim (c ∷ line)) (codes "health")
    then render_line now_ns health ∷ reports
    else reports
