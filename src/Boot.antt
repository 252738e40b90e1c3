-- ===== src/Boot.antt =====
-- src/main.rs: which fieldbus the system starts with. An environment variable that is not set, or is no
-- text, is `none`; `none` of a result is the panic of `expect`. The addresses and times, which are only
-- passed on, are left out. What the other parts are started with is in Boot/Start.
pub mod Sources
pub mod Start
pub mod Agreement
mod Tests
use sonny.Prelude.{ℕ, Bool, List, [], map, Option, none, some, ◌>>=◌, ◌⊎◌, inl, inr, value_or}
use sonny.Float.{F32, F64}
use sonny.Limits.{Limits}
use sonny.Text.{parse_usize}
use sonny.Brand.{RobotBrand, generic}
use sonny.Fieldbus.{FieldbusConfig, Transport, serial, udp}
use sonny.HalLoader.{
  JointConfig, HardwareConfig, joint_limits, max_accel, max_jerk, resolved_brand,
  to_fieldbus_config,
}

pub record Environment : Type 0 where
  pub serial_port : Option (List ℕ)
  pub robot_dof : Option (List ℕ)
  pub udp_bind : Option (List ℕ)
  pub udp_remote : Option (List ℕ)

-- `config.joints.iter().map(..)`, or nothing without a configuration.
unfoldable pub of_joints : {A : Type 0} → (JointConfig → A) → Option HardwareConfig → List A
of_joints f none = []
of_joints f (some config) = map f config.joints

-- `ROBOT_DOF`, or 6
unfoldable pub dof_from_environment : Environment → ℕ
unfolding parse_usize
dof_from_environment env = value_or 6 (do text ← env.robot_dof; parse_usize text)

-- The configuration of a transport that the environment asks for; 100.0 Hz without a file.
unfoldable pub environment_config :
    Transport → (dof : ℕ) → Option HardwareConfig → FieldbusConfig × RobotBrand
unfolding of_joints max_accel max_jerk resolved_brand
environment_config transport dof config = (
  record {
    transport = transport;
    joint_count = elim config [ none ↦ dof | some c ↦ c.dof ];
    joint_limits_rad = of_joints joint_limits config;
    expected_hz = elim config [ none ↦ 0x4059_0000_0000_0000 | some c ↦ c.expected_hz ];
    max_speed_rad_s = of_joints (λ j. j.max_speed_rad_s) config;
    max_accel_rad_s2 = of_joints max_accel config;
    max_jerk_rad_s3 = of_joints max_jerk config;
  },
  elim config [ none ↦ generic | some c ↦ resolved_brand c ],
)

-- What the file says, where it says it without an error.
unfoldable pub from_file : Option HardwareConfig → Option (FieldbusConfig × RobotBrand)
unfolding to_fieldbus_config
from_file none = none
from_file (some config) = elim (to_fieldbus_config config) [ inl e ↦ none | inr found ↦ found ]

-- The two transports that the environment may ask for.
unfoldable pub from_environment :
    Environment → Option HardwareConfig → Option (Option (FieldbusConfig × RobotBrand))
unfolding environment_config dof_from_environment
from_environment env config = elim env.serial_port [
  | some port ↦ some (some (environment_config serial (dof_from_environment env) config))
  | none ↦ elim env.udp_bind [
    | none ↦ some none
    | some bind ↦ (do remote ← env.udp_remote; some (some (environment_config udp 6 config)))
  ]
]

unfoldable pub resolve_fieldbus :
    Environment → Option HardwareConfig → Option (Option (FieldbusConfig × RobotBrand))
unfolding from_file from_environment
resolve_fieldbus env config = elim (from_file config) [
  | some found ↦ some (some found)
  | none ↦ from_environment env config
]
