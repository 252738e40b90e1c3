-- ===== src/Boot/Tests.antt =====
-- A start without a configuration file, and one whose file asks for a port without its rate.
use sonny.Prelude.{ℕ, ◌≡◌, refl, List, [], ◌∷◌, Option, none, some, ◌>>=◌}
use sonny.HalLoader.{HardwareConfig}
use sonny.Text.{codes}
use sonny.Fieldbus.{serial}
use sonny.Boot.{
  from_file, from_environment, Environment, environment_config, resolve_fieldbus,
  dof_from_environment,
}
use sonny.Boot.Start.{BootConfig, boot_config, config_path, joint_names, brand_label}
use sonny.Boot.Agreement.{Agrees, resolve_fieldbus-boot_config}

abbrev env : Environment
env = record {
  serial_port = some (codes "/dev/ttyUSB0");
  robot_dof = some (codes "12");
  udp_bind = none;
  udp_remote = none;
}

dof : dof_from_environment env ≡ 12
unfolding dof_from_environment
dof = refl

-- The port goes before UDP, and without a file the robot has no limits.
limits_without_file :
    (do found ← resolve_fieldbus env none; c ← found; some c.0.joint_limits_rad) ≡ some []
unfolding resolve_fieldbus environment_config
limits_without_file = refl

no_remote :
    resolve_fieldbus
      (record env { serial_port = none; udp_bind = some (codes "0.0.0.0:9000") })
      none
    ≡ none
unfolding resolve_fieldbus
no_remote = refl

abbrev file : HardwareConfig
file = record {
  robot_name = codes "Arm";
  max_jitter_us = 500;
  manufacturer = codes "KUKA";
  dof = 1;
  expected_hz = 0x4069_0000_0000_0000;
  joints =
      record {
        name = codes "A1";
        min_angle_rad = 0xBF80_0000;
        max_angle_rad = 0x3F80_0000;
        max_speed_rad_s = 0x3F80_0000;
        max_accel_rad_s2 = none;
        max_jerk_rad_s3 = none;
      }
      ∷ [];
  fieldbus = some (record {
    protocol = codes "serial";
    port = some (codes "/dev/ttyS0");
    baud_rate = none;
    bind_addr = none;
    remote_addr = none;
  });
  brand = none;
  gripper = none;
}

abbrev read : List ℕ → Option HardwareConfig
read path = some file

abbrev started : BootConfig
started = record {
  config = some file;
  robot_name = codes "Arm";
  expected_hz = 0x4069_0000_0000_0000;
  max_jitter_us = 500;
  dof = 1;
}

named_joints : joint_names started ≡ codes "A1" ∷ []
unfolding joint_names
named_joints = refl

numbered_joints :
    (do b ← boot_config read (config_path none none); some (joint_names (record b { dof = 2 })))
    ≡ some (codes "J1" ∷ codes "J2" ∷ [])
unfolding boot_config config_path joint_names
numbered_joints = refl

profile : brand_label started ≡ codes "KUKA"
unfolding brand_label
profile = refl

resolve_fieldbus-boot_config_example : Agrees started (environment_config serial 12 (some file))
unfolding boot_config resolve_fieldbus from_environment from_file dof_from_environment
resolve_fieldbus-boot_config_example =
    resolve_fieldbus-boot_config read (codes "robot.json") started refl env
      (environment_config serial 12 (some file)) refl
