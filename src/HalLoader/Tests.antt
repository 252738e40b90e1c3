-- ===== src/HalLoader/Tests.antt =====
-- A robot of two joints with a gripper between them.
use sonny.Prelude.{◌≡◌, ◌⊎◌, inl, inr, refl, [], ◌∷◌, none, some}
use sonny.Brand.{RobotBrand, label, luwu_dynamics}
use sonny.Fieldbus.{FieldbusConfig, Transport}
use sonny.HalLoader.{
  JointConfig, GripperConfig, FieldbusJsonConfig, HardwareConfig, ConfigError, missing_baud_rate,
  to_fieldbus_config,
}
use sonny.HalLoader.Sections.{IsGiven, IsComplete, IsResolved, to_fieldbus_config-IsComplete}

abbrev joint : JointConfig
joint = record {
  name = [];
  min_angle_rad = 0xBF80_0000;
  max_angle_rad = 0x3F80_0000;
  max_speed_rad_s = 0x3F80_0000;
  max_accel_rad_s2 = none;
  max_jerk_rad_s3 = none;
}

abbrev gripper : GripperConfig
gripper = record { pressure_slot = 1; min_pressure_n = 0; max_pressure_n = 0x4220_0000 }

-- "Serial", without a baud rate
abbrev section : FieldbusJsonConfig
section = record {
  protocol = 83 ∷ 101 ∷ 114 ∷ 105 ∷ 97 ∷ 108 ∷ [];
  port = some (47 ∷ []);
  baud_rate = none;
  bind_addr = none;
  remote_addr = none;
}

abbrev machine : HardwareConfig
machine = record {
  robot_name = [];
  max_jitter_us = 1000;
  manufacturer = label luwu_dynamics;
  dof = 2;
  expected_hz = 0;
  joints = joint ∷ joint ∷ [];
  fieldbus = some section;
  brand = none;
  gripper = some gripper;
}

no_baud_rate : to_fieldbus_config machine ≡ inl missing_baud_rate
unfolding to_fieldbus_config
no_baud_rate = refl

-- With the baud rate.
abbrev wired : FieldbusJsonConfig
wired = record section { baud_rate = some 115200 }

to_fieldbus_config-IsComplete_example :
    ((e : ConfigError) × (to_fieldbus_config (record machine { fieldbus = some wired }) ≡ inl e)
      × ((t : Transport) → IsGiven wired t → ⊥))
    ⊎ ((t : Transport) × (c : FieldbusConfig) × (brand : RobotBrand) × (to_fieldbus_config
            (record machine { fieldbus = some wired })
          ≡ inr (some (c, brand)))
        × IsGiven wired t
        × IsComplete (record machine { fieldbus = some wired }) t c
        × IsResolved (record machine { fieldbus = some wired }) brand)
to_fieldbus_config-IsComplete_example =
    to_fieldbus_config-IsComplete (record machine { fieldbus = some wired }) wired refl
