-- ===== src/HalLoader.antt =====
-- src/io_bridge/hal_loader.rs: the hardware configuration after the JSON parser, a library, has read
-- it. A string is the list of its bytes; the kinematic chain and what only main.rs prints are left out,
-- and of an address it is kept whether it is there.
pub mod Registers
pub mod Sections
mod Tests
use sonny.Prelude.{
  ℕ, suc, ◌+◌, Bool, true, false, ◌&&◌, ◌||◌, List, [], ◌∷◌, ◌++◌, map, Option, none, some,
  if◌then◌else◌, ltb, leb, ◌==◌, ◌⊎◌, inl, inr, length, value_or,
}
use sonny.Float.{F32, F64, f32, mul}
use sonny.Limits.{Limits}
use sonny.Brand.{RobotBrand, from_manufacturer, to_ascii_lowercase}
use sonny.Fieldbus.{FieldbusConfig, Transport, serial, udp, tcp}

pub record JointConfig : Type 0 where
  pub name : List ℕ
  pub min_angle_rad : F32
  pub max_angle_rad : F32
  pub max_speed_rad_s : F32
  pub max_accel_rad_s2 : Option F32
  pub max_jerk_rad_s3 : Option F32

-- The two factors are 10.0.
unfoldable pub max_accel : JointConfig → F32
max_accel j = value_or (mul f32 j.max_speed_rad_s 0x4120_0000) j.max_accel_rad_s2

unfoldable pub max_jerk : JointConfig → F32
unfolding max_accel
max_jerk j = value_or (mul f32 (max_accel j) 0x4120_0000) j.max_jerk_rad_s3

pub record FieldbusJsonConfig : Type 0 where
  pub protocol : List ℕ
  pub port : Option (List ℕ)
  pub baud_rate : Option ℕ
  pub bind_addr : Option (List ℕ)
  pub remote_addr : Option (List ℕ)

pub record GripperConfig : Type 0 where
  pub pressure_slot : ℕ
  pub min_pressure_n : F32
  pub max_pressure_n : F32

pub record HardwareConfig : Type 0 where
  pub robot_name : List ℕ
  pub max_jitter_us : ℕ
  pub manufacturer : List ℕ
  pub dof : ℕ
  pub expected_hz : F64
  pub joints : List JointConfig
  pub fieldbus : Option FieldbusJsonConfig
  pub brand : Option (List ℕ)
  pub gripper : Option GripperConfig

-- `trim().is_empty()`, where white space is that of ASCII.
unfoldable pub is_blank : List ℕ → Bool
is_blank [] = true
is_blank (c ∷ s) = ((leb 9 c && leb c 13) || (c == 32)) && is_blank s

unfoldable pub resolved_brand : HardwareConfig → RobotBrand
unfolding is_blank from_manufacturer
resolved_brand h = elim h.brand [
  | some b ↦ if is_blank b then from_manufacturer h.manufacturer else from_manufacturer b
  | none ↦ from_manufacturer h.manufacturer
]

pub data ConfigError : Type 0 where
  missing_port : ConfigError
  missing_baud_rate : ConfigError
  missing_bind_addr : ConfigError
  missing_remote_addr : ConfigError
  unsupported : List ℕ → ConfigError

abbrev pub same_bytes : List ℕ → List ℕ → Bool
same_bytes [] [] = true
same_bytes (c ∷ s) (d ∷ t) = (c == d) && same_bytes s t
same_bytes _ _ = false

-- `field.ok_or(error)?`, before the rest.
abbrev pub require :
    {A : Type 0} → Option A → ConfigError → ConfigError ⊎ Transport → ConfigError ⊎ Transport
require none e rest = inl e
require (some _) e rest = rest

-- "serial", "rs232", "rs485"; "udp", "ethernet"; "tcp"
unfoldable pub transport_of : FieldbusJsonConfig → ConfigError ⊎ Transport
transport_of fb =
    let p = to_ascii_lowercase fb.protocol in
    if same_bytes p (115 ∷ 101 ∷ 114 ∷ 105 ∷ 97 ∷ 108 ∷ [])
      || (same_bytes p (114 ∷ 115 ∷ 50 ∷ 51 ∷ 50 ∷ [])
          || same_bytes p (114 ∷ 115 ∷ 52 ∷ 56 ∷ 53 ∷ []))
    then require fb.port missing_port (require fb.baud_rate missing_baud_rate (inr serial))
    else if same_bytes p (117 ∷ 100 ∷ 112 ∷ [])
        || same_bytes p (101 ∷ 116 ∷ 104 ∷ 101 ∷ 114 ∷ 110 ∷ 101 ∷ 116 ∷ [])
    then require fb.bind_addr missing_bind_addr
        (require fb.remote_addr missing_remote_addr (inr udp))
    else if same_bytes p (116 ∷ 99 ∷ 112 ∷ [])
    then require fb.remote_addr missing_remote_addr (inr tcp)
    else inl (unsupported p)

abbrev pub joint_limits : JointConfig → F32 × F32
joint_limits j = (j.min_angle_rad, j.max_angle_rad)

-- The configuration of the loops with the brand, if there is a fieldbus section.
unfoldable pub to_fieldbus_config :
    HardwareConfig → ConfigError ⊎ Option (FieldbusConfig × RobotBrand)
unfolding transport_of max_accel max_jerk resolved_brand
to_fieldbus_config h = elim h.fieldbus [
  | none ↦ inr none
  | some fb ↦ elim (transport_of fb) [
    | inl e ↦ inl e
    | inr t ↦ inr (
        some (
          record {
            transport = t;
            joint_count = h.dof;
            joint_limits_rad = map joint_limits h.joints;
            expected_hz = h.expected_hz;
            max_speed_rad_s = map (λ j. j.max_speed_rad_s) h.joints;
            max_accel_rad_s2 = map max_accel h.joints;
            max_jerk_rad_s3 = map max_jerk h.joints;
          },
          resolved_brand h,
        ))
  ]
]

-- The loop over the joints from index `i` on; the gripper's limits go in before the joint of its slot.
unfoldable pub joint_registers : GripperConfig → ℕ → List JointConfig → Limits
joint_registers g i [] = []
joint_registers g i (j ∷ joints) =
    let rest = joint_limits j ∷ joint_registers g (suc i) joints in
    if i == g.pressure_slot then (g.min_pressure_n, g.max_pressure_n) ∷ rest else rest

unfoldable pub register_limits : HardwareConfig → Limits
unfolding joint_registers
register_limits h = elim h.gripper [
  | none ↦ map joint_limits h.joints
  | some g ↦
      joint_registers g 0 h.joints
      ++ (if leb (length h.joints) g.pressure_slot
          then (g.min_pressure_n, g.max_pressure_n) ∷ []
          else [])
]
