-- ===== src/Xgo/Uart.antt =====
-- src/io_bridge/adapters/xgo_uart.rs: the values of the frames, and the adapter, whose
-- two atomics, the poll phase and the snapshot, are its state.
use sonny.Prelude.{
  ℕ, zero, suc, ◌+◌, ◌-◌, ◌%◌, Bool, ◌&&◌, ◌||◌, List, [], ◌∷◌, ◌++◌, Option, none, some, ◌>>=◌,
  if◌then◌else◌, ltb, leb, ◌==◌, min, length, get_elem?, set, take, drop,
}
use sonny.Float.{
  F32, f32, le, add, sub, mul, div, of_uint, to_uint, neg, clamp, is_finite, from_le_bytes,
}
use sonny.Vectors.{CommandVector, zero_array}
use sonny.Adapters.{BrandAdapter, Decoded, register_framed}
use sonny.Xgo.{
  frame, incomplete, garbage, leg_motors, reg_motor_angle, push_frame, slice, scan_frame,
}

-- `XGO_LITE_JOINT_LIMITS_DEG[joint % 3]`
unfoldable pub joint_limits_deg : ℕ → F32 × F32
joint_limits_deg joint =
    if joint % 3 == 0
    then (0xC28C_0000, 0x4248_0000)
    else if joint % 3 == 1
    then (0xC28C_0000, 0x42B4_0000)
    else (0xC1F0_0000, 0x41F0_0000)

-- `std::f32::consts::PI`, and 180.0
abbrev pub pi : F32
pi = 0x4049_0FDB

abbrev pub half_turn : F32
half_turn = 0x4334_0000

abbrev pub byte_max : F32
byte_max = 0x437F_0000

unfoldable pub deg2rad : F32 → F32
deg2rad deg = div f32 (mul f32 deg pi) half_turn

unfoldable pub rad2deg : F32 → F32
rad2deg rad = div f32 (mul f32 rad half_turn) pi

unfoldable pub conver2u8 : F32 → (lo hi : F32) → ℕ
conver2u8 value lo hi =
    if le f32 hi value
    then 0xFF
    else if le f32 value lo
    then 0
    else to_uint f32 255 (mul f32 (div f32 byte_max (sub f32 hi lo)) (sub f32 value lo))

unfoldable pub conver2float : ℕ → (lo hi : F32) → F32
conver2float raw lo hi = add f32 (mul f32 (div f32 (of_uint f32 raw) byte_max) (sub f32 hi lo)) lo

-- The two atomics of the adapter.
pub record XgoUart : Type 0 where
  pub poll_phase : ℕ
  pub snapshot : List F32

unfoldable pub new_uart : XgoUart
new_uart = record { poll_phase = 0; snapshot = zero_array }

-- The loop over the angles of a motor read; it ends at the first joint that is not there.
unfoldable pub put_angles : (n_joints joint : ℕ) → List ℕ → List F32 → List F32
unfolding conver2float deg2rad joint_limits_deg
put_angles n_joints joint [] guard = guard
put_angles n_joints joint (raw ∷ body) guard =
    let (lo, hi) = joint_limits_deg joint in
    let later =
      put_angles n_joints (suc joint) body (set guard joint (deg2rad (conver2float raw lo hi))) in
    if leb n_joints joint then guard else later

-- The slot of an attitude register.
unfoldable pub attitude_slot : ℕ → ℕ
attitude_slot addr = if addr == 0x62 then 12 else (if addr == 0x63 then 13 else 14)

unfoldable pub put_attitude : (addr : ℕ) → List ℕ → List F32 → List F32
unfolding attitude_slot deg2rad
put_attitude addr (a ∷ b ∷ c ∷ d ∷ _) guard =
    let raw = from_le_bytes a b c d in
    if is_finite f32 raw then set guard (attitude_slot addr) (deg2rad raw) else guard
put_attitude addr _ guard = guard

-- The battery, in units of 0.1 V.
unfoldable pub put_battery : List ℕ → List F32 → List F32
put_battery (raw ∷ _) guard = set guard 15 (mul f32 (of_uint f32 raw) 0x3DCC_CCCD)
put_battery [] guard = guard

-- What a frame changes of the snapshot.
unfoldable pub merge : (joint_count addr : ℕ) → List ℕ → List F32 → List F32
unfolding put_angles put_attitude put_battery
merge joint_count addr body guard =
    let motor_base = (addr + 256 - reg_motor_angle) % 256 in
    if ltb motor_base leg_motors
    then put_angles (min joint_count leg_motors) motor_base body guard
    else if ((addr == 0x62) || (addr == 0x63) || (addr == 0x64)) && leb 4 (length body)
    then put_attitude addr body guard
    else if addr == 0x01
    then put_battery body guard
    else guard

unfoldable pub decode_telemetry :
    XgoUart → List ℕ → (joint_count : ℕ) → Option (XgoUart × Option Decoded)
unfolding scan_frame slice merge
decode_telemetry x acc joint_count = do
  scan ← scan_frame acc
  elim scan [
    | frame len addr data_len ↦ (do
      body ← slice acc 5 (5 + data_len)
      let values = merge joint_count addr body x.snapshot
      some (record x { snapshot = values }, some (len, values, 16)))
    | garbage skip ↦ some (x, some (skip, x.snapshot, 0))
    | incomplete ↦ some (x, none)
  ]

-- `push_frame(&mut out[written..], ..)`, and the new count.
unfoldable pub push_at : List ℕ → (written mode addr : ℕ) → List ℕ → Option (List ℕ × ℕ)
unfolding push_frame
push_at out written mode addr body =
    if leb written (length out)
    then (do
      pushed ← push_frame (drop written out) mode addr body
      some (take written out ++ pushed.0, written + pushed.1))
    else none

-- The bytes of the first joints: `payload[..n_joints]`
unfoldable pub joint_bytes : List F32 → (first n : ℕ) → Option (List ℕ)
unfolding conver2u8 rad2deg joint_limits_deg
joint_bytes targets first zero = some []
joint_bytes targets first (suc n) = do
  v ← get_elem? targets first
  let (lo, hi) = joint_limits_deg first
  rest ← joint_bytes targets (suc first) n
  some (conver2u8 (rad2deg v) lo hi ∷ rest)

-- The three velocities, in cm/s and degrees per second.
unfoldable pub velocity_bytes : List F32 → Option (List ℕ)
unfolding conver2u8 rad2deg
velocity_bytes targets = do
  vx ← get_elem? targets 12
  vy ← get_elem? targets 13
  yaw ← get_elem? targets 14
  some (
      conver2u8 (mul f32 vx 0x42C8_0000) (neg f32 0x41C8_0000) 0x41C8_0000
      ∷ conver2u8 (mul f32 vy 0x42C8_0000) (neg f32 0x4190_0000) 0x4190_0000
      ∷ conver2u8 (rad2deg yaw) (neg f32 0x42C8_0000) 0x42C8_0000
      ∷ [])

unfoldable pub action_byte : List F32 → Option (List ℕ)
action_byte targets = do
  v ← get_elem? targets 15
  held ← clamp f32 v 0 byte_max
  some (to_uint f32 255 held ∷ [])

-- A part of the command that is sent if its slots are used.
unfoldable pub push_part : Bool → (addr : ℕ) → Option (List ℕ) → List ℕ × ℕ → Option (List ℕ × ℕ)
unfolding push_at
push_part used addr payload (out, written) =
    if used then (do body ← payload; push_at out written 0x00 addr body) else some (out, written)

unfoldable pub encode_command : CommandVector → List ℕ → Option (List ℕ × ℕ)
unfolding push_part joint_bytes velocity_bytes action_byte
encode_command c out = do
  let n_joints = min c.len leg_motors
  joints ←
      push_part (ltb 0 n_joints) reg_motor_angle (joint_bytes c.target_actuators 0 n_joints)
        (out, 0)
  gait ← push_part (leb 15 c.len) 0x30 (velocity_bytes c.target_actuators) joints
  push_part (leb 16 c.len) 0x3E (action_byte c.target_actuators) gait

unfoldable pub encode_estop : (joint_count : ℕ) → List ℕ → Option (List ℕ × ℕ)
unfolding push_frame
encode_estop _ out = push_frame out 0x00 0x3E (255 ∷ [])

-- The register and the number of bytes of a phase.
unfoldable pub poll_target : ℕ → ℕ × ℕ
poll_target phase =
    if phase == 0
    then (reg_motor_angle, leg_motors)
    else if phase == 1
    then (0x62, 4)
    else if phase == 2
    then (0x63, 4)
    else if phase == 3
    then (0x64, 4)
    else (0x01, 1)

-- `fetch_add` wraps at 256.
unfoldable pub poll_request : XgoUart → List ℕ → Option (XgoUart × List ℕ × ℕ)
unfolding push_frame poll_target
poll_request x out = do
  let (addr, read_len) = poll_target (x.poll_phase % 5)
  pushed ← push_frame out 0x02 addr (read_len ∷ [])
  some (record x { poll_phase = (x.poll_phase + 1) % 256 }, pushed.0, pushed.1)

unfoldable pub xgo_uart : BrandAdapter
unfolding decode_telemetry encode_command encode_estop poll_request
xgo_uart = record {
  State = XgoUart;
  frame_strategy = register_framed 0x55;
  decode_telemetry = decode_telemetry;
  encode_command = encode_command;
  encode_estop = encode_estop;
  poll_request = poll_request;
  poll_period_ms = 20;
}
