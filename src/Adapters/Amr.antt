-- ===== src/Adapters/Amr.antt =====
-- src/io_bridge/adapters/amr_ros2.rs: the codec, which is the generic one again, and the wheels of a
-- differential base.
mod Tests
use sonny.Prelude.{if◌then◌else◌}
use sonny.Float.{F32, f32, add, sub, mul, div, le}
use sonny.Adapters.{BrandAdapter}
use sonny.Adapters.Binary.{generic_binary}

abbrev pub amr_ros2 : BrandAdapter
amr_ros2 = generic_binary

unfoldable pub twist_to_wheel_speeds : (linear angular wheel_base : F32) → F32 × F32
twist_to_wheel_speeds linear angular wheel_base =
    if le f32 wheel_base 0
    then (linear, linear)
    else let half = div f32 (mul f32 angular wheel_base) 0x4000_0000 in
      (sub f32 linear half, add f32 linear half)

unfoldable pub wheel_speeds_to_twist : (left right wheel_base : F32) → F32 × F32
wheel_speeds_to_twist left right wheel_base = (
  div f32 (add f32 left right) 0x4000_0000,
  (if le f32 wheel_base 0 then 0 else div f32 (sub f32 right left) wheel_base),
)
