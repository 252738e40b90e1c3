-- ===== src/Adapters/Amr/Tests.antt =====
-- 1 m/s ahead, 2 rad/s, wheels 0.5 m apart, there and back.
use sonny.Prelude.{◌≡◌, refl}
use sonny.Float.{le, arithmetic}
use sonny.Adapters.Amr.{twist_to_wheel_speeds, wheel_speeds_to_twist}

wheels : twist_to_wheel_speeds 0x3F80_0000 0x4000_0000 0x3F00_0000 ≡ (0x3F00_0000, 0x3FC0_0000)
unfolding twist_to_wheel_speeds arithmetic le
wheels = refl

twist : wheel_speeds_to_twist 0x3F00_0000 0x3FC0_0000 0x3F00_0000 ≡ (0x3F80_0000, 0x4000_0000)
unfolding wheel_speeds_to_twist arithmetic le
twist = refl
