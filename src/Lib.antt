-- ===== src/Lib.antt =====
-- Sonny: the safety layer between a network of commands and the joints of a robot.
--
-- A command comes over the bus as bytes. The fieldbus loop (hardware_abstraction.rs) decodes it,
-- the sanitizer replaces what is no number, the jerk limiter smooths what is left, and the adapter
-- of the robot's brand encodes the result for the hardware. Telemetry goes the other way. The
-- watchdog publishes zeros and an estop when the heartbeat is silent, the failsafe guard holds the
-- last healthy state over a blackout, and a probe of atomics measures all threads. Beside these
-- stand a bridge from Modbus to the topics, skills that publish commands of their own, a simulated
-- robot, and a dashboard.
--
-- Which file models which part:
-- - Prelude: tests on numbers, lists, and loops over an index; no code of the repository.
-- - Float: `f32` and `f64` as bit patterns, with arithmetic that rounds the exact result to nearest
--   even, as the language's primitive types do.
-- - Vectors: src/io_bridge/command_vector.rs and src/io_bridge/state_vector.rs.
-- - Limits: the joint limits, and the clamp that the sanitizer, the limiter and the fieldbus share.
-- - Sanitizer: src/io_bridge/vector_sanitizer.rs.
-- - JerkLimiter: src/io_bridge/jerk_limiter.rs; `limit_joint` is the body of the loop of `limit`.
-- - Failsafe: src/io_bridge/failsafe.rs.
-- - Watchdog: src/io_bridge/watchdog_timer.rs; a round of `monitor_loop` is `monitor_round`, over
--   what it reads.
-- - Brand: src/io_bridge/robot_brand.rs.
-- - HalLoader: src/io_bridge/hal_loader.rs, after the JSON parser.
-- - RtLoop: src/diagnostics/frequency_enforcer.rs; a run is a sequence of publications and ticks.
--   RtLoop/Boxes is the pointer behind LatestCommand with the threads that share it, and
--   RtLoop/Monitor the monitor of the telemetry's rate.
-- - RtThread: src/system/rt_thread.rs, over the answers of the kernel.
-- - Health: src/diagnostics/atomic_health.rs; its line is Health/Line.
-- - Adapters: src/io_bridge/adapters/mod.rs as an interface, with `adapter_for` in Adapters/Select;
--   Adapters/Binary is generic_binary.rs, Adapters/Amr amr_ros2.rs, Adapters/Packet franka_fci.rs
--   and the decoder of universal_robots.rs, Adapters/Script its encoder, Adapters/Comau
--   comau_pdl.rs, and Adapters/Kuka kuka_eth_krl.rs.
-- - Text: the writer into a slice of the text adapters, and the numbers that they print and parse;
--   Text/Places is the printing to a number of places.
-- - Xgo: src/io_bridge/adapters/xgo_uart.rs: the frames, and in Xgo/Uart the values and the
--   adapter.
-- - Fieldbus: src/io_bridge/hardware_abstraction.rs; Fieldbus/Loop is a connection of its loops, as
--   a fold over events, Fieldbus/Reconnect the attempts to open it again, and Fieldbus/Brands joins
--   it to the adapter of each brand.
-- - System: the bus between watchdog_timer.rs, hardware_abstraction.rs and main.rs: topics, puts
--   and subscriptions; System/Pulse is the heartbeat that the real-time loop and the watchdog
--   share.
-- - Network: src/network_hook/telemetry_client.rs, src/network_hook/zenoh_bus.rs and
--   src/diagnostics/telemetry_logger.rs.
-- - Ros2Bridge: src/ros2_bridge/topic_converter.rs.
-- - Skills: src/registry/wasm_runner.rs; what it receives is a list of skills and ticks.
-- - Mock: src/mocks/virtual_hardware_mock.rs, over a sine that is a parameter.
-- - Terminal: src/diagnostics/terminal_ui.rs: its state, the updates, and the bar of a joint;
--   Terminal/Screen is the text.
-- - Kinematics: src/math_utils/kinematics_math.rs, over a sine and a cosine that are parameters.
-- - Boot: src/main.rs: `resolve_fieldbus`, over the file and the environment that it reads, and in
--   Boot/Start what the parts are started with.
--
-- State and failure. A method that changes `&mut self` takes the state and returns it; a call that
-- may panic returns an `Option`, where `none` is the panic. Clocks, durations and what the
-- operating system answers are arguments. Where threads share memory, a schedule says which one
-- makes its next step, and every statement is over all schedules. Integers are natural numbers, and
-- counters wrap where the source's type does. The 32 slots of an array are a list, and a predicate
-- of validity keeps its length.
--
-- Bounds and fuel. Loops over an index run as often as the source's range says. The loop over the
-- frames of an accumulator has fuel: one round for each byte and one more, which is enough for
-- every decoder whose messages consume bytes that are there. `unfinished` is a run that used its
-- fuel up. The search for variables in a KUKA message has a round for each byte of the body and one
-- more; each variable takes at least one byte, so it ends before its fuel. The printing of digits
-- has a round for each unit of the number, and each digit divides it by ten.
--
-- Not modelled: the JSON parser of the configuration, the WASM engine, and the calls of tokio,
-- zenoh and the operating system, which are libraries; the spawning of the tasks and the lines that
-- main.rs prints at the start; the pauses between two attempts to open a transport; and white space
-- beyond ASCII in `trim`. A status that the session refuses would end a fieldbus loop with an
-- error; here it is always taken.
pub mod Adapters
pub mod Boot
pub mod Brand
pub mod Failsafe
pub mod Fieldbus
pub mod Float
pub mod HalLoader
pub mod Health
pub mod JerkLimiter
pub mod Kinematics
pub mod Limits
pub mod Mock
pub mod Network
pub mod Prelude
pub mod Ros2Bridge
pub mod RtLoop
pub mod RtThread
pub mod Sanitizer
pub mod Skills
pub mod System
pub mod Terminal
pub mod Text
pub mod Vectors
pub mod Watchdog
pub mod Xgo
