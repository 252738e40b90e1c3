-- ===== src/System.antt =====
-- src/main.rs, with the topics of src/io_bridge/watchdog_timer.rs, src/io_bridge/hardware_abstraction.rs
-- and src/diagnostics/frequency_enforcer.rs: what connects the watchdog and the real-time loop with the
-- hardware. The bus is the session's: it brings what is put under a topic to who subscribed to it, in
-- order. The text of a status, which the hardware does not read, is a parameter.
pub mod Stops
pub mod Trip
pub mod Pulse
mod Tests
use sonny.Prelude.{
  ℕ, Bool, true, false, List, [], ◌∷◌, ◌++◌, map, Option, none, some, if◌then◌else◌, ◌==◌,
}
use sonny.Text.{codes}
use sonny.HalLoader.{same_bytes}
use sonny.Watchdog.{Message, command, estop, status}
use sonny.Fieldbus.Loop
use sonny.Fieldbus.Loop.{Event}

-- A topic, and the payload that is put under it.
abbrev pub Put : Type 0
Put = List ℕ × List ℕ

unfoldable pub cmd_topic : List ℕ → List ℕ
cmd_topic hardware_id = codes "alpha/cmd/" ++ hardware_id

unfoldable pub estop_topic : List ℕ → List ℕ
unfolding cmd_topic
estop_topic hardware_id = cmd_topic hardware_id ++ codes "/estop"

unfoldable pub status_topic : List ℕ → List ℕ
status_topic hardware_id = codes "alpha/watchdog/status/" ++ hardware_id

-- The watchdog's messages on the bus.
unfoldable pub put_message :
    (status_text : Bool → ℕ → ℕ → List ℕ) (hardware_id : List ℕ) → Message → Put
unfolding cmd_topic estop_topic status_topic
put_message status_text hardware_id (command bytes) = (cmd_topic hardware_id, bytes)
put_message status_text hardware_id (estop true) = (estop_topic hardware_id, 1 ∷ [])
put_message status_text hardware_id (estop false) = (estop_topic hardware_id, 0 ∷ [])
put_message status_text hardware_id (status tripped trips timeout_ms) =
    (status_topic hardware_id, status_text tripped trips timeout_ms)

-- What the two subscriptions of the hardware make of it.
unfoldable pub receive : (elapsed_ns : ℕ) (hardware_id : List ℕ) → Put → Option Event
unfolding cmd_topic estop_topic
receive elapsed_ns hardware_id (topic, payload) =
    if same_bytes topic (cmd_topic hardware_id)
    then some (Loop.command elapsed_ns payload)
    else if same_bytes topic (estop_topic hardware_id)
    then some (Loop.estop payload)
    else none

unfoldable pub deliver : (elapsed_ns : ℕ) (hardware_id : List ℕ) → List Put → List Event
unfolding receive
deliver elapsed_ns hardware_id [] = []
deliver elapsed_ns hardware_id (p ∷ puts) = elim (receive elapsed_ns hardware_id p) [
  | none ↦ deliver elapsed_ns hardware_id puts
  | some e ↦ e ∷ deliver elapsed_ns hardware_id puts
]

-- The name under which `main` starts the watchdog and the real-time loop.
unfoldable pub robot_name : (file_name : Option (List ℕ)) → List ℕ
robot_name none = codes "MockRobot"
robot_name (some name) = name

-- The name under which `resolve_fieldbus` lets the hardware subscribe: that of the file, or ROBOT_NAME.
unfoldable pub resolve_hardware_id : (file_name env_name : Option (List ℕ)) → List ℕ
resolve_hardware_id (some name) env_name = name
resolve_hardware_id none (some name) = name
resolve_hardware_id none none = codes "Robot"
