-- ===== src/Network.antt =====
-- src/network_hook/telemetry_client.rs, src/network_hook/zenoh_bus.rs and
-- src/diagnostics/telemetry_logger.rs: a state vector goes to the brain, to the bus, or to a file. What
-- the session and the file system answer is an argument; `none` is a panic. `{:?}` of a list of floats
-- is the standard library's, and a parameter.
pub mod Payload
mod Tests
use sonny.Prelude.{
  ℕ, Bool, List, [], ◌∷◌, ◌++◌, Option, none, some, ◌>>=◌, if◌then◌else◌, take, length, leb,
  replicate,
}
use sonny.Float.{F32}
use sonny.Vectors.{StateVector, state_slice, write_state}
use sonny.Text.{codes, print_uint}

-- The bytes of a state under a topic.
unfoldable pub put_state : (topic : List ℕ) → StateVector → Option (List ℕ × List ℕ)
unfolding write_state
put_state topic state = do out ← write_state state (replicate 128 0); some (topic, take out.1 out.0)

unfoldable pub push_to_brain : StateVector → Option (List ℕ × List ℕ)
unfolding put_state
push_to_brain state =
    put_state (codes "alpha/brain/" ++ (state.hardware_id ++ codes "/input")) state

unfoldable pub transmit_telemetry : StateVector → Option (List ℕ × List ℕ)
unfolding put_state
transmit_telemetry state = put_state (codes "alpha/telemetry/" ++ state.hardware_id) state

-- The line that is logged.
unfoldable pub log_line : (print_floats : List F32 → List ℕ) → StateVector → Option (List ℕ)
unfolding state_slice print_uint
log_line print_floats state = do
  values ← state_slice state
  some (
      codes "{\"timestamp\":"
      ++ (print_uint state.timestamp
          ++ (codes ",\"hardware\":\""
              ++ (state.hardware_id
                  ++ (codes "\",\"values\":" ++ (print_floats values ++ codes "}\n"))))))

-- The file after a call: opened to append, and created where it is missing. `written` is how many bytes
-- the system takes of the line before it fails; the flag is the result.
unfoldable pub log_state :
    (print_floats : List F32 → List ℕ) (opens : Bool) (written : ℕ)
    → StateVector
    → (file : List ℕ) → Option (List ℕ × Bool)
unfolding log_line
log_state print_floats opens written state file = do
  line ← log_line print_floats state
  some (if opens then (file ++ take written line, leb (length line) written) else (file, opens))
