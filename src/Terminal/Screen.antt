-- ===== src/Terminal/Screen.antt =====
-- src/diagnostics/terminal_ui.rs: the text of the dashboard.
use sonny.Prelude.{
  ℕ, Bool, true, false, List, [], ◌∷◌, ◌++◌, map, Option, none, some, if◌then◌else◌, take,
}
use sonny.Float.{F64, f32, f64, div, of_uint}
use sonny.Text.{codes, print_uint}
use sonny.Text.Writer.{concat}
use sonny.Text.Places.{print_places, pad_left, pad_right}
use sonny.Terminal.{UiState, JointView, Warning, joint_bar}

-- A line of `println!`.
abbrev pub line : List (List ℕ) → List ℕ
line pieces = concat pieces ++ (10 ∷ [])

abbrev pub double_rule : List ℕ
double_rule = codes "===================================================="

abbrev pub rule : List ℕ
rule = codes "----------------------------------------------------"

-- The word for the state of the fieldbus, and its colour.
unfoldable pub status_word : UiState → List ℕ
status_word s =
    if s.estop then codes "ESTOP" else (if s.online then codes "ONLINE" else codes "OFFLINE")

unfoldable pub status_color : UiState → List ℕ
status_color s =
    27 ∷ (if s.estop then codes "[1;31m" else (if s.online then codes "[1;32m" else codes "[1;33m"))

-- `us as f64 / 1000.0`, and `1_000_000.0 / us as f64`
unfoldable pub to_ms : ℕ → F64
to_ms us = div f64 (of_uint f64 us) 0x408F_4000_0000_0000

unfoldable pub rate : Option ℕ → F64 × F64
unfolding to_ms
rate none = (0, 0)
rate (some us) = (div f64 0x412E_8480_0000_0000 (of_uint f64 us), to_ms us)

abbrev pub places : ℕ → F64 → List ℕ
places = print_places f64 false

unfoldable pub joint_line : JointView → List ℕ
unfolding pad_left pad_right print_places joint_bar
joint_line joint = line (
    codes " "
    ∷ pad_right 14 joint.name
    ∷ codes " "
    ∷ pad_left 7 (print_places f32 true 3 joint.value)
    ∷ codes " rad  "
    ∷ joint_bar joint
    ∷ [])

unfoldable pub warning_line : Warning → List ℕ
unfolding print_uint
warning_line w = line (
    codes " [WARN] Jitter anomalo: intervallo "
    ∷ print_uint w.interval_us
    ∷ codes " us (atteso ~"
    ∷ print_uint w.expected_us
    ∷ codes " us)"
    ∷ [])

-- The head of the screen, up to the joints.
unfoldable pub head : (robot_name : List ℕ) (expected_hz : F64) → UiState → List ℕ
unfolding status_word status_color rate to_ms print_places print_uint
head robot_name expected_hz s =
    let (hz, interval_ms) = rate s.last_interval_us in
    concat (
      (27 ∷ (codes "[2J" ++ (27 ∷ codes "[H")))
      ∷ line (double_rule ∷ [])
      ∷ line (codes "      SONNY - OPERATING SYSTEM DASHBOARD" ∷ [])
      ∷ line (double_rule ∷ [])
      ∷ line (codes " HARDWARE NODE:    " ∷ robot_name ∷ [])
      ∷ line (
          codes " FIELD BUS:        "
          ∷ status_color s
          ∷ status_word s
          ∷ (27 ∷ codes "[0m")
          ∷ codes "  ["
          ∷ s.transport
          ∷ codes "]"
          ∷ [])
      ∷ line (
          codes " TELEMETRY RATE:   "
          ∷ places 1 hz
          ∷ codes " Hz (expected "
          ∷ places 1 expected_hz
          ∷ codes ") | interval "
          ∷ places 2 interval_ms
          ∷ codes " ms | max jitter "
          ∷ places 2 (to_ms s.max_jitter_us)
          ∷ codes " ms"
          ∷ [])
      ∷ line (codes " FRAMES RECEIVED:  " ∷ print_uint s.frames ∷ [])
      ∷ line (rule ∷ [])
      ∷ [])

-- What follows the joints, up to the warnings.
unfoldable pub topics : (robot_name : List ℕ) → List ℕ
topics robot_name = concat (
    line (rule ∷ [])
    ∷ line (codes " COMMANDS:   alpha/cmd/" ∷ robot_name ∷ codes "        (f32 LE x DOF)" ∷ [])
    ∷ line (codes " ESTOP:     alpha/cmd/" ∷ robot_name ∷ codes "/estop (1 = active)" ∷ [])
    ∷ line (double_rule ∷ [])
    ∷ [])

abbrev pub is_empty {ℓ} : {A : Type ℓ} → List A → Bool
is_empty [] = true
is_empty (x ∷ xs) = false

unfoldable pub render : (robot_name : List ℕ) (expected_hz : F64) → UiState → List ℕ
unfolding head joint_line topics warning_line
render robot_name expected_hz s = concat (
    head robot_name expected_hz s
    ∷ (if is_empty s.joints then line (codes " (no telemetry received yet)" ∷ []) else [])
    ∷ concat (map joint_line s.joints)
    ∷ topics robot_name
    ∷ concat (map warning_line (take 3 s.warnings))
    ∷ (if is_empty s.warnings then line (codes " NO ALARMS" ∷ []) else [])
    ∷ line (double_rule ∷ (10 ∷ []) ∷ [])
    ∷ [])
