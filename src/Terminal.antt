-- ===== src/Terminal.antt =====
-- src/diagnostics/terminal_ui.rs: the state of the dashboard, what the samples of the bus do to it, and
-- the bar of a joint. Strings are the lists of their bytes. The clock comes with a sample, in
-- microseconds; the JSON parser is a library, and a status is the fields that it finds with the type
-- asked for. The screen that is printed is in Terminal/Screen; the task and
-- the mutex are left out.
pub mod Sound
pub mod Screen
mod Tests
use sonny.Prelude.{
  ℕ, zero, suc, ◌+◌, ◌-◌, ◌*◌, ◌/◌, ◌%◌, ◌^◌, Bool, true, false, not, ◌&&◌, ◌||◌, List, [], ◌∷◌,
  ◌++◌, Option, none, some, if◌then◌else◌, ltb, leb, ◌==◌, value_or, length, get_elem?, take, max,
}
use sonny.Float.{
  F32, F64, f32, f64, sub, mul, div, le, lt, clamp_in, to_uint, is_nan, is_neg, units,
  from_le_bytes,
}
use sonny.Limits.{Limits}
use sonny.Health.{wrap64}
use sonny.HalLoader.{same_bytes}

abbrev pub bar_width : ℕ
bar_width = 16

abbrev pub max_warnings : ℕ
max_warnings = 8

pub record JointView : Type 0 where
  pub name : List ℕ
  pub value : F32
  pub min : F32
  pub max : F32

-- "Jitter anomalo: intervallo {} us (atteso ~{} us)", as its two numbers.
pub record Warning : Type 0 where
  pub interval_us : ℕ
  pub expected_us : ℕ

pub record UiState : Type 0 where
  pub online : Bool
  pub transport : List ℕ
  pub estop : Bool
  pub frames : ℕ
  pub last_interval_us : Option ℕ
  pub max_jitter_us : ℕ
  pub last_frame_at : Option ℕ
  pub joints : List JointView
  pub warnings : List Warning

-- The joint `i` on, each with its limits, or (-π, π).
unfoldable pub joint_views : ℕ → List (List ℕ) → Limits → List JointView
joint_views i [] limits = []
joint_views i (name ∷ names) limits =
    let range = value_or (0xC049_0FDB, 0x4049_0FDB) (get_elem? limits i) in
    record { name = name; value = 0; min = range.0; max = range.1 }
    ∷ joint_views (suc i) names limits

-- "OFFLINE"
unfoldable pub new_ui : List (List ℕ) → Limits → UiState
unfolding joint_views
new_ui joint_names joint_limits = record {
  online = false;
  transport = 79 ∷ 70 ∷ 70 ∷ 76 ∷ 73 ∷ 78 ∷ 69 ∷ [];
  estop = false;
  frames = 0;
  last_interval_us = none;
  max_jitter_us = 0;
  last_frame_at = none;
  joints = joint_views 0 joint_names joint_limits;
  warnings = [];
}

unfoldable pub push_warning : Warning → UiState → UiState
push_warning msg s = record s { warnings = take max_warnings (msg ∷ s.warnings) }

-- The interval that is expected, in microseconds; `u64::MAX` without a rate.
unfoldable pub expected_interval : F64 → ℕ
expected_interval expected_hz =
    if lt f64 0 expected_hz
    then to_uint f64 (2 ^ 64 - 1) (div f64 0x412E_8480_0000_0000 expected_hz)
    else 2 ^ 64 - 1

-- `topic.rsplit('/').next()`
unfoldable pub last_segment : List ℕ → List ℕ → List ℕ
last_segment seen [] = seen
last_segment seen (c ∷ topic) =
    if c == 47 then last_segment [] topic else last_segment (seen ++ (c ∷ [])) topic

unfoldable pub tail_matches : List ℕ → List ℕ → Bool
unfolding last_segment
tail_matches topic robot_name = same_bytes (last_segment [] topic) robot_name

-- The values of `chunks_exact(4)`.
unfoldable pub values_of : List ℕ → List F32
values_of (a ∷ b ∷ c ∷ d ∷ rest) = from_le_bytes a b c d ∷ values_of rest
values_of _ = []

-- Each joint takes its value, if there is one.
unfoldable pub show_values : List JointView → List F32 → List JointView
show_values [] values = []
show_values (joint ∷ joints) [] = joint ∷ joints
show_values (joint ∷ joints) (v ∷ values) = record joint { value = v } ∷ show_values joints values

-- An interval that is not part of a burst. The products are those of `u64`.
unfoldable pub note_interval : (expected_interval_us interval_us : ℕ) → UiState → UiState
unfolding push_warning
note_interval expected_interval_us interval_us s =
    let noted = record s {
      last_interval_us = some interval_us;
      max_jitter_us = if ltb s.max_jitter_us interval_us then interval_us else s.max_jitter_us;
    } in
    let diff_us =
      if ltb expected_interval_us interval_us
      then interval_us - expected_interval_us
      else expected_interval_us - interval_us in
    if not (expected_interval_us == 2 ^ 64 - 1)
      && ltb (wrap64 (expected_interval_us * 5) / 2) diff_us
    then push_warning (record { interval_us = interval_us; expected_us = expected_interval_us })
        noted
    else noted

-- `now_us` is the monotonic clock.
unfoldable pub apply_telemetry : (expected_interval_us now_us : ℕ) → List ℕ → UiState → UiState
unfolding note_interval show_values values_of
apply_telemetry expected_interval_us now_us payload s =
    let shown = record s { joints = show_values s.joints (values_of payload) } in
    let timed : UiState = elim s.last_frame_at [
      | none ↦ shown
      | some last ↦
          let interval_us = wrap64 (now_us - last) in
          if leb 500 interval_us
          then note_interval expected_interval_us interval_us shown
          else shown
    ] in
    record timed { last_frame_at = some now_us; frames = wrap64 (timed.frames + 1) }

-- What a status says.
pub record StatusFields : Type 0 where
  pub online : Option Bool
  pub transport : Option (List ℕ)
  pub estop : Option Bool
  pub frames : Option ℕ

unfoldable pub apply_status : StatusFields → UiState → UiState
apply_status json s = record s {
  online = value_or s.online json.online;
  transport = value_or s.transport json.transport;
  estop = value_or s.estop json.estop;
  frames = elim json.frames [
    | none ↦ s.frames
    | some frames ↦ if ltb s.frames frames then frames else s.frames
  ];
}

-- The samples of the two subscriptions.
pub data Sample : Type 0 where
  telemetry : (now_us : ℕ) → (topic payload : List ℕ) → Sample
  status : (topic : List ℕ) → StatusFields → Sample

unfoldable pub update : (robot_name : List ℕ) → (expected_hz : F64) → UiState → Sample → UiState
unfolding tail_matches apply_telemetry apply_status expected_interval
update robot_name expected_hz s (telemetry now_us topic payload) =
    if tail_matches topic robot_name && (length payload % 4 == 0)
    then apply_telemetry (expected_interval expected_hz) now_us payload s
    else s
update robot_name expected_hz s (status topic json) =
    if tail_matches topic robot_name then apply_status json s else s

unfoldable pub run_telemetry_updater :
    (robot_name : List ℕ) → (expected_hz : F64) → UiState → List Sample → UiState
unfolding update
run_telemetry_updater robot_name expected_hz s [] = s
run_telemetry_updater robot_name expected_hz s (sample ∷ samples) =
    run_telemetry_updater robot_name expected_hz (update robot_name expected_hz s sample) samples

-- `x.round() as usize`: to the nearest whole number, halves away from zero; NaN and what is below
-- zero give 0.
unfoldable pub round_to_index : F32 → ℕ
round_to_index x = if is_nan f32 x || is_neg f32 x then 0 else (2 * units f32 x + 2 ^ 149) / 2 ^ 150

-- The cells from `i` on; "X" at the index and "-" elsewhere.
unfoldable pub cells : ℕ → ℕ → ℕ → List ℕ
cells zero i idx = []
cells (suc n) i idx = (if i == idx then 88 else 45) ∷ cells n (suc i) idx

unfoldable pub joint_bar : JointView → List ℕ
unfolding round_to_index cells
joint_bar joint =
    let span = sub f32 joint.max joint.min in
    if le f32 span 0x3400_0000
    then 91 ∷ 93 ∷ []
    else let pos = clamp_in f32 (div f32 (sub f32 joint.value joint.min) span) 0 0x3F80_0000 in
      let idx = round_to_index (mul f32 pos 0x4170_0000) in
      91 ∷ (cells bar_width 0 idx ++ (93 ∷ []))
