-- ===== src/Terminal/Sound.antt =====
-- What holds of the dashboard's state, whatever the bus delivers.
use sonny.Prelude.{
  ℕ, ◌+◌, ◌≤◌, ◌≡◌, refl, ap, ◌∙◌, Bool, true, false, List, [], ◌∷◌, Option, none, some, arith, not,
  ◌&&◌, ◌==◌, ◌%◌, ◌-◌, ◌*◌, ◌/◌, ◌^◌, if◌then◌else◌, map, length, length-take, ltb, leb,
  Bool-cases, inl, inr,
}
use sonny.Float.{F32, F64}
use sonny.Limits.{Limits}
use sonny.Health.{wrap64}
use sonny.Terminal.{
  JointView, UiState, Warning, max_warnings, joint_views, new_ui, push_warning, values_of,
  show_values, note_interval, apply_telemetry, apply_status, Sample, telemetry, status,
  tail_matches, expected_interval, update, run_telemetry_updater,
}

-- An interval that is shown is no burst, and no more than the largest one.
abbrev pub IsTimed : ℕ → Option ℕ → Type 0
IsTimed largest none = Unit
IsTimed largest (some us) = (500 ≤ us) × (us ≤ largest)

-- What a view keeps of its joint.
abbrev pub frame_of : JointView → List ℕ × F32 × F32
frame_of joint = (joint.name, joint.min, joint.max)

pub record IsSound (joints : List (List ℕ × F32 × F32)) (s : UiState) : Type 0 where
  pub warnings : length s.warnings ≤ max_warnings
  pub timed : IsTimed s.max_jitter_us s.last_interval_us
  pub frames : map frame_of s.joints ≡ joints

new_ui-IsSound :
    (names : List (List ℕ)) (limits : Limits)
    → IsSound (map frame_of (joint_views 0 names limits)) (new_ui names limits)
unfolding new_ui
new_ui-IsSound names limits = record { warnings = omega arith; timed = tt; frames = refl }

show_values-frames :
    (joints : List JointView) (values : List F32)
    → map frame_of (show_values joints values) ≡ map frame_of joints
unfolding show_values
show_values-frames [] values = refl
show_values-frames (joint ∷ joints) [] = refl
show_values-frames (joint ∷ joints) (v ∷ values) =
    ap (◌∷◌ (frame_of joint)) (show_values-frames joints values)

module _ (joints : List (List ℕ × F32 × F32)) where
  push_warning-IsSound :
      (w : Warning) (s : UiState) → IsSound joints s → IsSound joints (push_warning w s)
  unfolding push_warning
  push_warning-IsSound w s h = record {
    warnings = omega (arith, length-take max_warnings (w ∷ s.warnings));
    timed = h.timed;
    frames = h.frames;
  }

  note_interval-IsSound :
      (expected interval : ℕ) (s : UiState)
      → 500 ≤ interval
      → IsSound joints s
      → IsSound joints (note_interval expected interval s)
  unfolding note_interval
  note_interval-IsSound expected interval s b h = go (
      not (expected == 2 ^ 64 - 1)
      && ltb (wrap64 (expected * 5) / 2)
          (if ltb expected interval then interval - expected else expected - interval))
    where
      largest : ℕ
      largest = if ltb s.max_jitter_us interval then interval else s.max_jitter_us

      noted : UiState
      noted = record s { last_interval_us = some interval; max_jitter_us = largest }

      sound : IsSound joints noted
      sound = record { warnings = h.warnings; timed = (b, ground arith); frames = h.frames }

      go :
          (alarm : Bool)
          → IsSound joints (
              if alarm
              then push_warning (record { interval_us = interval; expected_us = expected }) noted
              else noted)
      go true = push_warning-IsSound _ noted sound
      go false = sound

  apply_telemetry-IsSound :
      (expected now : ℕ) (payload : List ℕ) (s : UiState)
      → IsSound joints s
      → IsSound joints (apply_telemetry expected now payload s)
  unfolding apply_telemetry
  apply_telemetry-IsSound expected now payload s h = counted _ (timed s.last_frame_at)
    where
      shown : UiState
      shown = record s { joints = show_values s.joints (values_of payload) }

      sound : IsSound joints shown
      sound = record {
        warnings = h.warnings;
        timed = h.timed;
        frames = show_values-frames s.joints (values_of payload) ∙ h.frames;
      }

      burst :
          (interval : ℕ)
          → IsSound joints
              (if leb 500 interval then note_interval expected interval shown else shown)
      burst interval = elim (Bool-cases (leb 500 interval)) [
        | inl e ↦ rw e (note_interval-IsSound expected interval shown (ground arith) sound)
        | inr e ↦ rw e sound
      ]

      timed :
          (last : Option ℕ)
          → IsSound joints (elim last [
            | none ↦ shown
            | some last ↦
                let interval = wrap64 (now - last) in
                if leb 500 interval then note_interval expected interval shown else shown
          ])
      timed none = sound
      timed (some last) = burst (wrap64 (now - last))

      counted :
          (t : UiState)
          → IsSound joints t
          → IsSound joints (record t { last_frame_at = some now; frames = wrap64 (t.frames + 1) })
      counted t k = record { warnings = k.warnings; timed = k.timed; frames = k.frames }

  update-IsSound :
      (name : List ℕ) (hz : F64) (s : UiState) (sample : Sample)
      → IsSound joints s
      → IsSound joints (update name hz s sample)
  unfolding update apply_status
  update-IsSound name hz s (telemetry now topic payload) h =
      elim (Bool-cases (tail_matches topic name && (length payload % 4 == 0))) [
        | inl e ↦ rw e (apply_telemetry-IsSound (expected_interval hz) now payload s h)
        | inr e ↦ rw e h
      ]
  update-IsSound name hz s (status topic json) h = elim (Bool-cases (tail_matches topic name)) [
    | inl e ↦ rw e (record { warnings = h.warnings; timed = h.timed; frames = h.frames })
    | inr e ↦ rw e h
  ]

  keeps :
      (name : List ℕ) (hz : F64) (s : UiState) (samples : List Sample)
      → IsSound joints s
      → IsSound joints (run_telemetry_updater name hz s samples)
  unfolding run_telemetry_updater
  keeps name hz s [] h = h
  keeps name hz s (sample ∷ samples) h =
      keeps name hz (update name hz s sample) samples (update-IsSound name hz s sample h)

-- Whatever samples a new dashboard gets, it shows at most eight warnings; an interval that it shows is
-- at least 500 us long, so the rate is never a division by zero, and at most the largest one; and each
-- joint keeps its name and its range.
pub run_telemetry_updater-IsSound :
    (robot_name : List ℕ) (hz : F64) (names : List (List ℕ)) (limits : Limits)
    (samples : List Sample)
    → IsSound
        (map frame_of (joint_views 0 names limits))
        (run_telemetry_updater robot_name hz (new_ui names limits) samples)
run_telemetry_updater-IsSound robot_name hz names limits samples =
    keeps (map frame_of (joint_views 0 names limits)) robot_name hz (new_ui names limits) samples
      (new_ui-IsSound names limits)
