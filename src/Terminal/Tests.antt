-- ===== src/Terminal/Tests.antt =====
-- A dashboard of one joint at 100 Hz.
use sonny.Prelude.{ℕ, ◌≡◌, refl, true, false, List, [], ◌∷◌, ◌++◌, none, some, map}
use sonny.Text.Places.{print_places}
use sonny.Terminal.Screen.{joint_line, places, rate, render, head, topics, double_rule}
use sonny.Float.{lt, le, arithmetic, clamp_in}
use sonny.Limits.{Limits}
use sonny.Text.{codes}
use sonny.Terminal.{
  Sample, telemetry, status, joint_views, new_ui, tail_matches, run_telemetry_updater, joint_bar,
}
use sonny.Terminal.Sound.{IsSound, frame_of, run_telemetry_updater-IsSound}

abbrev limits : Limits
limits = (0xBF80_0000, 0x3F80_0000) ∷ []

abbrev names : List (List ℕ)
names = codes "hip" ∷ []

-- The second frame comes after 50 ms.
abbrev samples : List Sample
samples =
    telemetry 1000 (codes "alpha/telemetry/xgo") (0 ∷ 0 ∷ 0 ∷ 63 ∷ [])
    ∷ telemetry 51000 (codes "alpha/telemetry/xgo") (0 ∷ 0 ∷ 0 ∷ 63 ∷ [])
    ∷ status (codes "alpha/status/xgo")
        (record { online = some true; transport = none; estop = none; frames = some 1 })
    ∷ []

other_robot : tail_matches (codes "alpha/telemetry/ur5") (codes "xgo") ≡ false
unfolding tail_matches
other_robot = refl

-- 0.5 of a range from -1 to 1.
bar :
    joint_bar (record { name = []; value = 0x3F00_0000; min = 0xBF80_0000; max = 0x3F80_0000 })
    ≡ codes "[-----------X----]"
unfolding joint_bar arithmetic le clamp_in
bar = refl

run_telemetry_updater-IsSound_example :
    IsSound
      (map frame_of (joint_views 0 names limits))
      (run_telemetry_updater (codes "xgo") 0x4059_0000_0000_0000 (new_ui names limits) samples)
run_telemetry_updater-IsSound_example =
    run_telemetry_updater-IsSound (codes "xgo") 0x4059_0000_0000_0000 names limits samples

-- A joint at a quarter of its range, and one without a range.
first_joint :
    joint_line
      (record { name = codes "hip"; value = 0xBF00_0000; min = 0xBF80_0000; max = 0x3F80_0000 })
    ≡ codes " hip             -0.500 rad  [----X-----------]" ++ (10 ∷ [])
unfolding joint_line arithmetic clamp_in le lt
first_joint = refl

ten_hz : places 1 (rate (some 100000)).0 ≡ codes "10.0"
unfolding rate print_places arithmetic
ten_hz = refl

new_screen :
    render (codes "arm") 0 (new_ui [] [])
    ≡ head (codes "arm") 0 (new_ui [] [])
      ++ (codes " (no telemetry received yet)"
          ++ (10
              ∷ (topics (codes "arm")
                  ++ (codes " NO ALARMS" ++ (10 ∷ (double_rule ++ (10 ∷ 10 ∷ [])))))))
unfolding render new_ui
new_screen = refl
