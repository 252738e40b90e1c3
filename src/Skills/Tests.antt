-- ===== src/Skills/Tests.antt =====
-- Two skills with a tick before and after them.
use sonny.Prelude.{true, ◌≡◌, refl, List, [], ◌∷◌, All, some, length, Returns}
use sonny.Float.{le, is_finite, arithmetic}
use sonny.Health.{new_health, wrap64}
use sonny.Vectors.{as_slice}
use sonny.Limits.{Limits, IsOrdered, pairs-IsOrdered}
use sonny.RtLoop.{RtConfig, RtState, Tick, start_state, new_slot}
use sonny.RtLoop.Frames.{IsSafeBytes, start_state-IsReady}
use sonny.Skills.{
  evaluate_reward, reward_command, SkillStep, injected, frame_due, listen_for_skills,
}
use sonny.Skills.Reward.{listen_for_skills-IsSafeBytes}

-- One limit, [-0.25, 0.25].
abbrev limits : Limits
limits = (0xBE80_0000, 0x3E80_0000) ∷ []

ordered : IsOrdered limits
unfolding is_finite le
ordered = pairs-IsOrdered limits ((refl, refl, refl), tt)

abbrev config : RtConfig
config = record {
  joint_count = 1;
  limits = limits;
  expected_interval_us = 1000;
  max_jitter_us = 50;
}

abbrev start : RtState
start = start_state config new_slot (record { last_ping_ms = 0 }) new_health

abbrev tick : Tick
tick = record {
  sanitize_ns = 300;
  now_ms = 4;
  now_ns = 4_000_000;
  sent = true;
  tx_ns = 20;
  elapsed_us = 90;
  elapsed_ns = 90_000;
}

-- The second package asks for 1.0, which is more than the joint may do.
abbrev steps : List SkillStep
steps = frame_due tick ∷ injected 10 1 (1 ∷ []) ∷ injected 20 2 (1 ∷ 2 ∷ []) ∷ frame_due tick ∷ []

-- [-1.0, 1.0, -0.5]
negative_reward :
    as_slice (reward_command (evaluate_reward (7 ∷ [])))
    ≡ some (0xBF80_0000 ∷ 0x3F80_0000 ∷ 0xBF00_0000 ∷ [])
unfolding reward_command evaluate_reward as_slice arithmetic
negative_reward = refl

listen_for_skills-IsSafeBytes_example :
    Returns
      (λ out.
        (length out.1 ≡ 2)
        × All (IsSafeBytes limits) out.1
        × (wrap64 out.0.health.wasm_cycle.count ≡ 2))
      (listen_for_skills config start steps)
unfolding new_slot start_state new_health
listen_for_skills-IsSafeBytes_example =
    listen_for_skills-IsSafeBytes config start steps ordered
      (start_state-IsReady config new_slot (record { last_ping_ms = 0 }) new_health tt)
