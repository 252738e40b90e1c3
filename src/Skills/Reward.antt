-- ===== src/Skills/Reward.antt =====
-- Whatever packages are injected, the joints get safe commands.
use sonny.Prelude.{ℕ, suc, ◌+◌, ◌≡◌, refl, ap, ◌∙◌, List, [], ◌∷◌, All, arith, length, Returns}
use sonny.Float.{F32, f32, neg, mul}
use sonny.Vectors.{IsValid}
use sonny.Vectors.Valid.{from_slice-IsValid}
use sonny.Limits.{IsOrdered}
use sonny.Health.{wrap64, record_ns}
use sonny.RtLoop.{RtConfig, RtState, publish}
use sonny.RtLoop.Frames.{IsReady, IsSafeBytes, frame-IsSafe}
use sonny.Skills.{
  evaluate_reward, reward_command, execute_skill_sandbox, SkillStep, injected, frame_due,
  listen_for_skills,
}

-- The numbers of the skills and of the ticks.
abbrev pub skills : List SkillStep → ℕ
skills [] = 0
skills (injected _ _ _ ∷ steps) = suc (skills steps)
skills (frame_due _ ∷ steps) = skills steps

abbrev pub ticks : List SkillStep → ℕ
ticks [] = 0
ticks (injected _ _ _ ∷ steps) = ticks steps
ticks (frame_due _ ∷ steps) = suc (ticks steps)

reward_command-IsValid : (reward : F32) → IsValid (reward_command reward)
unfolding reward_command
reward_command-IsValid reward =
    from_slice-IsValid (reward ∷ neg f32 reward ∷ mul f32 reward 0x3F00_0000 ∷ [])

wrap_step : (n k : ℕ) → wrap64 (wrap64 (n + 1) + k) ≡ wrap64 (n + suc k)
wrap_step n k = omega arith

-- In any order of skills and ticks, and whatever the packages hold, the loop does not panic, publishes
-- once for each tick the wire format of a command with finite values in the limits, and the probe has
-- counted every skill, up to the wrap of `u64`.
pub listen_for_skills-IsSafeBytes :
    (c : RtConfig) (s : RtState) (steps : List SkillStep)
    → IsOrdered c.limits
    → IsReady s
    → Returns
        (λ out.
          (length out.1 ≡ ticks steps)
          × All (IsSafeBytes c.limits) out.1
          × (wrap64 out.0.health.wasm_cycle.count
              ≡ wrap64 (s.health.wasm_cycle.count + skills steps)))
        (listen_for_skills c s steps)
unfolding listen_for_skills execute_skill_sandbox publish record_ns
listen_for_skills-IsSafeBytes c s [] o r = ((s, []), refl, (refl, tt, ap wrap64 (omega arith)))
listen_for_skills-IsSafeBytes c s (injected elapsed now bytecode ∷ steps) o r =
    let ran = execute_skill_sandbox elapsed now bytecode s.health s.buffer in
    let (out, runs, (count, all, counted)) =
      listen_for_skills-IsSafeBytes c (record s { health = ran.0; buffer = ran.1 }) steps o
        (record {
          slot = reward_command-IsValid (evaluate_reward bytecode);
          sanitizer = r.sanitizer;
          last_valid = r.last_valid;
        }) in
    (out, runs, (count, all, counted ∙ wrap_step s.health.wasm_cycle.count (skills steps)))
listen_for_skills-IsSafeBytes c s (frame_due t ∷ steps) o r =
    let (out, runs, (ready, safe, _, _, same)) = frame-IsSafe c s t o r in
    let (rest, runs', (count, all, counted)) =
      listen_for_skills-IsSafeBytes c out.0 steps o ready in
    (
      (rest.0, out.1 ∷ rest.1),
      rw (listen_for_skills, runs, runs') refl,
      (ap suc count, (safe, all), counted ∙ ap (λ m. wrap64 (m.count + skills steps)) same),
    )
