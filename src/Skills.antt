-- ===== src/Skills.antt =====
-- src/registry/wasm_runner.rs: the runner of skills. A package is the list of its bytes; each one runs in
-- a thread of its own, so a run is a sequence of skills that come to their end and of the ticks of the
-- real-time loop, in any order. The WASM engine is not there yet: the source evaluates the reward from
-- the length. The pinning to a core and the log lines are left out.
pub mod Reward
mod Tests
use sonny.Prelude.{ℕ, ◌%◌, List, [], ◌∷◌, Option, none, some, ◌>>=◌, ◌==◌, if◌then◌else◌, length}
use sonny.Float.{F32, f32, neg, mul}
use sonny.Vectors.{CommandVector, from_slice}
use sonny.Health.{AtomicHealth, record_ns, ping_beat}
use sonny.RtLoop.{LatestCommand, publish, RtConfig, RtState, Tick, frame}

-- 0.0, -1.0 or 1.0
unfoldable pub evaluate_reward : List ℕ → F32
evaluate_reward bytecode =
    let r = length bytecode % 3 in if r == 0 then 0 else if r == 1 then 0xBF80_0000 else 0x3F80_0000

-- The command of a reward: itself, its negative and its half.
unfoldable pub reward_command : F32 → CommandVector
unfolding from_slice
reward_command reward = from_slice (reward ∷ neg f32 reward ∷ mul f32 reward 0x3F00_0000 ∷ [])

-- The body of the thread, on the probe and the register that it shares with the others.
unfoldable pub execute_skill_sandbox :
    (elapsed_ns now_ns : ℕ) → List ℕ → AtomicHealth → LatestCommand → AtomicHealth × LatestCommand
unfolding evaluate_reward reward_command record_ns ping_beat publish
execute_skill_sandbox elapsed_ns now_ns bytecode health output = (
  record health {
    wasm_cycle = record_ns health.wasm_cycle elapsed_ns;
    wasm_thread_beat = ping_beat now_ns health.wasm_thread_beat;
  },
  publish output (reward_command (evaluate_reward bytecode)),
)

pub data SkillStep : Type 0 where
  injected : (elapsed_ns now_ns : ℕ) → List ℕ → SkillStep
  frame_due : Tick → SkillStep

-- The packages that `listen_for_skills` receives, beside the loop that reads what they publish.
unfoldable pub listen_for_skills :
    RtConfig → RtState → List SkillStep → Option (RtState × List (List ℕ))
unfolding execute_skill_sandbox frame
listen_for_skills c s [] = some (s, [])
listen_for_skills c s (injected elapsed_ns now_ns bytecode ∷ steps) =
    let ran = execute_skill_sandbox elapsed_ns now_ns bytecode s.health s.buffer in
    listen_for_skills c (record s { health = ran.0; buffer = ran.1 }) steps
listen_for_skills c s (frame_due t ∷ steps) = do
  out ← frame c s t
  rest ← listen_for_skills c out.0 steps
  some (rest.0, out.1 ∷ rest.1)
