-- ===== src/RtLoop/Frames.antt =====
-- The frames of the real-time loop: none is skipped, and each publishes a safe command.
use mathlib.Core.Option.{none-ne-some}
use sonny.Prelude.{
  ◌↔◌, Bool-cases, inl, inr, value_or, ℕ, suc, ◌+◌, ◌≤◌, ◌≡◌, refl, sym, ap, ◌∙◌, List, [], ◌∷◌,
  All, Option, none, some, arith, ltb, length, replicate, length-replicate, take, Returns,
}
use sonny.Vectors.{CommandVector, IsValid}
use sonny.Vectors.Codec.{encode, write_to-encode}
use sonny.Vectors.Valid.{zeros-IsValid}
use sonny.Limits.{Limits, IsOrdered}
use sonny.Health.{AtomicHealth}
use sonny.Sanitizer.Safety.{IsSafe, sanitize_and_clamp-IsSafe}
use sonny.Sanitizer.Outcome.{new_sanitizer-IsReady}
use sonny.Sanitizer.Outcome
use sonny.Watchdog.{Heartbeat, ping}
use sonny.RtLoop.{
  new_slot, compute_jitter, abs_diff, LatestCommand, publish, take_or, sample, RtConfig, RtState,
  Tick, frame, Step, published, ticked, run, start_state,
}

-- What the slot holds, if anything, is a valid vector.
abbrev pub SlotIsValid : Option CommandVector → Type 0
SlotIsValid none = Unit
SlotIsValid (some cmd) = IsValid cmd

pub record IsReady (s : RtState) : Type 0 where
  pub slot : SlotIsValid s.buffer.slot
  pub sanitizer : Outcome.IsReady s.sanitizer
  pub last_valid : IsValid s.last_valid

pub start_state-IsReady :
    (c : RtConfig) (buffer : LatestCommand) (heartbeat : Heartbeat) (health : AtomicHealth)
    → SlotIsValid buffer.slot
    → IsReady (start_state c buffer heartbeat health)
unfolding start_state
start_state-IsReady c buffer heartbeat health v = record {
  slot = v;
  sanitizer = new_sanitizer-IsReady;
  last_valid = zeros-IsValid c.joint_count;
}

-- Bytes that are the wire format of a safe command.
pub record IsSafeBytes (limits : Limits) (bytes : List ℕ) : Type 0 where
  pub cmd : CommandVector
  pub valid : IsValid cmd
  pub safe : IsSafe limits cmd
  pub wire : bytes ≡ encode (take cmd.len cmd.target_actuators)

taken-IsValid :
    (slot : Option CommandVector) (fallback : CommandVector)
    → SlotIsValid slot
    → IsValid fallback
    → IsValid (elim slot [ none ↦ fallback | some cmd ↦ cmd ])
taken-IsValid none fallback h v = v
taken-IsValid (some cmd) fallback h v = h

-- A frame does not panic, publishes a safe command, beats the watchdog's heart with its own clock, and
-- leaves the slot empty, the skills' metric as it was, and the state ready for the next frame.
pub frame-IsSafe :
    (c : RtConfig) (s : RtState) (t : Tick)
    → IsOrdered c.limits
    → IsReady s
    → Returns
        (λ out.
          IsReady out.0
          × IsSafeBytes c.limits out.1
          × (out.0.heartbeat.last_ping_ms ≡ t.now_ms)
          × (out.0.buffer.slot ≡ none)
          × (out.0.health.wasm_cycle ≡ s.health.wasm_cycle))
        (frame c s t)
unfolding frame
frame-IsSafe c s t o r =
    let cmd = (take_or s.buffer s.last_valid).1 in
    let (clean, runs, (safe, valid, len, ready)) =
      sanitize_and_clamp-IsSafe t.sanitize_ns s.sanitizer cmd c.limits s.health.sanitizer_cycle o
        r.sanitizer (taken-IsValid s.buffer.slot s.last_valid r.slot r.last_valid) in
    let (out, runs', wire) =
      write_to-encode clean.1 (replicate 128 0) valid
        (omega (arith, length-replicate {A = ℕ} 128 0)) in
    (
      (
        record {
          buffer = record { slot = none };
          sanitizer = clean.0;
          last_valid = clean.1;
          heartbeat = ping t.now_ms s.heartbeat;
          health = sample t (record s.health { sanitizer_cycle = clean.2 });
        },
        take out.1 out.0,
        compute_jitter c.expected_interval_us c.max_jitter_us t.elapsed_us,
      ),
      rw (runs, runs') refl,
      (
        record { slot = tt; sanitizer = ready; last_valid = valid },
        record { cmd = clean.1; valid = valid; safe = safe; wire = wire },
        refl,
        refl,
        refl,
      ),
    )

-- The producer publishes valid vectors.
abbrev pub PublishesValid : List Step → Type 0
PublishesValid [] = Unit
PublishesValid (published cmd ∷ steps) = IsValid cmd × PublishesValid steps
PublishesValid (ticked t ∷ steps) = PublishesValid steps

-- The number of the ticks.
abbrev pub ticks : List Step → ℕ
ticks [] = 0
ticks (published cmd ∷ steps) = ticks steps
ticks (ticked t ∷ steps) = suc (ticks steps)

-- However the producer's publications and the ticks follow each other, and whatever bits are
-- published, the loop does not panic, publishes once for each tick, and all that it publishes is the
-- wire format of commands with finite values in the limits.
pub run-IsSafeBytes :
    (c : RtConfig) (s : RtState) (steps : List Step)
    → IsOrdered c.limits
    → IsReady s
    → PublishesValid steps
    → Returns
        (λ out. IsReady out.0 × (length out.1 ≡ ticks steps) × All (IsSafeBytes c.limits) out.1)
        (run c s steps)
unfolding run
run-IsSafeBytes c s [] o r v = ((s, []), refl, (r, refl, tt))
run-IsSafeBytes c s (published cmd ∷ steps) o r (v, vs) =
    run-IsSafeBytes c (record s { buffer = publish s.buffer cmd }) steps o
      (record { slot = v; sanitizer = r.sanitizer; last_valid = r.last_valid }) vs
run-IsSafeBytes c s (ticked t ∷ steps) o r vs =
    let (out, runs, (ready, safe, _, _, _)) = frame-IsSafe c s t o r in
    let (rest, runs', (ready', count, all)) = run-IsSafeBytes c out.0 steps o ready vs in
    ((rest.0, out.1 ∷ rest.1), rw (run, runs, runs') refl, (ready', ap suc count, (safe, all)))

-- The newest publication of several.
abbrev pub newest : Option CommandVector → List CommandVector → Option CommandVector
newest held [] = held
newest held (cmd ∷ cmds) = newest (some cmd) cmds

abbrev pub publish_all : LatestCommand → List CommandVector → LatestCommand
publish_all b [] = b
publish_all b (cmd ∷ cmds) = publish_all (publish b cmd) cmds

publish_all-newest :
    (b : LatestCommand) (cmds : List CommandVector) → (publish_all b cmds).slot ≡ newest b.slot cmds
unfolding publish
publish_all-newest b [] = refl
publish_all-newest b (cmd ∷ cmds) = publish_all-newest (publish b cmd) cmds

-- After any publications a read gets the newest of them, or the fallback where there was none; the
-- next read gets its fallback.
pub take_or-publish_all :
    (cmds : List CommandVector) (fallback later : CommandVector)
    → let (b, cmd) = take_or (publish_all new_slot cmds) fallback in
      (cmd ≡ value_or fallback (newest none cmds)) × ((take_or b later).1 ≡ later)
unfolding take_or new_slot
take_or-publish_all cmds fallback later = (
  value_of (publish_all new_slot cmds).slot
      ∙ ap (value_or fallback) (publish_all-newest new_slot cmds),
  refl,
)
  where
    value_of :
        (o : Option CommandVector)
        → elim o [ none ↦ fallback | some cmd ↦ cmd ] ≡ value_or fallback o
    value_of none = refl
    value_of (some cmd) = refl

-- A frame is not reported exactly if it is within the tolerance of the period, on either side.
pub compute_jitter_iff :
    (expected tolerance elapsed : ℕ)
    → (compute_jitter expected tolerance elapsed ≡ none)
      ↔ ((elapsed ≤ expected + tolerance) × (expected ≤ elapsed + tolerance))
unfolding compute_jitter
compute_jitter_iff expected tolerance elapsed =
    elim (Bool-cases (ltb tolerance (abs_diff elapsed expected))) [
      | inl e ↦ ((λ h. absurd (none-ne-some _ (sym (rw e at h)))), (λ h. absurd (ground arith)))
      | inr e ↦ ((λ h. (ground arith, ground arith)), (λ h. rw e refl))
    ]
