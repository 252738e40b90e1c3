-- ===== src/System/Pulse/Verdict.antt =====
-- The watchdog tells a loop that is late from one that is not, whatever order the threads run in.
use sonny.Prelude.{
  All, ℕ, suc, ◌+◌, ◌-◌, ◌<◌, ◌≤◌, ◌≡◌, ◌^◌, refl, sym, ap, ◌∙◌, Bool, false, List, [], ◌∷◌, ◌++◌,
  some, ltb, arith, Bool-cases, inl, inr, length, Returns,
}
use sonny.Limits.{IsOrdered}
use sonny.Vectors.{CommandVector, IsValid}
use sonny.RtLoop
use sonny.RtLoop.{RtConfig, RtState, Step, run, frame, publish}
use sonny.RtLoop.Frames.{IsReady, IsSafeBytes, frame-IsSafe}
use sonny.Watchdog.{WatchdogConfig, WatchdogState, Round, monitor_round, age_ms}
use sonny.Watchdog.Latch.{IsTold, IsTold-trans, monitor_round-IsTold, silent_round}
use sonny.System.Pulse.{Beat, published, ticked, looked, look, live}

-- Whether the last look came more than the timeout after the frame before it.
abbrev pub verdict : (timeout beat : ℕ) (late : Bool) → List Beat → Bool
verdict timeout beat late [] = late
verdict timeout beat late (published cmd ∷ beats) = verdict timeout beat late beats
verdict timeout beat late (ticked tick ∷ beats) = verdict timeout tick.now_ms late beats
verdict timeout beat late (looked now_ms checked_at forced_at ∷ beats) =
    verdict timeout beat (ltb timeout (now_ms - beat)) beats

-- The same without the looks.
abbrev pub steps_of : List Beat → List Step
steps_of [] = []
steps_of (published cmd ∷ beats) = RtLoop.published cmd ∷ steps_of beats
steps_of (ticked tick ∷ beats) = RtLoop.ticked tick ∷ steps_of beats
steps_of (looked now_ms checked_at forced_at ∷ beats) = steps_of beats

-- Every look comes at most the timeout after the frame before it.
abbrev pub IsPunctual : (timeout beat : ℕ) → List Beat → Type 0
IsPunctual timeout beat [] = Unit
IsPunctual timeout beat (published cmd ∷ beats) = IsPunctual timeout beat beats
IsPunctual timeout beat (ticked tick ∷ beats) = IsPunctual timeout tick.now_ms beats
IsPunctual timeout beat (looked now_ms checked_at forced_at ∷ beats) =
    (now_ms ≤ beat + timeout) × IsPunctual timeout beat beats

abbrev pub PublishesValid : List Beat → Type 0
PublishesValid [] = Unit
PublishesValid (published cmd ∷ beats) = IsValid cmd × PublishesValid beats
PublishesValid (ticked tick ∷ beats) = PublishesValid beats
PublishesValid (looked now_ms checked_at forced_at ∷ beats) = PublishesValid beats

abbrev pub ticks : List Beat → ℕ
ticks [] = 0
ticks (published cmd ∷ beats) = ticks beats
ticks (ticked tick ∷ beats) = suc (ticks beats)
ticks (looked now_ms checked_at forced_at ∷ beats) = ticks beats

module _ (w : WatchdogConfig) (bytes : List ℕ) (s : RtState) (t : WatchdogState)
    (now checked forced : ℕ) where
  abbrev round : Round
  round = record {
    stop = false;
    now_ms = now;
    heartbeat = s.heartbeat;
    checked_at = checked;
    forced_at = forced;
  }

  look-IsTold :
      t.trips < 2 ^ 64
      → IsTold t (look w bytes s t now checked forced).0 (look w bytes s t now checked forced).1
  unfolding look
  look-IsTold few = monitor_round-IsTold w bytes t round few

  look-tripped :
      (look w bytes s t now checked forced).0.tripped
      ≡ ltb w.heartbeat_timeout_ms (now - s.heartbeat.last_ping_ms)
  unfolding look monitor_round age_ms
  look-tripped = elim (Bool-cases (ltb w.heartbeat_timeout_ms (now - s.heartbeat.last_ping_ms))) [
    | inl f ↦ (silent_round w bytes t round refl (ground arith)).1 ∙ sym f
    | inr f ↦ rw f refl
  ]

  look-quiet :
      t.tripped ≡ false
      → now ≤ s.heartbeat.last_ping_ms + w.heartbeat_timeout_ms
      → ((look w bytes s t now checked forced).0 ≡ t)
        × ((look w bytes s t now checked forced).1 ≡ [])
  unfolding look monitor_round age_ms
  look-quiet off young =
      elim (Bool-cases (ltb w.heartbeat_timeout_ms (now - s.heartbeat.last_ping_ms))) [
        | inl f ↦ absurd (ground arith)
        | inr f ↦ rw f (ap (λ b. record t { tripped = b }) (sym off), rw off refl)
      ]

module _ (c : RtConfig) (w : WatchdogConfig) (bytes : List ℕ) (o : IsOrdered c.limits) where
  publish-IsReady :
      (s : RtState) (cmd : CommandVector)
      → IsReady s
      → IsValid cmd
      → IsReady (record s { buffer = publish s.buffer cmd })
  unfolding publish
  publish-IsReady s cmd r v = record {
    slot = v;
    sanitizer = r.sanitizer;
    last_valid = r.last_valid;
  }

  -- However frames, looks and commands follow each other, and whatever bits are commanded, the loop
  -- does not panic and publishes one safe command per frame; and the watchdog's flag, which is what a
  -- subscriber to its estops holds, says whether its last look came more than the timeout after the
  -- frame before, or is as it was where there was no look.
  pub live-verdict :
      (s : RtState) (t : WatchdogState) (beats : List Beat)
      → IsReady s
      → PublishesValid beats
      → t.trips < 2 ^ 64
      → Returns
          (λ out.
            (length out.frames ≡ ticks beats)
            × All (IsSafeBytes c.limits) out.frames
            × (out.watchdog.tripped
                ≡ verdict w.heartbeat_timeout_ms s.heartbeat.last_ping_ms t.tripped beats)
            × IsTold t out.watchdog out.messages)
          (live c w bytes s t beats)
  unfolding live
  live-verdict s t [] r v few = (
    record { rt = s; watchdog = t; frames = []; messages = [] },
    refl,
    (refl, tt, refl, record { flag = refl; count = omega arith }),
  )
  live-verdict s t (published cmd ∷ beats) r (v, vs) few =
      live-verdict (record s { buffer = publish s.buffer cmd }) t beats (publish-IsReady s cmd r v)
        vs few
  live-verdict s t (ticked tick ∷ beats) r v few =
      let (out, runs, (ready, safe, beat, _, _)) = frame-IsSafe c s tick o r in
      let (rest, lives, (count, all, flag, told)) = live-verdict out.0 t beats ready v few in
      (
        record rest { frames = out.1 ∷ rest.frames },
        rw (runs, lives) refl,
        (ap suc count, (safe, all), rw beat at flag, told),
      )
  live-verdict s t (looked now checked forced ∷ beats) r v few =
      let out = look w bytes s t now checked forced in
      let told = look-IsTold w bytes s t now checked forced few in
      let (rest, lives, (count, all, flag, later)) =
        live-verdict s out.0 beats r v (omega (arith, told.count)) in
      (
        record rest { messages = out.1 ++ rest.messages },
        rw lives refl,
        (
          count,
          all,
          flag
              ∙ ap (λ late. verdict w.heartbeat_timeout_ms s.heartbeat.last_ping_ms late beats)
                  (look-tripped w bytes s t now checked forced),
          IsTold-trans w bytes t out.0 rest.watchdog out.1 rest.messages told later,
        ),
      )

  -- A watchdog that is not tripped, and whose looks all come within the timeout after the frame before
  -- them, never trips: it puts nothing on the bus, whatever is commanded, and the loop runs as it would
  -- without it.
  pub live-quiet :
      (s : RtState) (t : WatchdogState) (beats : List Beat)
      → IsReady s
      → PublishesValid beats
      → t.tripped ≡ false
      → IsPunctual w.heartbeat_timeout_ms s.heartbeat.last_ping_ms beats
      → Returns
          (λ out.
            (out.messages ≡ [])
            × (out.watchdog ≡ t)
            × (run c s (steps_of beats) ≡ some (out.rt, out.frames)))
          (live c w bytes s t beats)
  unfolding live run
  live-quiet s t [] r v off h =
      (record { rt = s; watchdog = t; frames = []; messages = [] }, refl, (refl, refl, refl))
  live-quiet s t (published cmd ∷ beats) r (v, vs) off h =
      live-quiet (record s { buffer = publish s.buffer cmd }) t beats (publish-IsReady s cmd r v) vs
        off h
  live-quiet s t (ticked tick ∷ beats) r v off h =
      let (out, runs, (ready, _, beat, _, _)) = frame-IsSafe c s tick o r in
      let (rest, lives, (none_sent, same, alone)) =
        live-quiet out.0 t beats ready v off (rw beat h) in
      (
        record rest { frames = out.1 ∷ rest.frames },
        rw (runs, lives) refl,
        (none_sent, same, rw (runs, alone) refl),
      )
  live-quiet s t (looked now checked forced ∷ beats) r v off (young, h) =
      let (same, silent) = look-quiet w bytes s t now checked forced off young in
      let (rest, lives, (none_sent, stays, alone)) = live-quiet s t beats r v off h in
      (rest, rw (same, silent, lives) refl, (none_sent, stays, alone))
