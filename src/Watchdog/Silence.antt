-- ===== src/Watchdog/Silence.antt =====
-- A heartbeat that stays silent trips the watchdog.
use sonny.Prelude.{
  ℕ, zero, suc, ◌+◌, ◌≤◌, ◌<◌, ◌≡◌, refl, true, false, List, [], ◌∷◌, ltb, arith, some, get_elem?,
  take, lt_or_le, Bool-cases, inl, inr,
}
use sonny.Watchdog.{age_ms, WatchdogConfig, WatchdogState, Round, monitor_round, monitor_loop}
use sonny.Watchdog.Latch.{silent_round}

-- Rounds that do not stop, each at most one interval behind the last, whose heartbeat is no later
-- than `beat`.
abbrev pub IsWatched : (interval beat last : ℕ) → List Round → Type 0
IsWatched interval beat last [] = Unit
IsWatched interval beat last (r ∷ rounds) =
    (r.stop ≡ false)
    × (last ≤ r.now_ms)
    × (r.now_ms ≤ last + interval)
    × (r.heartbeat.last_ping_ms ≤ beat)
    × IsWatched interval beat r.now_ms rounds

-- The time of the last look.
abbrev pub last_look : (last : ℕ) → List Round → ℕ
last_look last [] = last
last_look last (r ∷ rounds) = last_look r.now_ms rounds

module _ (c : WatchdogConfig) (bytes : List ℕ) where
  goes_on : (s : WatchdogState) (r : Round) → r.stop ≡ false → (monitor_round c bytes s r).2 ≡ true
  unfolding monitor_round
  goes_on s r e = elim (Bool-cases (ltb c.heartbeat_timeout_ms (age_ms r.now_ms r.heartbeat))) [
    | inl f ↦ rw (e, f) refl
    | inr f ↦ rw (e, f) refl
  ]

  -- The loop after a round that does not stop is the loop from the round's state on.
  monitor_loop-goes_on :
      (s : WatchdogState) (r : Round) (rounds : List Round)
      → r.stop ≡ false
      → (monitor_loop c bytes s (r ∷ rounds)).0
        ≡ (monitor_loop c bytes (monitor_round c bytes s r).0 rounds).0
  unfolding monitor_loop
  monitor_loop-goes_on s r rounds e = rw (goes_on s r e) refl

  -- A look that comes after the timeout trips, in whatever state the watchdog was.
  trips :
      (beat : ℕ) (s : WatchdogState) (r : Round)
      → r.stop ≡ false
      → r.heartbeat.last_ping_ms ≤ beat
      → beat + c.heartbeat_timeout_ms < r.now_ms
      → (monitor_round c bytes s r).0.tripped ≡ true
  unfolding age_ms
  trips beat s r e heart late =
      let (_, flag, _) = silent_round c bytes s r e (omega (arith, heart, late)) in flag

  stays :
      (beat last : ℕ) (s : WatchdogState) (rounds : List Round) (n : ℕ)
      → IsWatched c.check_interval_ms beat last rounds
      → beat + c.heartbeat_timeout_ms < last
      → s.tripped ≡ true
      → (monitor_loop c bytes s (take n rounds)).0.tripped ≡ true
  unfolding monitor_loop
  stays beat last s rounds zero w late h = h
  stays beat last s [] (suc n) w late h = h
  stays beat last s (r ∷ rounds) (suc n) (e, after, _, heart, w) late h =
      rw (monitor_loop-goes_on s r (take n rounds) e) (
        stays beat r.now_ms (monitor_round c bytes s r).0 rounds n w (omega (arith, after, late))
          (trips beat s r e heart (omega (arith, after, late))))

  -- No beat comes after `beat`, and the watchdog, from a time within the timeout on until after it,
  -- looks at least once in every interval and is not stopped. Then one of the looks comes after the
  -- timeout and at most one interval later, and after it the watchdog is tripped and stays so, in
  -- whatever state it was before.
  pub monitor_loop-trips :
      (beat last : ℕ) (s : WatchdogState) (rounds : List Round)
      → IsWatched c.check_interval_ms beat last rounds
      → last ≤ beat + c.heartbeat_timeout_ms
      → beat + c.heartbeat_timeout_ms < last_look last rounds
      → (k : ℕ) × (r : Round) × (get_elem? rounds k ≡ some r)
        × (beat + c.heartbeat_timeout_ms < r.now_ms)
        × (r.now_ms ≤ beat + c.heartbeat_timeout_ms + c.check_interval_ms)
        × ((n : ℕ) → k < n → (monitor_loop c bytes s (take n rounds)).0.tripped ≡ true)
  monitor_loop-trips beat last s [] w early late = absurd (omega (arith, early, late))
  monitor_loop-trips beat last s (r ∷ rounds) (e, after, often, heart, w) early late =
      elim (lt_or_le (beat + c.heartbeat_timeout_ms) r.now_ms) [
        | inl past ↦ (0, r, refl, past, omega (arith, often, early), tripped past)
        | inr before ↦
            let (k, at, there, past, soon, on) =
              monitor_loop-trips beat r.now_ms (monitor_round c bytes s r).0 rounds w before late in
            (suc k, at, there, past, soon, later k on)
      ]
    where
      tripped :
          beat + c.heartbeat_timeout_ms < r.now_ms
          → (n : ℕ) → 0 < n
          → (monitor_loop c bytes s (take n (r ∷ rounds))).0.tripped ≡ true
      tripped past zero h = absurd (omega (arith, h))
      tripped past (suc n) h = rw (monitor_loop-goes_on s r (take n rounds) e) (
          stays beat r.now_ms (monitor_round c bytes s r).0 rounds n w past
            (trips beat s r e heart past))

      later :
          (k : ℕ)
          → ((n : ℕ)
              → k < n
              → (monitor_loop c bytes (monitor_round c bytes s r).0 (take n rounds)).0.tripped
                ≡ true)
          → (n : ℕ) → suc k < n
          → (monitor_loop c bytes s (take n (r ∷ rounds))).0.tripped ≡ true
      later k on zero h = absurd (omega (arith, h))
      later k on (suc n) h =
          rw (monitor_loop-goes_on s r (take n rounds) e) (on n (omega (arith, h)))
