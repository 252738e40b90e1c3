-- ===== src/Watchdog/Latch.antt =====
-- What a reader of the bus learns from the watchdog: the estop latch, the number of trips, and that
-- zeros are the only commands.
use sonny.Prelude.{
  All, All-append, ℕ, suc, ◌+◌, ◌-◌, ◌<◌, ◌≡◌, refl, ap, ◌∙◌, Bool, true, false, List, [], ◌∷◌,
  ◌++◌, if◌then◌else◌, ltb, leb, lt→ltb, arith, Bool-cases, inl, inr, ◌⊎◌, ◌^◌,
}
use sonny.Health.{wrap64}
use sonny.Watchdog.{
  age_ms, WatchdogConfig, Message, command, estop, status, WatchdogState, Round, publish_status,
  intervene, reassert_zeros, release_estop, on_silent, monitor_round, monitor_loop,
}

-- The estop that a subscriber holds after the messages.
abbrev pub latch : Bool → List Message → Bool
latch b [] = b
latch b (estop e ∷ ms) = latch e ms
latch b (command _ ∷ ms) = latch b ms
latch b (status _ _ _ ∷ ms) = latch b ms

-- How often the estop was raised.
abbrev pub raised : List Message → ℕ
raised [] = 0
raised (estop true ∷ ms) = suc (raised ms)
raised (estop false ∷ ms) = raised ms
raised (command _ ∷ ms) = raised ms
raised (status _ _ _ ∷ ms) = raised ms

latch-append : (b : Bool) (xs ys : List Message) → latch b (xs ++ ys) ≡ latch (latch b xs) ys
latch-append b [] ys = refl
latch-append b (estop e ∷ xs) ys = latch-append e xs ys
latch-append b (command _ ∷ xs) ys = latch-append b xs ys
latch-append b (status _ _ _ ∷ xs) ys = latch-append b xs ys

raised-append : (xs ys : List Message) → raised (xs ++ ys) ≡ raised xs + raised ys
raised-append [] ys = omega arith
raised-append (estop true ∷ xs) ys = ground (arith, raised-append xs ys)
raised-append (estop false ∷ xs) ys = raised-append xs ys
raised-append (command _ ∷ xs) ys = raised-append xs ys
raised-append (status _ _ _ ∷ xs) ys = raised-append xs ys

-- A round leaves the subscriber's latch as it leaves the flag, and counts what it raised.
pub record IsTold (s t : WatchdogState) (ms : List Message) : Type 0 where
  pub flag : latch s.tripped ms ≡ t.tripped
  pub count : t.trips ≡ wrap64 (s.trips + raised ms)

-- The commands among the messages.
abbrev pub commands : List Message → List (List ℕ)
commands [] = []
commands (command b ∷ ms) = b ∷ commands ms
commands (estop _ ∷ ms) = commands ms
commands (status _ _ _ ∷ ms) = commands ms

commands-append : (xs ys : List Message) → commands (xs ++ ys) ≡ commands xs ++ commands ys
commands-append [] ys = refl
commands-append (command b ∷ xs) ys = ap (b ∷◌) (commands-append xs ys)
commands-append (estop _ ∷ xs) ys = commands-append xs ys
commands-append (status _ _ _ ∷ xs) ys = commands-append xs ys

module _ (c : WatchdogConfig) (bytes : List ℕ) (s : WatchdogState) (r : Round) where
  on_silent-IsTold : s.trips < 2 ^ 64 → IsTold s (on_silent c bytes s r).0 (on_silent c bytes s r).1
  unfolding on_silent intervene publish_status reassert_zeros
  on_silent-IsTold h = elim (Bool-cases s.tripped) [
    | inl e ↦ elim (Bool-cases (leb c.reassert_interval_ms (r.checked_at - s.last_force_at))) [
      | inl f ↦ rw (e, f) (record { flag = refl; count = omega arith })
      | inr f ↦ rw (e, f) (record { flag = refl; count = omega arith })
    ]
    | inr e ↦ rw e (record { flag = refl; count = omega arith })
  ]

  recovered-IsTold :
      s.trips < 2 ^ 64
      → IsTold s (record s { tripped = false }) (if s.tripped then release_estop else [])
  unfolding release_estop
  recovered-IsTold h = elim (Bool-cases s.tripped) [
    | inl e ↦ rw e (record { flag = refl; count = omega arith })
    | inr e ↦ rw e (record { flag = refl; count = omega arith })
  ]

  pub monitor_round-IsTold :
      s.trips < 2 ^ 64 → IsTold s (monitor_round c bytes s r).0 (monitor_round c bytes s r).1
  unfolding monitor_round
  monitor_round-IsTold h = elim (Bool-cases r.stop) [
    | inl e ↦ rw e (recovered-IsTold h)
    | inr e ↦ elim (Bool-cases (ltb c.heartbeat_timeout_ms (age_ms r.now_ms r.heartbeat))) [
      | inl f ↦ rw (e, f) (on_silent-IsTold h)
      | inr f ↦ rw (e, f) (recovered-IsTold h)
    ]
  ]

  on_silent-forces :
      ((commands (on_silent c bytes s r).1 ≡ bytes ∷ [])
        × ((on_silent c bytes s r).0.last_force_at ≡ r.forced_at))
      ⊎ ((r.checked_at - s.last_force_at < c.reassert_interval_ms)
          × (commands (on_silent c bytes s r).1 ≡ [])
          × ((on_silent c bytes s r).0.last_force_at ≡ s.last_force_at))
  unfolding on_silent intervene publish_status reassert_zeros
  on_silent-forces = elim (Bool-cases s.tripped) [
    | inl e ↦ elim (Bool-cases (leb c.reassert_interval_ms (r.checked_at - s.last_force_at))) [
      | inl f ↦ inl (rw (e, f) (refl, refl))
      | inr f ↦ inr (ground arith, rw (e, f) refl, rw (e, f) refl)
    ]
    | inr e ↦ inl (rw e (refl, refl))
  ]

  on_silent-tripped : (on_silent c bytes s r).0.tripped ≡ true
  unfolding on_silent intervene publish_status reassert_zeros
  on_silent-tripped = elim (Bool-cases s.tripped) [
    | inl e ↦ elim (Bool-cases (leb c.reassert_interval_ms (r.checked_at - s.last_force_at))) [
      | inl f ↦ rw (e, f) refl
      | inr f ↦ rw (e, f) refl
    ]
    | inr e ↦ rw e refl
  ]

  pub silent_round :
      r.stop ≡ false
      → c.heartbeat_timeout_ms < age_ms r.now_ms r.heartbeat
      → let out = monitor_round c bytes s r in
        (out.2 ≡ true)
        × (out.0.tripped ≡ true)
        × (((commands out.1 ≡ bytes ∷ []) × (out.0.last_force_at ≡ r.forced_at))
            ⊎ ((r.checked_at - s.last_force_at < c.reassert_interval_ms)
                × (commands out.1 ≡ [])
                × (out.0.last_force_at ≡ s.last_force_at)))
  unfolding monitor_round
  silent_round e f = rw (e, lt→ltb _ _ f) (refl, on_silent-tripped, on_silent-forces)

  recovered-commands : commands (if s.tripped then release_estop else []) ≡ []
  unfolding release_estop
  recovered-commands = elim (Bool-cases s.tripped) [ inl e ↦ rw e refl | inr e ↦ rw e refl ]

  round-commands : All (λ b. b ≡ bytes) (commands (monitor_round c bytes s r).1)
  unfolding monitor_round
  round-commands = elim (Bool-cases r.stop) [
    | inl e ↦ rw (e, recovered-commands) tt
    | inr e ↦ elim (Bool-cases (ltb c.heartbeat_timeout_ms (age_ms r.now_ms r.heartbeat))) [
      | inl f ↦
          rw (e, f)
            (elim on_silent-forces [ inl (h, _) ↦ rw h (refl, tt) | inr (_, h, _) ↦ rw h tt ])
      | inr f ↦ rw (e, f, recovered-commands) tt
    ]
  ]

module _ (c : WatchdogConfig) (bytes : List ℕ) where
  -- All that the watchdog ever commands are the bytes that it made at its start.
  pub monitor_loop-commands :
      (s : WatchdogState) (rs : List Round)
      → All (λ b. b ≡ bytes) (commands (monitor_loop c bytes s rs).1)
  unfolding monitor_loop
  monitor_loop-commands s [] = tt
  monitor_loop-commands s (r ∷ rs) =
      let (t, ms, more) = monitor_round c bytes s r in
      elim (Bool-cases more) [
        | inl e ↦
            rw (e, commands-append ms (monitor_loop c bytes t rs).1)
              (All-append (λ b. b ≡ bytes) (commands ms) _ (round-commands c bytes s r)
                (monitor_loop-commands t rs))
        | inr e ↦ rw e (round-commands c bytes s r)
      ]

  pub IsTold-trans :
      (s t u : WatchdogState) (xs ys : List Message)
      → IsTold s t xs
      → IsTold t u ys
      → IsTold s u (xs ++ ys)
  IsTold-trans s t u xs ys h k = record {
    flag = latch-append s.tripped xs ys ∙ rw h.flag k.flag;
    count = rw (k.count, h.count) (omega (arith, raised-append xs ys));
  }

  -- A subscriber that follows the estop messages holds the watchdog's flag, and the counter of trips
  -- counts the estops that were raised, up to the wrap of `u64`.
  pub monitor_loop-IsTold :
      (s : WatchdogState) (rs : List Round)
      → s.trips < 2 ^ 64
      → IsTold s (monitor_loop c bytes s rs).0 (monitor_loop c bytes s rs).1
  unfolding monitor_loop
  monitor_loop-IsTold s [] h = record { flag = refl; count = omega arith }
  monitor_loop-IsTold s (r ∷ rs) h =
      let (t, ms, more) = monitor_round c bytes s r in
      let told = monitor_round-IsTold c bytes s r h in
      elim (Bool-cases more) [
        | inl e ↦
            rw e
              (IsTold-trans s t _ ms _ told (monitor_loop-IsTold t rs (omega (arith, told.count))))
        | inr e ↦ rw e told
      ]
