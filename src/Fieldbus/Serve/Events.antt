-- ===== src/Fieldbus/Serve/Events.antt =====
-- What each event of a connection does.
use sonny.Prelude.{
  subst, ℕ, suc, ◌≡◌, ◌⊎◌, refl, sym, Bool, true, false, ◌||◌, List, [], ◌∷◌, ◌++◌, All, some, ◌==◌,
  arith, length, take, Bool-cases, inl, inr,
}
use sonny.Vectors.{CommandVector, IsValid, zeros}
use sonny.Vectors.Valid.{zeros-IsValid}
use sonny.JerkLimiter.Bounds.{InRange}
use sonny.Adapters.{BrandAdapter}
use sonny.Fieldbus.{FieldbusConfig, Output, sent, status, Run, done}
use sonny.Fieldbus.Command.{clamp_command-InRange}
use sonny.Fieldbus.Drain.{drain_frames-IsDrained}
use sonny.Fieldbus.Loop.{
  received, command, estop, poll_tick, LoopState, is_active, same, command_buffer, send, on_command,
  on_estop, on_poll, on_received, on_event, polls,
}
use sonny.Fieldbus.Serve.Outputs.{IsServing, IsTotal, IsSafeOutput, TellsAll, drain_frames-TellsAll}

module _ (adapter : BrandAdapter) (config : FieldbusConfig)
    (total : IsTotal adapter config.joint_count) where
  -- An event's outcome: the loop stands ready, with the stop that the event leaves.
  abbrev pub Served : Bool → LoopState adapter × List Output × Bool → Type 0
  Served stop out =
      IsServing adapter config out.0
      × (out.0.estop_active ≡ stop)
      × All (IsSafeOutput adapter config) out.1

  abbrev pub Serves : Bool → Bool → Run (LoopState adapter × List Output × Bool) → Type 0
  Serves stop more run =
      (t : LoopState adapter) × (published : List Output) × (run ≡ done (t, published, more))
      × Served stop (t, published, more)

  send-Serves :
      (s : LoopState adapter) (cmd : CommandVector) (out : List ℕ)
      → IsServing adapter config s
      → IsValid cmd
      → InRange config.joint_limits_rad cmd ⊎ (cmd ≡ zeros config.joint_count)
      → (r : List ℕ × ℕ) × (send adapter config s (adapter.encode_command cmd out)
          ≡ some (record s { cmd_buf = r.0 }, sent (take r.1 r.0) ∷ [], true))
        × Served s.estop_active (record s { cmd_buf = r.0 }, sent (take r.1 r.0) ∷ [], true)
  unfolding send
  send-Serves s cmd out ready v safe =
      let (r, runs, _) = total.encodes cmd out v in
      (
        r,
        rw runs refl,
        (
          record { frames = ready.frames; state = ready.state; pipeline = ready.pipeline },
          refl,
          (
            record {
              cmd = cmd;
              valid = v;
              safe = safe;
              out = out;
              encoded = r;
              runs = runs;
              frame = refl;
            },
            tt,
          ),
        ),
      )

  same-eq : (a b : Bool) → same a b ≡ true → b ≡ a
  same-eq a b h = ground arith

  pub command-Serves :
      (s : LoopState adapter) (elapsed : ℕ) (bytes : List ℕ)
      → IsServing adapter config s
      → Serves s.estop_active true (on_event adapter config s (command elapsed bytes))
  unfolding on_event on_command
  command-Serves s elapsed bytes ready = elim (Bool-cases (s.estop_active || (length bytes == 0))) [
    | inl e ↦ (s, [], rw e refl, (ready, refl, tt))
    | inr e ↦
        let ((p, cmd), clamps, (ready', v, _, range)) =
          clamp_command-InRange elapsed config.joint_limits_rad s.pipeline bytes ready.pipeline in
        let t = record s { pipeline = p } in
        let (r, runs, served) =
          send-Serves t cmd (command_buffer adapter config t)
            (record { frames = ready.frames; state = ready.state; pipeline = ready' }) v
            (inl range) in
        (
          record t { cmd_buf = r.0 },
          sent (take r.1 r.0) ∷ [],
          rw (on_command, e, clamps, runs) refl,
          served,
        )
  ]

  pub estop-Serves :
      (s : LoopState adapter) (bytes : List ℕ)
      → IsServing adapter config s
      → Serves (is_active bytes) true (on_event adapter config s (estop bytes))
  unfolding on_event on_estop
  estop-Serves s bytes ready = elim (Bool-cases (same (is_active bytes) s.estop_active)) [
    | inl e ↦
        (s, [], rw (on_estop, e) refl, (ready, same-eq (is_active bytes) s.estop_active e, tt))
    | inr e ↦ elim (Bool-cases (is_active bytes)) [
      | inl on ↦
          let t = record s { estop_active = true } in
          let (r, runs, (later, stop, safe)) =
            send-Serves t (zeros config.joint_count) (command_buffer adapter config s)
              (record { frames = ready.frames; state = ready.state; pipeline = ready.pipeline })
              (zeros-IsValid config.joint_count) (inr refl) in
          (
            record t { cmd_buf = r.0 },
            sent (take r.1 r.0) ∷ status true s.receiver.frames true ∷ [],
            rw (on_estop, e, on, total.stops (command_buffer adapter config s), runs) refl,
            (later, sym on, (safe.0, (tt, tt))),
          )
      | inr off ↦ (
        record s { estop_active = false },
        status true s.receiver.frames false ∷ [],
        rw (on_estop, e, off) refl,
        (
          record { frames = ready.frames; state = ready.state; pipeline = ready.pipeline },
          sym off,
          (tt, tt),
        ),
      )
    ]
  ]

  pub received-Serves :
      (s : LoopState adapter) (now : ℕ) (bytes : List ℕ)
      → IsServing adapter config s
      → Serves s.estop_active true (on_event adapter config s (received now bytes))
  unfolding on_event on_received
  received-Serves s now bytes ready =
      let acc = s.receiver.acc ++ bytes in
      let (r, published, runs, drained) =
        drain_frames-IsDrained adapter config.joint_count (λ _. Unit {0}) (suc (length acc)) now
          (record s.receiver { acc = acc }) total.decodes (omega arith) ready.frames ready.state
          tt in
      (
        record s { receiver = r },
        published,
        rw (on_received, runs) refl,
        (
          record {
            frames = omega (arith, drained.counted);
            state = drained.valid;
            pipeline = ready.pipeline;
          },
          refl,
          subst (TellsAll adapter config) runs (
              drain_frames-TellsAll adapter config (suc (length acc)) now
                (record s.receiver { acc = acc })),
        ),
      )

  pub poll-Serves :
      (s : LoopState adapter) (delivered : Bool)
      → IsServing adapter config s
      → Serves s.estop_active true (on_event adapter config s (poll_tick delivered))
  unfolding on_event on_poll
  poll-Serves s delivered ready = elim (Bool-cases (polls adapter config)) [
    | inl e ↦ (
      record s {
        receiver = record s.receiver { adapter_state = s.receiver.adapter_state };
        poll_buf = s.poll_buf;
      },
      [],
      rw (e, on_poll, total.quiet s.receiver.adapter_state s.poll_buf) refl,
      (ready, refl, tt),
    )
    | inr e ↦ (s, [], rw e refl, (ready, refl, tt))
  ]
