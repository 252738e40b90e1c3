-- ===== src/Mock/Runs.antt =====
-- The turns of the loop keep its state ready, and do not panic.
use sonny.Prelude.{
  ℕ, ◌*◌, ◌≡◌, refl, ap, ◌∙◌, Bool, true, false, not, List, [], ◌∷◌, ◌++◌, All, All-append, some,
  ◌>>=◌, if◌then◌else◌, arith, length, take, length-take, Returns, Bool-cases, inl, inr, ◌==◌, ◌%◌,
  ◌&&◌, length-overwrite,
}
use sonny.Float.{F64}
use sonny.Vectors.{from_bytes}
use sonny.Vectors.Codec.{length-encode, as_slice-IsValid}
use sonny.Vectors.Valid.{from_bytes-IsValid}
use sonny.Fieldbus.Loop.{is_active, same}
use sonny.Mock.{MockState, Output, count_frame, start, on_tick, on_command, on_estop, assign}
use sonny.Mock.Loop.{Event, tick_due, commanded, stopped, missed, turn, run_simulated_loop}
use sonny.Mock.Ready.{IsReady, active, IsWhole, measure_lem, count_frame_lem, simulate-IsReady}

-- What a turn leaves: a state that is ready, and messages that are whole.
abbrev pub Goes : ℕ → MockState × List Output × Bool → Type 0
Goes joint_count out = IsReady out.0 × All (IsWhole joint_count) out.1

module _ (sin : F64 → F64) (joint_count : ℕ) where
  on_tick-Goes :
      (now : ℕ) (sent told : Bool) (s : MockState)
      → IsReady s
      → Returns (Goes joint_count) (on_tick sin joint_count now sent told s)
  unfolding on_tick
  on_tick-Goes now sent told s r =
      let (t, runs, rt) = simulate-IsReady sin (active joint_count) s (omega arith) r in
      let (out, runs', (ro, bytes, _, _, _, _)) = measure_lem sin joint_count now s t runs rt in
      let size : length out.1 ≡ 4 * active joint_count = omega (
        arith,
        ap length bytes,
        length-encode (take (active joint_count) t.values),
        length-take (active joint_count) t.values,
        rt.values,
      ) in
      (
        count_frame sent told out.0 out.1,
        rw runs' refl,
        count_frame_lem IsReady (IsWhole joint_count)
            (λ s f k r. record {
              targets = r.targets;
              current = r.current;
              values = r.values;
              state = r.state;
              buffer = r.buffer;
            })
            (λ f e. tt) sent told out.0 out.1 ro size,
      )

  on_command-IsReady :
      (bytes : List ℕ) (s : MockState) → IsReady s → Returns IsReady (on_command bytes s)
  unfolding on_command assign
  on_command-IsReady bytes s r = elim (Bool-cases (not s.estop && (length bytes % 4 == 0))) [
    | inl e ↦
        let values = as_slice-IsValid (from_bytes bytes) (from_bytes-IsValid bytes) in
        let vs = take (from_bytes bytes).len (from_bytes bytes).target_actuators in
        (
          record s { command_received = true; targets = assign s.targets vs },
          rw (e, values) refl,
          record {
            targets =
                length-overwrite s.targets 0 (take (length s.targets) vs)
                  (omega (arith, length-take (length s.targets) vs))
                ∙ r.targets;
            current = r.current;
            values = r.values;
            state = r.state;
            buffer = r.buffer;
          },
        )
    | inr e ↦ (s, rw e refl, r)
  ]

  on_estop-Goes :
      (bytes : List ℕ) (told : Bool) (s : MockState)
      → IsReady s
      → Goes joint_count (on_estop bytes told s)
  unfolding on_estop
  on_estop-Goes bytes told s r = elim (Bool-cases (same (is_active bytes) s.estop)) [
    | inl e ↦ rw e (r, tt)
    | inr e ↦ rw e (
      record {
        targets = refl;
        current = refl;
        values = r.values;
        state = r.state;
        buffer = r.buffer;
      },
      (tt, tt),
    )
  ]

  turn-Goes :
      (s : MockState) (e : Event)
      → IsReady s
      → Returns (Goes joint_count) (turn sin joint_count s e)
  unfolding turn
  turn-Goes s (tick_due now sent told) r = on_tick-Goes now sent told s r
  turn-Goes s (commanded bytes) r =
      let (t, runs, rt) = on_command-IsReady bytes s r in ((t, [], true), rw runs refl, (rt, tt))
  turn-Goes s (stopped bytes told) r = (on_estop bytes told s, refl, on_estop-Goes bytes told s r)
  turn-Goes s missed r = ((s, [], true), refl, (r, tt))

  -- A turn and the run after it, if there is one.
  pub run-turn {ℓ κ} :
      (P R : MockState → Type ℓ) (Q : Output → Type κ) (s : MockState) (e : Event) (es : List Event)
      → ((t : MockState) → P t → R t)
      → Returns
          (λ (out : MockState × List Output × Bool). P out.0 × All Q out.1)
          (turn sin joint_count s e)
      → ((t : MockState)
          → P t
          → Returns
              (λ (out : MockState × List Output). R out.0 × All Q out.1)
              (run_simulated_loop sin joint_count t es))
      → Returns
          (λ (out : MockState × List Output). R out.0 × All Q out.1)
          (run_simulated_loop sin joint_count s (e ∷ es))
  unfolding run_simulated_loop
  run-turn P R Q s e es ends ((t, out, on), runs, (p, q)) later = rw runs (go on)
    where
      go :
          (on : Bool)
          → Returns
              (λ (out : MockState × List Output). R out.0 × All Q out.1)
              (if on
                then (do
                  rest ← run_simulated_loop sin joint_count t es
                  some (rest.0, out ++ rest.1))
                else some (t, out))
      go false = ((t, out), refl, (ends t p, q))
      go true =
          let (rest, runs', (p', q')) = later t p in
          ((rest.0, out ++ rest.1), rw runs' refl, (p', All-append Q out rest.1 q q'))

  -- Whatever happens to a mock that is ready, it does not panic, stays ready, and all its telemetry has
  -- four bytes for each joint, up to 32 joints.
  pub run_simulated_loop-IsReady :
      (s : MockState) (es : List Event)
      → IsReady s
      → Returns
          (λ out. IsReady out.0 × All (IsWhole joint_count) out.1)
          (run_simulated_loop sin joint_count s es)
  unfolding run_simulated_loop
  run_simulated_loop-IsReady s [] r = ((s, []), refl, (r, tt))
  run_simulated_loop-IsReady s (e ∷ es) r =
      run-turn IsReady IsReady (IsWhole joint_count) s e es (λ t r. r) (turn-Goes s e r)
        (λ t rt. run_simulated_loop-IsReady t es rt)

pub start-IsReady : (now : ℕ) (hardware_id : List ℕ) → IsReady (start now hardware_id)
unfolding start
start-IsReady now hardware_id = record {
  targets = refl;
  current = refl;
  values = refl;
  state = record { array = refl; active = omega arith };
  buffer = refl;
}
