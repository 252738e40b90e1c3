-- ===== src/Fieldbus/Serve/Outputs.antt =====
-- What the loops ask of an adapter, and what may leave them.
use sonny.Prelude.{
  subst, Option-cases, ℕ, zero, suc, ◌^◌, ◌<◌, ◌≡◌, ◌⊎◌, Bool, List, [], ◌∷◌, ◌++◌, All, All-append,
  Option, none, some, ltb, length, take, Bool-cases, inl, inr,
}
use sonny.Vectors.{CommandVector, IsValid, IsValidState, zeros, set_values, write_state}
use sonny.JerkLimiter.Bounds.{InRange}
use sonny.Adapters.{BrandAdapter, Decoded}
use sonny.Adapters.Encode.{IsEncoder}
use sonny.Fieldbus.{
  FieldbusConfig, Output, telemetry, sent, status, Run, done, panicked, unfinished, Receiver,
  take_message, drain_frames,
}
use sonny.Fieldbus.Command.{IsReady}
use sonny.Fieldbus.Drain.{IsProductive}
use sonny.Fieldbus.Loop.{Event, received, closed, command, estop, poll_tick, LoopState, is_active}

-- What the loops ask of an adapter: it decodes and encodes without a panic, a stop is the command of
-- zeros, and it requests nothing.
pub record IsTotal (adapter : BrandAdapter) (joint_count : ℕ) : Type 0 where
  pub decodes : IsProductive adapter joint_count (λ _. Unit {0})
  pub encodes : IsEncoder adapter.encode_command
  pub stops :
      (out : List ℕ)
      → adapter.encode_estop joint_count out ≡ adapter.encode_command (zeros joint_count) out
  pub quiet : (s : adapter.State) (out : List ℕ) → adapter.poll_request s out ≡ some (s, out, 0)

-- The stop that a subscriber holds after the events, up to one that ends the connection.
abbrev pub stop_after : Bool → List Event → Bool
stop_after b [] = b
stop_after b (received _ _ ∷ es) = stop_after b es
stop_after b (closed ∷ es) = b
stop_after b (command _ _ ∷ es) = stop_after b es
stop_after b (estop bytes ∷ es) = stop_after (is_active bytes) es
stop_after b (poll_tick _ ∷ es) = stop_after b es

-- Bytes that leave for the robot are an encoded command within its limits, or the zeros of a stop.
pub record IsSafeFrame (adapter : BrandAdapter) (config : FieldbusConfig) (bytes : List ℕ)
    : Type 0 where
  pub cmd : CommandVector
  pub valid : IsValid cmd
  pub safe : InRange config.joint_limits_rad cmd ⊎ (cmd ≡ zeros config.joint_count)
  pub out : List ℕ
  pub encoded : List ℕ × ℕ
  pub runs : adapter.encode_command cmd out ≡ some encoded
  pub frame : bytes ≡ take encoded.1 encoded.0

abbrev pub IsSafeOutput : (adapter : BrandAdapter) → FieldbusConfig → Output → Type 0
IsSafeOutput adapter config (telemetry _) = Unit
IsSafeOutput adapter config (status _ _ _) = Unit
IsSafeOutput adapter config (sent bytes) = IsSafeFrame adapter config bytes

-- The state of a loop between two events.
pub record IsServing (adapter : BrandAdapter) (config : FieldbusConfig) (s : LoopState adapter)
    : Type 0 where
  pub frames : s.receiver.frames < 2 ^ 64
  pub state : IsValidState s.receiver.state
  pub pipeline : IsReady config.joint_limits_rad s.pipeline

-- The loop over the frames publishes telemetry and nothing else.
module _ (adapter : BrandAdapter) (config : FieldbusConfig) where
  abbrev Tells : Option (Receiver adapter.State × List Output) → Type 0
  Tells none = Unit
  Tells (some (t, published)) = All (IsSafeOutput adapter config) published

  take_message-Tells :
      (now : ℕ) (r : Receiver adapter.State) (d : Decoded)
      → Tells (take_message adapter config.joint_count now r d)
  unfolding take_message
  take_message-Tells now r (consumed, values, n) = elim (Bool-cases (ltb (length r.acc) consumed)) [
    | inl past ↦ rw past tt
    | inr fits ↦ elim (Bool-cases (ltb 0 n)) [
      | inr empty ↦ rw (fits, empty) tt
      | inl some_values ↦ elim (Bool-cases (ltb (length values) n)) [
        | inl short ↦ rw (fits, some_values, short) tt
        | inr enough ↦
            elim (Option-cases (write_state (set_values now r.state (take n values)) r.tx_buf)) [
              | inl panics ↦ rw (fits, some_values, enough, panics) tt
              | inr (out, writes) ↦ rw (fits, some_values, enough, writes) (tt, tt)
            ]
      ]
    ]
  ]

  abbrev pub TellsAll : Run (Receiver adapter.State × List Output) → Type 0
  TellsAll (done (t, published)) = All (IsSafeOutput adapter config) published
  TellsAll panicked = Unit
  TellsAll unfinished = Unit

  then-TellsAll :
      (run : Run (Receiver adapter.State × List Output)) (published : List Output)
      → All (IsSafeOutput adapter config) published
      → TellsAll run
      → TellsAll (elim run [
        | done (last, later) ↦ done (last, published ++ later)
        | panicked ↦ panicked
        | unfinished ↦ unfinished
      ])
  then-TellsAll (done (last, later)) published h k =
      All-append (IsSafeOutput adapter config) published later h k
  then-TellsAll panicked published h k = tt
  then-TellsAll unfinished published h k = tt

  pub drain_frames-TellsAll :
      (fuel now : ℕ) (r : Receiver adapter.State)
      → TellsAll (drain_frames adapter config.joint_count fuel now r)
  unfolding drain_frames
  drain_frames-TellsAll zero now r = tt
  drain_frames-TellsAll (suc fuel) now r =
      elim (Option-cases (adapter.decode_telemetry r.adapter_state r.acc config.joint_count)) [
        | inl panics ↦ rw (drain_frames, panics) tt
        | inr ((s, none), waits) ↦ rw (drain_frames, waits) tt
        | inr ((s, some d), decodes) ↦
            elim (Option-cases
              (take_message adapter config.joint_count now (record r { adapter_state = s }) d)) [
                | inl panics ↦ rw (drain_frames, decodes, panics) tt
                | inr ((t, published), takes) ↦
                    rw (drain_frames, decodes, takes)
                      (then-TellsAll (drain_frames adapter config.joint_count fuel now t) published
                        (subst Tells takes
                          (take_message-Tells now (record r { adapter_state = s }) d))
                        (drain_frames-TellsAll fuel now t))
              ]
      ]
