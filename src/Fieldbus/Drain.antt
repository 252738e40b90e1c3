-- ===== src/Fieldbus/Drain.antt =====
-- Whether the loop over the frames comes to its end.
use sonny.Prelude.{
  ℕ, zero, suc, ◌+◌, ◌^◌, ◌≤◌, ◌<◌, ◌≡◌, refl, ap, ◌∙◌, false, List, [], ◌∷◌, ◌++◌, Option, none,
  some, ltb, arith, inl, inr, Bool-cases, length, take, drop, drop-drop, length-drop, length-append,
  Returns,
}
use sonny.Health.{wrap64}
use sonny.Vectors.{StateVector, IsValidState, set_values, write_state}
use sonny.Vectors.Codec.{write_values_lem}
use sonny.Vectors.State.{set_values-IsValidState}
use sonny.Adapters.{BrandAdapter, Decoded}
use sonny.Fieldbus.{Output, telemetry, done, Receiver, take_message, drain_frames}

-- A message that is decoded consumes a byte at least, and no more than there are.
abbrev pub Consumes : List ℕ → Option Decoded → Type 0
Consumes acc none = Unit
Consumes acc (some (consumed, values, n)) =
    (0 < consumed) × (consumed ≤ length acc) × (n ≤ length values)

-- A decoder without panics, each of whose messages consumes bytes that are there. `Keeps` is what it
-- needs of its state.
abbrev pub IsProductive : (adapter : BrandAdapter) → ℕ → (adapter.State → Type 0) → Type 0
IsProductive adapter joint_count Keeps =
    (s : adapter.State) (acc : List ℕ)
    → Keeps s
    → Returns (λ out. Keeps out.0 × Consumes acc out.1) (adapter.decode_telemetry s acc joint_count)

write_state_runs :
    (s : StateVector) (out : List ℕ) → IsValidState s → Returns (λ _. Unit {0}) (write_state s out)
unfolding write_state
write_state_runs s out v =
    let (r, runs, _) = write_values_lem s.values s.len out (omega arith) in (r, runs, tt)

module _ (adapter : BrandAdapter) (joint_count : ℕ) where
  -- What the loop has done: it has taken bytes from the front, and counted what it has published.
  pub record Advances (r r' : Receiver adapter.State) (published : List Output) : Type 0 where
    pub taken : (k : ℕ) × (r'.acc ≡ drop k r.acc)
    pub counted : r'.frames ≡ wrap64 (r.frames + length published)
    pub valid : IsValidState r'.state
    pub adapter_state : r'.adapter_state ≡ r.adapter_state

  take_message-Advances :
      (now : ℕ) (r : Receiver adapter.State) (consumed : ℕ) (values : List ℕ) (n : ℕ)
      → r.frames < 2 ^ 64
      → IsValidState r.state
      → consumed ≤ length r.acc
      → n ≤ length values
      → Returns
          (λ out. Advances r out.0 out.1 × (out.0.acc ≡ drop consumed r.acc))
          (take_message adapter joint_count now r (consumed, values, n))
  unfolding take_message
  take_message-Advances now r consumed values n f v h k =
      let there : ltb (length r.acc) consumed ≡ false = ground arith in
      let fits : ltb (length values) n ≡ false = ground arith in
      let state = set_values now r.state (take n values) in
      let valid = set_values-IsValidState now r.state (take n values) v in
      let (out, runs, _) = write_state_runs state r.tx_buf valid in
      elim (Bool-cases (ltb 0 n)) [
        | inl e ↦ (
          (
            record r {
              acc = drop consumed r.acc;
              state = state;
              tx_buf = out.0;
              frames = wrap64 (r.frames + 1);
            },
            telemetry (take out.1 out.0) ∷ [],
          ),
          rw (there, e, fits, runs) refl,
          (
            record {
              taken = (consumed, refl);
              counted = refl;
              valid = valid;
              adapter_state = refl;
            },
            refl,
          ),
        )
        | inr e ↦ (
          (record r { acc = drop consumed r.acc }, []),
          rw (there, e) refl,
          (
            record {
              taken = (consumed, refl);
              counted = omega arith;
              valid = v;
              adapter_state = refl;
            },
            refl,
          ),
        )
      ]

module _ (adapter : BrandAdapter) (joint_count : ℕ) (Keeps : adapter.State → Type 0) where
  -- How the loop ends: bytes are taken from the front, the counter has grown by what is published, and
  -- what is left holds no whole message. Messages says what is published.
  pub record IsDrained (r r' : Receiver adapter.State) (published : List Output) : Type 0 where
    pub taken : (k : ℕ) × (r'.acc ≡ drop k r.acc)
    pub counted : r'.frames ≡ wrap64 (r.frames + length published)
    pub valid : IsValidState r'.state
    pub keeps : Keeps r'.adapter_state
    pub waits :
        (s : adapter.State) × (adapter.decode_telemetry s r'.acc joint_count
          ≡ some (r'.adapter_state, none))

  IsDrained-Advances :
      (r : Receiver adapter.State) (s : adapter.State) (t u : Receiver adapter.State)
      (xs ys : List Output)
      → Advances adapter joint_count (record r { adapter_state = s }) t xs
      → IsDrained t u ys
      → IsDrained r u (xs ++ ys)
  IsDrained-Advances r s t u xs ys a d =
      let (j, e) = a.taken in
      let (k, f) = d.taken in
      record {
        taken = (j + k, f ∙ ap (drop k) e ∙ drop-drop k j r.acc);
        counted = rw (d.counted, a.counted) (omega (arith, length-append xs ys));
        valid = d.valid;
        keeps = d.keeps;
        waits = d.waits;
      }

  abbrev Drains : ℕ → ℕ → Receiver adapter.State → Type 0
  Drains fuel now r =
      (r' : Receiver adapter.State) × (published : List Output) × (drain_frames adapter joint_count
          fuel now r
        ≡ done (r', published))
      × IsDrained r r' published

  -- One round, before a loop that drains every shorter accumulator.
  round-Drains :
      (fuel now : ℕ) (r : Receiver adapter.State) (s : adapter.State) (d : Option Decoded)
      → length r.acc < suc fuel
      → r.frames < 2 ^ 64
      → IsValidState r.state
      → adapter.decode_telemetry r.adapter_state r.acc joint_count ≡ some (s, d)
      → Keeps s
      → Consumes r.acc d
      → ((t : Receiver adapter.State)
          → length t.acc < fuel
          → t.frames < 2 ^ 64
          → IsValidState t.state
          → Keeps t.adapter_state
          → Drains fuel now t)
      → Drains (suc fuel) now r
  unfolding drain_frames
  round-Drains fuel now r s none h f v runs keeps c later = (
    record r { adapter_state = s },
    [],
    rw (drain_frames, runs) refl,
    record {
      taken = (0, refl);
      counted = omega arith;
      valid = v;
      keeps = keeps;
      waits = (r.adapter_state, runs);
    },
  )
  round-Drains fuel now r s (some (consumed, values, n)) h f v runs keeps (byte, there, fits)
        later =
      let q = record r { adapter_state = s } in
      let ((t, xs), runs', (a, e)) =
        take_message-Advances adapter joint_count now q consumed values n f v there fits in
      let (u, ys, runs'', d) =
        later t (omega (arith, ap length e, length-drop consumed r.acc)) (omega (arith, a.counted))
          a.valid (rw a.adapter_state keeps) in
      (
        u,
        xs ++ ys,
        rw (drain_frames, runs, runs', runs'') refl,
        IsDrained-Advances r s t u xs ys a d,
      )

  -- With a productive decoder the loop ends, without a panic: as many rounds as there are bytes, and
  -- one more, are enough.
  pub drain_frames-IsDrained :
      (fuel now : ℕ) (r : Receiver adapter.State)
      → IsProductive adapter joint_count Keeps
      → length r.acc < fuel
      → r.frames < 2 ^ 64
      → IsValidState r.state
      → Keeps r.adapter_state
      → (r' : Receiver adapter.State) × (published : List Output) × (drain_frames adapter
            joint_count fuel now r
          ≡ done (r', published))
        × IsDrained r r' published
  drain_frames-IsDrained zero now r p h f v k = absurd (omega arith)
  drain_frames-IsDrained (suc fuel) now r p h f v k =
      let ((s, d), runs, (keeps, c)) = p r.adapter_state r.acc k in
      round-Drains fuel now r s d h f v runs keeps c
        (λ t ht ft vt kt. drain_frames-IsDrained fuel now t p ht ft vt kt)
