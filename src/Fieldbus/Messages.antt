-- ===== src/Fieldbus/Messages.antt =====
-- What the loop over the frames publishes, message by message.
use sonny.Prelude.{
  ℕ, zero, suc, ◌+◌, ◌^◌, ◌≤◌, ◌<◌, ◌≡◌, refl, ◌∙◌, true, false, List, [], ◌∷◌, Option, none, some,
  ltb, arith, min, inl, inr, lt_or_le, map, length, take, take_all, drop, length-drop, length-take,
  Returns,
}
use sonny.Float.{F32}
use sonny.Health.{wrap64}
use sonny.Vectors.{StateVector, IsValidState, set_values, write_state}
use sonny.Vectors.Codec.{encode}
use sonny.Vectors.State.{set_values-IsValidState, write_state-set_values}
use sonny.Adapters.{BrandAdapter, Decoded}
use sonny.Fieldbus.{telemetry, done, Receiver, take_message, drain_frames}
use sonny.Fieldbus.Drain.{Consumes, IsProductive}

-- Of more than 32 values the state keeps the first 32.
set_values-take :
    (now : ℕ) (s : StateVector) (values : List F32)
    → set_values now s values ≡ set_values now s (take 32 values)
unfolding set_values
set_values-take now s values = elim (lt_or_le (length values) 32) [
  | inl few ↦
      let same : take 32 values ≡ values = take_all values 32 (omega (arith, few)) in rw same refl
  | inr many ↦
      let size : length (take 32 values) ≡ 32 = omega (arith, length-take 32 values, many) in
      let cut : take 32 (take 32 values) ≡ take 32 values =
        take_all (take 32 values) 32 (omega (arith, size)) in
      let least : min (length values) 32 ≡ 32 = omega (arith, many) in rw (size, least, cut) refl
]

writes :
    (now : ℕ) (s : StateVector) (values : List F32) (out : List ℕ)
    → IsValidState s
    → 128 ≤ length out
    → Returns
        (λ r. (take r.1 r.0 ≡ encode (take 32 values)) × (length r.0 ≡ length out))
        (write_state (set_values now s values) out)
writes now s values out v room = rw (set_values-take now s values) (
    write_state-set_values now s (take 32 values) out v (omega (arith, length-take 32 values)) room)

module _ (adapter : BrandAdapter) (joint_count : ℕ) where
  -- What the decoder finds in an accumulator, one message after the other, each at the front of what
  -- those before have left: the values of the messages that hold some, up to 32 of each, and the state
  -- and the bytes at which it waits for more.
  pub data Finds : adapter.State → List ℕ → List (List F32) → adapter.State → List ℕ → Type 0 where
    waits :
        {s t : adapter.State} {acc : List ℕ}
        → adapter.decode_telemetry s acc joint_count ≡ some (t, none)
        → Finds s acc [] t acc
    skips :
        {s t u : adapter.State} {acc left : List ℕ} {messages : List (List F32)}
        → (consumed : ℕ) (values : List F32)
        → adapter.decode_telemetry s acc joint_count ≡ some (t, some (consumed, values, 0))
        → Finds t (drop consumed acc) messages u left
        → Finds s acc messages u left
    reads :
        {s t u : adapter.State} {acc left : List ℕ} {messages : List (List F32)}
        → (consumed : ℕ) (values : List F32) (n : ℕ)
        → adapter.decode_telemetry s acc joint_count ≡ some (t, some (consumed, values, n))
        → 0 < n
        → Finds t (drop consumed acc) messages u left
        → Finds s acc (take 32 (take n values) ∷ messages) u left

  -- A message with values is published as the bytes of its values.
  take_message-publishes :
      (now : ℕ) (r : Receiver adapter.State) (consumed : ℕ) (values : List F32) (n : ℕ)
      → IsValidState r.state
      → 128 ≤ length r.tx_buf
      → consumed ≤ length r.acc
      → n ≤ length values
      → 0 < n
      → (tx : List ℕ) × (take_message adapter joint_count now r (consumed, values, n)
          ≡ some (
            record r {
              acc = drop consumed r.acc;
              state = set_values now r.state (take n values);
              tx_buf = tx;
              frames = wrap64 (r.frames + 1);
            },
            telemetry (encode (take 32 (take n values))) ∷ [],
          ))
        × (length tx ≡ length r.tx_buf)
  unfolding take_message
  take_message-publishes now r consumed values n v room h k some_values =
      let there : ltb (length r.acc) consumed ≡ false = ground arith in
      let fits : ltb (length values) n ≡ false = ground arith in
      let full : ltb 0 n ≡ true = ground arith in
      let (out, runs, (bytes, size)) = writes now r.state (take n values) r.tx_buf v room in
      (out.0, rw (there, full, fits, runs, bytes) refl, size)

  take_message-skips :
      (now : ℕ) (r : Receiver adapter.State) (consumed : ℕ) (values : List F32)
      → consumed ≤ length r.acc
      → take_message adapter joint_count now r (consumed, values, 0)
        ≡ some (record r { acc = drop consumed r.acc }, [])
  unfolding take_message
  take_message-skips now r consumed values h =
      let there : ltb (length r.acc) consumed ≡ false = ground arith in rw there refl

module _ (adapter : BrandAdapter) (joint_count : ℕ) (Keeps : adapter.State → Type 0) where
  abbrev Publishes : ℕ → ℕ → Receiver adapter.State → Type 0
  Publishes fuel now r =
      (r' : Receiver adapter.State) × (messages : List (List F32)) × Finds adapter joint_count
        r.adapter_state r.acc messages r'.adapter_state r'.acc
      × (drain_frames adapter joint_count fuel now r
          ≡ done (r', map (λ vs. telemetry (encode vs)) messages))
      × (r'.frames ≡ wrap64 (r.frames + length messages))

  -- One round, before a loop that does so for every shorter accumulator.
  round-Publishes :
      (fuel now : ℕ) (r : Receiver adapter.State) (s : adapter.State) (d : Option Decoded)
      → length r.acc < suc fuel
      → r.frames < 2 ^ 64
      → IsValidState r.state
      → 128 ≤ length r.tx_buf
      → adapter.decode_telemetry r.adapter_state r.acc joint_count ≡ some (s, d)
      → Keeps s
      → Consumes r.acc d
      → ((t : Receiver adapter.State)
          → length t.acc < fuel
          → t.frames < 2 ^ 64
          → IsValidState t.state
          → 128 ≤ length t.tx_buf
          → Keeps t.adapter_state
          → Publishes fuel now t)
      → Publishes (suc fuel) now r
  unfolding drain_frames
  round-Publishes fuel now r s none h f v room runs keeps c later =
      (record r { adapter_state = s }, [], waits runs, rw (drain_frames, runs) refl, omega arith)
  round-Publishes fuel now r s (some (consumed, values, zero)) h f v room runs keeps
        (byte, there, fits) later =
      let q = record r { adapter_state = s } in
      let (u, messages, finds, runs', count) =
        later (record q { acc = drop consumed r.acc }) (omega (arith, length-drop consumed r.acc)) f
          v room keeps in
      (
        u,
        messages,
        skips consumed values runs finds,
        rw
            (
              drain_frames,
              runs,
              take_message-skips adapter joint_count now q consumed values there,
              runs',
            )
            refl,
        count,
      )
  round-Publishes fuel now r s (some (consumed, values, suc n)) h f v room runs keeps
        (byte, there, fits) later =
      let q = record r { adapter_state = s } in
      let (tx, runs', size) =
        take_message-publishes adapter joint_count now q consumed values (suc n) v room there fits
          (omega arith) in
      let t = record q {
        acc = drop consumed r.acc;
        state = set_values now r.state (take (suc n) values);
        tx_buf = tx;
        frames = wrap64 (r.frames + 1);
      } in
      let (u, messages, finds, runs'', count) =
        later t (omega (arith, length-drop consumed r.acc)) (omega arith)
          (set_values-IsValidState now r.state (take (suc n) values) v) (omega (arith, size))
          keeps in
      (
        u,
        take 32 (take (suc n) values) ∷ messages,
        reads consumed values (suc n) runs (omega arith) finds,
        rw (drain_frames, runs, runs', runs'') refl,
        count ∙ omega arith,
      )

  -- With a decoder that does not panic, and each of whose messages consumes bytes that are there,
  -- and with a telemetry buffer of at least 128 bytes, the loop ends without a panic, in as many
  -- rounds as there are bytes and one more. It publishes exactly the messages that the decoder
  -- finds one after the other, in their order, each with the bytes of its values, up to 32, where
  -- it has any; it adds their number to the counter, modulo 2^64, and stops where the decoder waits
  -- for more.
  pub drain_frames-messages :
      (fuel now : ℕ) (r : Receiver adapter.State)
      → IsProductive adapter joint_count Keeps
      → length r.acc < fuel
      → r.frames < 2 ^ 64
      → IsValidState r.state
      → 128 ≤ length r.tx_buf
      → Keeps r.adapter_state
      → (r' : Receiver adapter.State) × (messages : List (List F32)) × Finds adapter joint_count
          r.adapter_state r.acc messages r'.adapter_state r'.acc
        × (drain_frames adapter joint_count fuel now r
            ≡ done (r', map (λ vs. telemetry (encode vs)) messages))
        × (r'.frames ≡ wrap64 (r.frames + length messages))
  drain_frames-messages zero now r p h f v room k = absurd (omega arith)
  drain_frames-messages (suc fuel) now r p h f v room k =
      let ((s, d), runs, (keeps, c)) = p r.adapter_state r.acc k in
      round-Publishes fuel now r s d h f v room runs keeps c
        (λ t ht ft vt rt kt. drain_frames-messages fuel now t p ht ft vt rt kt)
