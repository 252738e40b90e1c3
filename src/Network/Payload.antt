-- ===== src/Network/Payload.antt =====
-- What a receiver makes of a state that is sent.
use sonny.Prelude.{
  ℕ, ◌≡◌, ◌≤◌, refl, ap, ◌∙◌, List, All, some, arith, length, take, replicate, length-replicate,
  Returns,
}
use sonny.Vectors.{StateVector, IsValidState, set_values, from_bytes, as_slice}
use sonny.Vectors.Codec.{IsWord, from_bytes-encode}
use sonny.Vectors.State
use sonny.Network.{put_state}

-- A state that took up to 32 values is sent under its topic without a panic, and who reads the payload
-- as a vector has these values, bit for bit.
pub put_state-from_bytes :
    (topic : List ℕ) (now : ℕ) (s : StateVector) (values : List ℕ)
    → IsValidState s
    → length values ≤ 32
    → All IsWord values
    → Returns
        (λ p. (p.0 ≡ topic) × (as_slice (from_bytes p.1) ≡ some values))
        (put_state topic (set_values now s values))
unfolding put_state
put_state-from_bytes topic now s values v h words =
    let (r, runs, (bytes, _)) =
      State.write_state-set_values now s values (replicate 128 0) v h
        (omega (arith, length-replicate {A = ℕ} 128 0)) in
    (
      (topic, take r.1 r.0),
      rw runs refl,
      (refl, ap (λ b. as_slice (from_bytes b)) bytes ∙ from_bytes-encode values h words),
    )
