-- ===== src/Watchdog/Zeros.antt =====
-- The bytes that the watchdog commands.
use sonny.Prelude.{
  ℕ, zero, suc, ◌*◌, ◌≤◌, ◌≡◌, refl, ap, ◌∙◌, ◌∷◌, some, min, replicate, take, arith,
  length-replicate,
}
use sonny.Float.{to_le_bytes}
use sonny.Vectors.{zeros}
use sonny.Vectors.Codec.{write_to-encode, encode}
use sonny.Vectors.Valid.{zeros-IsValid}
use sonny.Watchdog.{zero_bytes}

take-replicate : {A : Type 0} (k n : ℕ) (x : A) → k ≤ n → take k (replicate n x) ≡ replicate k x
take-replicate zero n x h = refl
take-replicate (suc k) zero x h = absurd (omega arith)
take-replicate (suc k) (suc n) x h = ap (x ∷◌) (take-replicate k n x (omega arith))

encode_zeros : (k : ℕ) → encode (replicate k 0) ≡ replicate (4 * k) 0
unfolding to_le_bytes
encode_zeros zero = refl
encode_zeros (suc k) =
    let count : suc (suc (suc (suc (4 * k)))) ≡ 4 * suc k = omega arith in
    ap (λ xs. 0 ∷ 0 ∷ 0 ∷ 0 ∷ xs) (encode_zeros k) ∙ ap (λ n. replicate n 0) count

-- The bytes are made without a panic: four zeros for each joint, up to 32 joints.
pub zero_bytes_lem :
    (joint_count : ℕ) → zero_bytes joint_count ≡ some (replicate (4 * min joint_count 32) 0)
unfolding zero_bytes zeros
zero_bytes_lem n =
    let (r, runs, bytes) =
      write_to-encode (zeros n) (replicate 128 0) (zeros-IsValid n)
        (omega (arith, length-replicate {A = ℕ} 128 0)) in
    rw (runs) (
      ap some (
        bytes ∙ ap encode (take-replicate (min n 32) 32 0 (omega arith)) ∙ encode_zeros (min n 32)))
