-- ===== src/Vectors/Codec.antt =====
-- The one binary format of telemetry and commands: what `write_to` writes, what `from_bytes` reads,
-- and that the two are inverse.
use mathlib.Core.Path.{ap₂}
use mathlib.Core.List.{append_assoc, append-nil}
use native.Mathlib.Numerals.{add-one}
use sonny.Prelude.{
  true, false, All-take, All, take-set, drop-drop, take-suc, sym, ℕ, suc, ◌+◌, ◌*◌, ◌/◌, ◌≤◌, ◌<◌,
  ◌≡◌, refl, ap, ◌∙◌, List, [], ◌∷◌, ◌++◌, some, arith, min, leb, length, get_or, set, take, drop,
  length-append, length-take, length-drop, length-set, get_elem?-eq-get_or, overwrite,
  copy_into-fits, overwrite-append, take-append, for_range-Returns, Returns,
}
use sonny.Float.{F32, to_le_bytes, from-to_le_bytes}
use sonny.Vectors.{
  CommandVector, IsValid, max_joints, zero_array, load_chunks, from_bytes, as_slice, Out, put_value,
  write_values, write_to,
}
use sonny.Vectors.Valid.{load_chunks-IsValid}

-- The bytes of a list of values, joined.
abbrev pub encode : List F32 → List ℕ
encode [] = []
encode (x ∷ xs) = to_le_bytes x ++ encode xs

pub length-to_le_bytes : (x : ℕ) → length (to_le_bytes x) ≡ 4
unfolding to_le_bytes
length-to_le_bytes x = refl

pub length-encode : (xs : List F32) → length (encode xs) ≡ 4 * length xs
length-encode [] = refl
length-encode (x ∷ xs) =
    omega (arith, length-append (to_le_bytes x) (encode xs), length-to_le_bytes x, length-encode xs)

encode-append : (xs ys : List F32) → encode (xs ++ ys) ≡ encode xs ++ encode ys
encode-append [] ys = refl
encode-append (x ∷ xs) ys = rw (encode-append xs ys, append_assoc)

-- After `i` rounds the first `i` values stand in the buffer, and the rest of it is as it was.
abbrev Written : List F32 → List ℕ → ℕ → Out → Type 0
Written values out i (o, w) = (o ≡ encode (take i values) ++ drop (4 * i) out) × (w ≡ 4 * i)

put_value-Written :
    (values : List F32) (out : List ℕ) (i : ℕ) (s : Out)
    → i < length values
    → 4 * suc i ≤ length out
    → Written values out i s
    → Returns (Written values out (suc i)) (put_value values i s)
put_value-Written values out i (o, w) h room (eo, ew) =
    ((overwrite o w (to_le_bytes v), w + 4), runs, (shape, omega arith))
  where
    v : F32
    v = get_or values i 0

    done : List ℕ
    done = encode (take i values)

    length_done : length done ≡ w
    length_done = omega (arith, length-encode (take i values), length-take i values)

    length_o : length o ≡ length out
    length_o = omega (
      arith,
      ap length eo,
      length-append done (drop (4 * i) out),
      length-drop (4 * i) out,
      length_done,
    )

    fits : w + length (to_le_bytes v) ≤ length o
    fits = omega (arith, length-to_le_bytes v, length_o)

    runs : put_value values i (o, w) ≡ some (overwrite o w (to_le_bytes v), w + 4)
    runs = rw (get_elem?-eq-get_or values i 0 h, copy_into-fits o w (to_le_bytes v) fits)

    values_part : done ++ to_le_bytes v ≡ encode (take (suc i) values)
    values_part =
        rw (
          take-suc i values 0 h,
          encode-append (take i values) (v ∷ []),
          append-nil (to_le_bytes v),
        )

    rest_part : drop (length (to_le_bytes v)) (drop (4 * i) out) ≡ drop (4 * suc i) out
    rest_part =
        drop-drop (length (to_le_bytes v)) (4 * i) out
        ∙ ap (λ k. drop k out) (omega (arith, length-to_le_bytes v))

    shape : overwrite o w (to_le_bytes v) ≡ encode (take (suc i) values) ++ drop (4 * suc i) out
    shape =
        ap₂ (λ a b. overwrite a b (to_le_bytes v)) eo (sym length_done)
        ∙ overwrite-append done (to_le_bytes v) (drop (4 * i) out)
        ∙ ap₂ ◌++◌ values_part rest_part

-- The loop of `write_to` writes the bytes of as many values as fit, in order, and returns their
-- number; what lies behind them in the buffer stays.
pub write_values_lem :
    (values : List F32) (len : ℕ) (out : List ℕ)
    → len ≤ length values
    → Returns (Written values out (min len (length out / 4))) (write_values values len out)
unfolding write_values
write_values_lem values len out h =
    for_range-Returns (Written values out) (put_value values) n
      (λ i s b w. put_value-Written values out i s (omega arith) (omega arith) w) n 0 n (out, 0)
      (omega arith) (omega arith) (refl, refl)
  where
    n : ℕ
    n = min len (length out / 4)

-- A pattern of 32 bits.
abbrev pub IsWord : ℕ → Type 0
IsWord x = x < 4294967296

-- What the loop of `from_bytes` makes of encoded values, after `n` rounds that have read `done`.
load_chunks-encode :
    (array : List F32) (n : ℕ) (done xs : List F32)
    → length array ≡ max_joints
    → n + length xs ≤ max_joints
    → All IsWord xs
    → take n array ≡ done
    → let v = load_chunks array n (encode xs) in
      (v.len ≡ n + length xs) × (take v.len v.target_actuators ≡ done ++ xs)
unfolding load_chunks to_le_bytes
load_chunks-encode array n done [] e h a t = (omega arith, rw append-nil t)
load_chunks-encode array n done (x ∷ xs) e h (ax, a) t =
    let (count, values) =
      load_chunks-encode (set array n x) (n + 1) (done ++ (x ∷ [])) xs (length-set array n x ∙ e)
        (omega arith) a read in
    rw (below, from-to_le_bytes x ax) (count ∙ omega arith, values ∙ append_assoc done (x ∷ []) xs)
  where
    below : leb max_joints n ≡ false
    below = ground arith

    read : take (n + 1) (set array n x) ≡ done ++ (x ∷ [])
    read = rw (add-one, take-set array n x (omega arith), t)

-- A valid vector has its active values as a slice.
pub as_slice-IsValid :
    (v : CommandVector) → IsValid v → as_slice v ≡ some (take v.len v.target_actuators)
unfolding as_slice
as_slice-IsValid v iv = rw fits
  where
    fits : leb v.len (length v.target_actuators) ≡ true
    fits = ground arith

pub from_bytes-encode :
    (xs : List F32)
    → length xs ≤ max_joints
    → All IsWord xs
    → as_slice (from_bytes (encode xs)) ≡ some xs
unfolding from_bytes
from_bytes-encode xs h a =
    as_slice-IsValid _ (load_chunks-IsValid zero_array 0 (encode xs) refl (omega arith))
    ∙ ap some (load_chunks-encode zero_array 0 [] xs refl (omega arith) a refl).1

-- A buffer of 128 bytes or more takes all the active values of a valid vector.
pub write_to-encode :
    (v : CommandVector) (out : List ℕ)
    → IsValid v
    → 128 ≤ length out
    → Returns (λ r. take r.1 r.0 ≡ encode (take v.len v.target_actuators)) (write_to v out)
unfolding write_to
write_to-encode v out iv room = (written.0, written.1, bytes)
  where
    values : List F32
    values = take v.len v.target_actuators

    written : Returns (Written v.target_actuators out (min v.len (length out / 4))) (write_to v out)
    written = write_values_lem v.target_actuators v.len out (omega arith)

    all : min v.len (length out / 4) ≡ v.len
    all = omega arith

    length_values : length values ≡ v.len
    length_values = omega (arith, length-take v.len v.target_actuators)

    bytes : take written.0.1 written.0.0 ≡ encode values
    bytes =
        ap₂ take (written.2.1 ∙ (rw all (omega (arith, length-encode values, length_values))))
          (written.2.0 ∙ rw all)
        ∙ take-append (encode values) (drop (4 * v.len) out)

-- A valid vector survives the bus: what `write_to` writes into a buffer of 128 bytes or more,
-- `from_bytes` reads back as the same active values.
pub from_bytes-write_to :
    (v : CommandVector) (out : List ℕ)
    → IsValid v
    → All IsWord v.target_actuators
    → 128 ≤ length out
    → Returns (λ r. as_slice (from_bytes (take r.1 r.0)) ≡ as_slice v) (write_to v out)
from_bytes-write_to v out iv words room =
    let (r, runs, bytes) = write_to-encode v out iv room in
    (
      r,
      runs,
      ap (λ b. as_slice (from_bytes b)) bytes
          ∙ from_bytes-encode (take v.len v.target_actuators)
              (omega (arith, length-take v.len v.target_actuators))
              (All-take IsWord v.len v.target_actuators words)
          ∙ sym (as_slice-IsValid v iv),
    )
