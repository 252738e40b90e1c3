-- ===== src/Vectors/State.antt =====
-- A state vector that takes new values, and the bytes that are published of it.
use mathlib.Core.Path.{ap₂}
use sonny.Prelude.{
  ℕ, ◌+◌, ◌*◌, ◌/◌, ◌≤◌, ◌≡◌, refl, ap, ◌∙◌, List, ◌++◌, some, arith, min, length, take, drop,
  Returns, length-take, length-drop, length-append, take-append, take_all, overwrite,
  length-overwrite,
}
use sonny.Float.{F32}
use sonny.Vectors.{StateVector, IsValidState, write_values, set_values, write_state, max_joints}
use sonny.Vectors.Codec.{encode, length-encode, write_values_lem}

pub set_values-IsValidState :
    (now : ℕ) (s : StateVector) (values : List ℕ)
    → IsValidState s
    → IsValidState (set_values now s values)
unfolding set_values
set_values-IsValidState now s values v = record {
  array =
      length-overwrite s.values 0 (take (min (length values) 32) values)
        (omega (arith, length-take (min (length values) 32) values))
      ∙ v.array;
  active = omega arith;
}

set_values_slice :
    (now : ℕ) (s : StateVector) (values : List F32)
    → length values ≤ max_joints
    → let t = set_values now s values in (t.len ≡ length values) × (take t.len t.values ≡ values)
unfolding set_values overwrite
set_values_slice now s values h = (omega arith, slice)
  where
    size : min (length values) max_joints ≡ length values
    size = omega arith

    slice :
        take
          (min (length values) max_joints)
          (overwrite s.values 0 (take (min (length values) max_joints) values))
        ≡ values
    slice =
        rw (size, take_all values (length values) (omega arith))
          (take-append values (drop (0 + length values) s.values))

-- The values of a telemetry message go out as they are, whatever was in the state and in the buffer.
pub write_state-set_values :
    (now : ℕ) (s : StateVector) (values : List F32) (out : List ℕ)
    → IsValidState s
    → length values ≤ max_joints
    → 128 ≤ length out
    → Returns
        (λ r. (take r.1 r.0 ≡ encode values) × (length r.0 ≡ length out))
        (write_state (set_values now s values) out)
unfolding write_state
write_state-set_values now s values out v h room = (r, runs, (bytes, size))
  where
    t : StateVector
    t = set_values now s values

    valid : IsValidState t
    valid = set_values-IsValidState now s values v

    slice : (t.len ≡ length values) × (take t.len t.values ≡ values)
    slice = set_values_slice now s values h

    n : ℕ
    n = min t.len (length out / 4)

    written :
        Returns
          (λ r. (r.0 ≡ encode (take n t.values) ++ drop (4 * n) out) × (r.1 ≡ 4 * n))
          (write_values t.values t.len out)
    written = write_values_lem t.values t.len out (omega (arith, valid.active, valid.array))

    r : List ℕ × ℕ
    r = written.0

    runs : write_values t.values t.len out ≡ some r
    runs = written.1

    shape : r.0 ≡ encode (take n t.values) ++ drop (4 * n) out
    shape = written.2.0

    all : n ≡ t.len
    all = omega (arith, valid.active)

    count : r.1 ≡ length (encode values)
    count = omega (arith, written.2.1, all, slice.0, length-encode values)

    bytes : take r.1 r.0 ≡ encode values
    bytes =
        ap₂ take count (shape ∙ rw (all, slice.1) refl)
        ∙ take-append (encode values) (drop (4 * t.len) out)

    size : length r.0 ≡ length out
    size = omega (
      arith,
      ap length shape,
      length-append (encode (take n t.values)) (drop (4 * n) out),
      length-encode (take n t.values),
      length-drop (4 * n) out,
      length-take n t.values,
      valid.array,
      valid.active,
      all,
    )
