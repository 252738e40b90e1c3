-- ===== src/Fieldbus/Progress.antt =====
-- The decoders of fixed frames and of packets are productive: they never panic, and each message
-- consumes bytes that are there.
use sonny.Prelude.{
  ℕ, suc, ◌+◌, ◌-◌, ◌*◌, ◌≤◌, ◌<◌, ◌≡◌, refl, ◌∙◌, ◌||◌, List, none, some, ltb, ◌==◌, arith, inl,
  inr, Bool-cases, min, length, get_or, get_elem?-eq-get_or, set, length-set, take, drop,
  for_range-Returns, Returns,
}
use sonny.Float.{F32, from_le_bytes, from_be_bytes, narrow}
use sonny.Vectors.{max_joints, zero_array}
use sonny.Adapters.Binary.{read_value, frame_size, decode_fixed, generic_binary}
use sonny.Adapters.Packet.{sub_slice, read_double, decode_packet}
use sonny.Adapters.Slice.{sub_slice-fits}
use sonny.Fieldbus.Drain.{Consumes, IsProductive}

-- A loop that fills the array of values keeps its size.
abbrev Filled : ℕ → List F32 → Type 0
Filled _ values = length values ≡ max_joints

read_value-Filled :
    (acc : List ℕ) (i : ℕ) (values : List F32)
    → i * 4 + 3 < length acc
    → Filled i values
    → Returns (Filled (suc i)) (read_value acc i values)
unfolding read_value
read_value-Filled acc i values h e =
    let v =
      from_le_bytes (get_or acc (i * 4) 0) (get_or acc (i * 4 + 1) 0) (get_or acc (i * 4 + 2) 0)
        (get_or acc (i * 4 + 3) 0) in
    (
      set values i v,
      rw
          (
            get_elem?-eq-get_or acc (i * 4) 0 (omega arith),
            get_elem?-eq-get_or acc (i * 4 + 1) 0 (omega arith),
            get_elem?-eq-get_or acc (i * 4 + 2) 0 (omega arith),
            get_elem?-eq-get_or acc (i * 4 + 3) 0 (omega arith),
          )
          refl,
      length-set values i v ∙ e,
    )

-- A fixed frame is decoded without a panic, for any number of joints, and consumes bytes that are
-- there; a robot without joints waits for ever.
pub decode_fixed-Consumes :
    (acc : List ℕ) (joint_count : ℕ) → Returns (Consumes acc) (decode_fixed acc joint_count)
unfolding decode_fixed frame_size
decode_fixed-Consumes acc joint_count =
    let size = frame_size joint_count in
    elim (Bool-cases ((size == 0) || ltb (length acc) size)) [
      | inl e ↦ rw e (none, refl, tt)
      | inr e ↦
          let n = min joint_count max_joints in
          let positive : 0 < size = ground arith in
          let there : size ≤ length acc = ground arith in
          let (values, runs, filled) =
            for_range-Returns Filled (read_value acc) n
              (λ i s b p. read_value-Filled acc i s (omega arith) p) n 0 n zero_array (omega arith)
              (omega arith) refl in
          rw (e, runs) (some (size, values, n), refl, (positive, there, omega arith))
    ]

pub generic_binary-IsProductive :
    (joint_count : ℕ) → IsProductive generic_binary joint_count (λ _. Unit)
unfolding generic_binary
generic_binary-IsProductive joint_count s acc k =
    let (d, runs, c) = decode_fixed-Consumes acc joint_count in ((s, d), rw runs refl, (tt, c))

sub_slice-Returns :
    (v : List ℕ) (from to : ℕ)
    → from ≤ to
    → to ≤ length v
    → Returns (λ s. length s ≡ to - from) (sub_slice v from to)
sub_slice-Returns v from to h k =
    let (runs, size) = sub_slice-fits v from to h k in (take (to - from) (drop from v), runs, size)

read_double-Filled :
    (offset : ℕ) (body : List ℕ) (i : ℕ) (values : List F32)
    → offset + i * 8 + 8 ≤ length body
    → Filled i values
    → Returns (Filled (suc i)) (read_double offset body i values)
unfolding read_double
read_double-Filled offset body i values h e =
    let (bytes, runs, _) =
      sub_slice-Returns body (offset + i * 8) (offset + i * 8 + 8) (omega arith) h in
    (set values i (narrow (from_be_bytes 0 bytes)), rw runs refl, length-set values i _ ∙ e)

-- A packet is decoded without a panic, whatever its length field says, and consumes the bytes of that
-- length, at least four of them, and no more than there are.
pub decode_packet-Consumes :
    (joints offset : ℕ) (acc : List ℕ) (joint_count : ℕ)
    → Returns (Consumes acc) (decode_packet joints offset acc joint_count)
unfolding decode_packet
decode_packet-Consumes joints offset acc joint_count =
    let size = from_be_bytes 0 (take 4 acc) in
    let n = min (min joint_count joints) max_joints in
    elim (Bool-cases (ltb (length acc) 4 || (ltb size 4 || ltb (length acc) size))) [
      | inl e ↦ rw e (none, refl, tt)
      | inr e ↦
          let low : 4 ≤ size = ground arith in
          let there : size ≤ length acc = ground arith in
          let (body, sliced, _) = sub_slice-Returns acc 4 size low there in
          elim (Bool-cases (ltb (length body) (offset + n * 8))) [
            | inl f ↦ rw (e, sliced, f) (none, refl, tt)
            | inr f ↦
                let room : offset + n * 8 ≤ length body = ground arith in
                let (values, runs, filled) =
                  for_range-Returns Filled (read_double offset body) n
                    (λ i s b p. read_double-Filled offset body i s (omega arith) p) n 0 n zero_array
                    (omega arith) (omega arith) refl in
                rw (e, sliced, f, runs)
                  (some (size, values, n), refl, (omega arith, there, omega arith))
          ]
    ]
