-- ===== src/Adapters/Comau/Progress.antt =====
-- The decoder of lines consumes the line, and its newline.
use mathlib.Core.Option.{none-ne-some, some-injective}
use sonny.Prelude.{
  ℕ, suc, ◌≤◌, ◌<◌, ◌≡◌, refl, subst, ◌∙◌, ◌||◌, List, [], ◌∷◌, Option, none, some, arith, leb,
  ◌==◌, length, take, set, length-set, min, Option-cases, Bool-cases, inl, inr,
}
use sonny.Float.{F32}
use sonny.Vectors.{max_joints, zero_array}
use sonny.Text.{trim, parse_f32}
use sonny.Fieldbus.Drain.{Consumes, IsProductive}
use sonny.Adapters.Comau.{find_byte, split, is_empty, read_fields, decode_telemetry, comau_pdl2}

find_byte-lt : (b : ℕ) (s : List ℕ) (i : ℕ) → find_byte b s ≡ some i → i < length s
unfolding find_byte
find_byte-lt b [] i h = absurd (none-ne-some i h)
find_byte-lt b (c ∷ cs) i h = elim (Bool-cases (c == b)) [
  | inl e ↦ let k : 0 ≡ i = some-injective _ _ (rw (find_byte, e) at h) in omega (arith, k)
  | inr e ↦ elim (Option-cases (find_byte b cs)) [
    | inl n ↦ absurd (none-ne-some i (rw (find_byte, e, n) at h))
    | inr (j, n) ↦
        let k : suc j ≡ i = some-injective _ _ (rw (find_byte, e, n) at h) in
        omega (arith, k, find_byte-lt b cs j n)
  ]
]

-- The array keeps its size, and no more values count than the limit says.
abbrev Fits : ℕ → Option (List F32 × ℕ) → Type 0
Fits limit none = Unit
Fits limit (some (values, n)) = (length values ≡ max_joints) × (n ≤ limit)

read_fields-Fits :
    (limit i : ℕ) (fields : List (List ℕ)) (values : List F32) (n : ℕ)
    → length values ≡ max_joints
    → n ≤ limit
    → Fits limit (read_fields limit i fields (values, n))
unfolding read_fields
read_fields-Fits limit i [] values n e h = (e, h)
read_fields-Fits limit i (field ∷ fields) values n e h =
    elim (Bool-cases (leb limit i || is_empty field)) [
      | inl s ↦ rw (read_fields, s) (read_fields-Fits limit (suc i) fields values n e h)
      | inr s ↦ elim (Option-cases (parse_f32 (trim field))) [
        | inl p ↦ rw (read_fields, s, p) tt
        | inr (v, p) ↦
            rw (read_fields, s, p)
              (read_fields-Fits limit (suc i) fields (set values i v) (suc i)
                (length-set values i v ∙ e) (ground (arith, s)))
      ]
    ]

decode_telemetry-Consumes :
    (acc : List ℕ) (joint_count : ℕ) → Consumes acc (decode_telemetry acc joint_count)
unfolding decode_telemetry
decode_telemetry-Consumes acc joint_count = elim (Option-cases (find_byte 10 acc)) [
  | inl e ↦ rw e tt
  | inr (end, e) ↦
      let limit = min joint_count max_joints in
      let fields = split [] (take end acc) in
      elim (Option-cases (read_fields limit 0 fields (zero_array, 0))) [
        | inl r ↦ rw (e, r) tt
        | inr ((values, n), r) ↦
            let (full, few) : (length values ≡ max_joints) × (n ≤ limit) =
              subst (Fits limit) r
                (read_fields-Fits limit 0 fields zero_array 0 refl (omega arith)) in
            rw (e, r)
              (omega arith, omega (arith, find_byte-lt 10 acc end e), omega (arith, full, few))
      ]
]

pub comau_pdl2-IsProductive :
    (joint_count : ℕ) → IsProductive comau_pdl2 joint_count (λ _. Unit {0})
unfolding comau_pdl2
comau_pdl2-IsProductive joint_count s acc h =
    ((s, decode_telemetry acc joint_count), refl, (tt, decode_telemetry-Consumes acc joint_count))
