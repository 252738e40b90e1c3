-- ===== src/Adapters/Comau/Roundtrip.antt =====
-- The encoder and the decoder of the lines.
use mathlib.Core.Option.{none-ne-some, some-injective}
use sonny.Prelude.{
  ℕ, zero, suc, get_elem?, set, ◌↔◌, ◌+◌, ◌≤◌, ◌<◌, ◌≡◌, refl, sym, ap, ◌∙◌, Bool, true, false,
  ◌||◌, List, [], ◌∷◌, ◌++◌, All, Option, none, some, ◌>>=◌, arith, if◌then◌else◌, leb, ◌==◌, map,
  length, take, take-append, take_all, min, length-append, length-take, Returns, Option-cases,
  Bool-cases, inl, inr,
}
use sonny.Float.{F32, IsFinite}
use sonny.Vectors.{CommandVector, IsValid, max_joints, zero_array}
use sonny.Vectors.Codec.{as_slice-IsValid}
use sonny.Text.Writer.{write_pieces_front}
use sonny.Text.Decimal.{settled}
use sonny.Text.{trim, parse_f32}
use sonny.Adapters.{Decoded}
use sonny.Adapters.Comau.{
  comau_joints, find_byte, is_empty, split, read_fields, decode_telemetry, csv_pieces,
  encode_command,
}
use sonny.Adapters.Comau.Line.{
  line, line-IsText, csv_pieces-line, find_byte-text, split-line, read_fields-print,
}

-- Whatever the command and however small the buffer, the encoder does not panic: it leaves the line of
-- at most six values and a newline, cut off at the buffer's end.
pub encode_command-line :
    (cmd : CommandVector) (out : List ℕ)
    → IsValid cmd
    → let values = take comau_joints (take cmd.len cmd.target_actuators) in
      Returns
        (λ r.
          (take r.1 r.0 ≡ take (length out) (line values ++ (10 ∷ []))) × (length r.0 ≡ length out))
        (encode_command cmd out)
unfolding encode_command
encode_command-line cmd out v =
    let values = take comau_joints (take cmd.len cmd.target_actuators) in
    let (w, runs, (front, size, _)) = write_pieces_front out (csv_pieces 0 values) in
    (
      (w.buf, w.pos),
      rw (as_slice-IsValid cmd v, runs) refl,
      (front ∙ ap (take (length out)) (csv_pieces-line values), size),
    )

-- A line of values that fits the robot's joints is read back: as many values, each the nearest number to
-- its six places, and nothing of what follows is consumed.
decode_telemetry-line :
    (values : List F32) (rest : List ℕ) (joint_count : ℕ)
    → length values ≤ joint_count
    → length values ≤ max_joints
    → All IsFinite values
    → (array : List F32) × (decode_telemetry (line values ++ (10 ∷ rest)) joint_count
        ≡ some (length (line values) + 1, array, length values))
      × (take (length values) array ≡ map settled values)
unfolding decode_telemetry
decode_telemetry-line [] rest joint_count h k f = (zero_array, nothing (leb limit 0), refl)
  where
    limit : ℕ
    limit = min joint_count max_joints

    first : Option (List F32 × ℕ) → Option Decoded
    first read = (do read ← read; some (1, read.0, read.1))

    nothing :
        (b : Bool)
        → first (if b || true then some (zero_array, 0) else none) ≡ some (1, zero_array, 0)
    nothing true = refl
    nothing false = refl
decode_telemetry-line (v ∷ values) rest joint_count h k f =
    let text = line-IsText (v ∷ values) f in
    let (array, runs, front, _) =
      read_fields-print (min joint_count max_joints) 0 (v ∷ values) zero_array [] 0
        (omega (arith, h, k)) (omega arith) refl refl f in
    let count : 0 + length (v ∷ values) ≡ length (v ∷ values) = omega arith in
    (
      array,
      rw
          (
            find_byte-text (line (v ∷ values)) rest text,
            take-append (line (v ∷ values)) (10 ∷ rest),
            split-line v values f,
            runs,
          )
          (ap (λ n. some (length (line (v ∷ values)) + 1, array, n)) count),
      ap (λ n. take n array) (sym count) ∙ front,
    )

-- The round trip through the bus. The first six values of a valid command are sent; where these are
-- finite, their line fits the buffer and the robot has as many joints, they come back as one
-- message with as many values, each the nearest number to its six places.
pub decode_telemetry-encode_command :
    (cmd : CommandVector) (out : List ℕ) (joint_count : ℕ)
    → let values = take 6 (take cmd.len cmd.target_actuators) in
      IsValid cmd
      → All IsFinite values
      → length values ≤ joint_count
      → length (line values) < length out
      → Returns
          (λ r.
            let sent = take r.1 r.0 in
            (array : List F32) × (decode_telemetry sent joint_count
              ≡ some (length sent, array, length values))
            × (take (length values) array ≡ map settled values))
          (encode_command cmd out)
decode_telemetry-encode_command cmd out joint_count v f h room =
    let values : List F32 = take 6 (take cmd.len cmd.target_actuators) in
    let (r, runs, (cut, _)) = encode_command-line cmd out v in
    let whole : length (line values ++ (10 ∷ [])) ≡ length (line values) + 1 =
      length-append (line values) (10 ∷ []) in
    let sent : take r.1 r.0 ≡ line values ++ (10 ∷ []) =
      cut ∙ take_all (line values ++ (10 ∷ [])) (length out) (omega (arith, whole, room)) in
    let (array, read, front) =
      decode_telemetry-line values [] joint_count h
        (omega (arith, length-take 6 (take cmd.len cmd.target_actuators))) f in
    (
      r,
      runs,
      (
        array,
        ap (λ s. decode_telemetry s joint_count) sent
            ∙ read
            ∙ ap (λ n. some (n, array, length values)) (sym (ap length sent ∙ whole)),
        front,
      ),
    )

find_byte-append :
    (s later : List ℕ) → find_byte 10 s ≡ none → find_byte 10 (s ++ (10 ∷ later)) ≡ some (length s)
unfolding find_byte
find_byte-append [] later h = refl
find_byte-append (c ∷ cs) later h = elim (Bool-cases (c == 10)) [
  | inl e ↦ absurd (none-ne-some 0 (sym (rw (find_byte, e) at h)))
  | inr e ↦ elim (Option-cases (find_byte 10 cs)) [
    | inl k ↦ rw (e, find_byte-append cs later k) refl
    | inr (i, k) ↦ absurd (none-ne-some (suc i) (sym (rw (find_byte, e, k) at h)))
  ]
]

-- A field that the robot has room for, that is not empty and is no number.
abbrev pub IsBlocked : (limit i : ℕ) → List (List ℕ) → Type 0
IsBlocked limit i fields =
    (k : ℕ) × (field : List ℕ) × (get_elem? fields k ≡ some field)
    × (i + k < limit)
    × (is_empty field ≡ false)
    × (parse_f32 (trim field) ≡ none)

read_fields-blocks :
    (limit i : ℕ) (fields : List (List ℕ)) (read : List F32 × ℕ)
    → IsBlocked limit i fields
    → read_fields limit i fields read ≡ none
unfolding read_fields
read_fields-blocks limit i [] read (k, field, there, _, _, _) = absurd (none-ne-some field there)
read_fields-blocks limit i (f ∷ fields) (values, n) (zero, field, there, room, full, bad) =
    let same : f ≡ field = some-injective f field there in
    let low : leb limit i ≡ false = ground (arith, room) in
    let full' : is_empty f ≡ false = rw same full in
    let bad' : parse_f32 (trim f) ≡ none = rw same bad in rw (low, full', bad') refl
read_fields-blocks limit i (f ∷ fields) (values, n) (suc k, field, there, room, full, bad) =
    elim (Bool-cases (leb limit i || is_empty f)) [
      | inl skip ↦ rw skip (
          read_fields-blocks limit (suc i) fields (values, n)
            (k, field, there, omega (arith, room), full, bad))
      | inr take_it ↦ elim (Option-cases (parse_f32 (trim f))) [
        | inl wrong ↦ rw (take_it, wrong) refl
        | inr (v, good) ↦
            rw (take_it, good)
              (read_fields-blocks limit (suc i) fields (set values i v, suc i)
                (k, field, there, omega (arith, room), full, bad))
      ]
    ]

further :
    (limit i : ℕ) (f : List ℕ) (fields : List (List ℕ))
    → IsBlocked limit (suc i) fields
    → IsBlocked limit i (f ∷ fields)
further limit i f fields (k, field, there, room, full, bad) =
    (suc k, field, there, omega (arith, room), full, bad)

read_fields-IsBlocked :
    (limit i : ℕ) (fields : List (List ℕ)) (read : List F32 × ℕ)
    → read_fields limit i fields read ≡ none
    → IsBlocked limit i fields
unfolding read_fields
read_fields-IsBlocked limit i [] read h = absurd (none-ne-some read (sym h))
read_fields-IsBlocked limit i (f ∷ fields) (values, n) h =
    elim (Bool-cases (leb limit i || is_empty f)) [
      | inl skip ↦
          further limit i f fields
            (read_fields-IsBlocked limit (suc i) fields (values, n) (rw skip at h))
      | inr take_it ↦ elim (Option-cases (parse_f32 (trim f))) [
        | inl wrong ↦ (0, f, refl, ground arith, ground arith, wrong)
        | inr (v, good) ↦ further limit i f fields (
            read_fields-IsBlocked limit (suc i) fields (set values i v, suc i)
              (rw (take_it, good) at h))
      ]
    ]

-- A line is never read, whatever comes behind it, exactly if one of its fields, at a place that the
-- robot has and below 32, is not empty and is no number: it then stays in front of the accumulator.
pub decode_telemetry-none_iff :
    (text later : List ℕ) (joint_count : ℕ)
    → find_byte 10 text ≡ none
    → (decode_telemetry (text ++ (10 ∷ later)) joint_count ≡ none)
      ↔ IsBlocked (min joint_count 32) 0 (split [] text)
unfolding decode_telemetry
decode_telemetry-none_iff text later joint_count h =
    let limit = min joint_count 32 in
    (
      (λ e.
          read_fields-IsBlocked limit 0 (split [] text) (zero_array, 0)
            (nothing_read _
              (rw (find_byte-append text later h, take-append text (10 ∷ later)) at e))),
      (λ blocked.
          rw
            (
              find_byte-append text later h,
              take-append text (10 ∷ later),
              read_fields-blocks limit 0 (split [] text) (zero_array, 0) blocked,
            )
            refl),
    )
  where
    answer : Option (List F32 × ℕ) → Option Decoded
    answer read = (do read ← read; some (length text + 1, read.0, read.1))

    nothing_read : (read : Option (List F32 × ℕ)) → answer read ≡ none → read ≡ none
    nothing_read none e = refl
    nothing_read (some r) e = absurd (none-ne-some (length text + 1, r.0, r.1) (sym e))
