-- ===== src/Ros2Bridge/Panics.antt =====
-- Which messages end the bridge.
use mathlib.Core.Option.{none-ne-some}
use sonny.Prelude.{
  ℕ, ◌+◌, ◌-◌, ◌*◌, ◌%◌, ◌≤◌, ◌<◌, ◌≡◌, ◌≢◌, ◌⊎◌, lt_or_le, ◌↔◌, inl, inr, refl, sym, ◌∙◌, ◌||◌,
  true, false, List, [], ◌∷◌, ◌++◌, Option, none, some, ltb, leb, ◌==◌, arith, length, get_elem?,
  get_or, take, drop, get_elem?-eq-get_or, get_elem?-past, Bool-cases, Option-cases, Returns, ◌>>=◌,
  if◌then◌else◌,
}
use native.Mathlib.Decide.{ℕ_discrete}
use sonny.Float.{f32, of_uint, to_le_bytes}
use sonny.Adapters.Packet.{sub_slice}
use sonny.Adapters.Slice.{sub_slice-fits}
use sonny.Ros2Bridge.{
  pack_registers, pack_words, parse_read, parse_write, parse_other, blank,
  fieldbus_parse_modbus_frame,
}

-- A message of at least four bytes, with code 0x10, that has no byte count, or an odd one and all the
-- bytes that it counts.
abbrev pub Panics : List ℕ → Type 0
Panics raw =
    (4 ≤ length raw)
    × (get_or raw 0 0 ≡ 0x10)
    × ((length raw < 7) ⊎ ((7 + get_or raw 6 0 ≤ length raw) × (get_or raw 6 0 % 2 ≡ 1)))

-- An even number of bytes are registers of two bytes each, which become four bytes each.
pub pack_registers_even :
    (bytes : List ℕ)
    → length bytes % 2 ≡ 0
    → Returns (λ out. length out ≡ 2 * length bytes) (pack_registers bytes)
unfolding pack_registers to_le_bytes
pack_registers_even [] h = ([], refl, omega arith)
pack_registers_even (a ∷ []) h = absurd (omega (arith, h))
pack_registers_even (a ∷ b ∷ rest) h =
    let (more, runs, size) = pack_registers_even rest (omega (arith, h)) in
    (
      to_le_bytes (of_uint f32 (a * 256 + b)) ++ more,
      rw (pack_registers, runs) refl,
      omega (arith, size),
    )

pack_registers_odd : (bytes : List ℕ) → length bytes % 2 ≡ 1 → pack_registers bytes ≡ none
unfolding pack_registers
pack_registers_odd [] h = absurd (omega (arith, h))
pack_registers_odd (a ∷ []) h = refl
pack_registers_odd (a ∷ b ∷ rest) h =
    rw (pack_registers, pack_registers_odd rest (omega (arith, h))) refl

parse_write_short : (raw : List ℕ) → length raw < 7 → parse_write raw ≡ none
unfolding parse_write
parse_write_short raw h = elim (Option-cases (get_elem? raw 4)) [
  | inl e ↦ rw e refl
  | inr (high, e) ↦ elim (Option-cases (get_elem? raw 5)) [
    | inl e' ↦ rw (e, e') refl
    | inr (low, e') ↦ rw (e, e', get_elem?-past raw 6 (omega arith)) refl
  ]
]

-- The branch of code 0x10, with a byte count.
module _ (raw : List ℕ) (h : 7 ≤ length raw) where
  count : ℕ
  count = get_or raw 6 0

  parse_write_counted : parse_write raw ≡ (
      if leb (7 + get_or raw 6 0) (length raw)
      then (do payload ← sub_slice raw 7 (7 + get_or raw 6 0); pack_registers payload)
      else some blank)
  unfolding parse_write
  parse_write_counted =
      rw
        (
          get_elem?-eq-get_or raw 4 0 (omega arith),
          get_elem?-eq-get_or raw 5 0 (omega arith),
          get_elem?-eq-get_or raw 6 0 (omega arith),
        )
        refl

  parse_write_missing : length raw < 7 + get_or raw 6 0 → parse_write raw ≡ some blank
  parse_write_missing k =
      let e : leb (7 + get_or raw 6 0) (length raw) ≡ false = ground arith in
      parse_write_counted ∙ rw e refl

  payload : List ℕ
  payload = take (7 + get_or raw 6 0 - 7) (drop 7 raw)

  parse_write_whole :
      7 + get_or raw 6 0 ≤ length raw
      → (parse_write raw ≡ pack_registers (take (7 + get_or raw 6 0 - 7) (drop 7 raw)))
        × (length (take (7 + get_or raw 6 0 - 7) (drop 7 raw)) ≡ get_or raw 6 0)
  parse_write_whole k =
      let e : leb (7 + get_or raw 6 0) (length raw) ≡ true = ground arith in
      let (cut, size) = sub_slice-fits raw 7 (7 + get_or raw 6 0) (omega arith) k in
      (parse_write_counted ∙ rw (e, cut) refl, omega (arith, size))

-- Either the message panics, or it does not and is converted.
abbrev Classified : (raw : List ℕ) → Option (List ℕ) → Type 0
Classified raw out = (Panics raw × (out ≡ none)) ⊎ ((Panics raw → ⊥) × Returns (λ _. Unit {0}) out)

parse_write-Classified :
    (raw : List ℕ) → 4 ≤ length raw → get_or raw 0 0 ≡ 0x10 → Classified raw (parse_write raw)
parse_write-Classified raw long code = elim (lt_or_le (length raw) 7) [
  | inl h ↦ inl ((long, code, inl h), parse_write_short raw h)
  | inr h ↦ elim (lt_or_le (length raw) (7 + get_or raw 6 0)) [
    | inl k ↦ inr ((λ (_, _, p). ground arith), (blank, parse_write_missing raw h k, tt))
    | inr k ↦
        let (runs, size) = parse_write_whole raw h k in
        elim (ℕ_discrete (get_or raw 6 0 % 2) 1) [
          | yes odd ↦ inl ((long, code, inr (k, odd)), runs ∙ pack_registers_odd _ (rw size odd))
          | no even ↦
              let (out, packed, _) = pack_registers_even _ (omega (arith, size)) in
              inr ((λ p. quiet h even p), (out, runs ∙ packed, tt))
        ]
  ]
]
  where
    quiet : 7 ≤ length raw → get_or raw 6 0 % 2 ≢ 1 → Panics raw → ⊥
    quiet h even p = ground arith

parse_read_missing :
    (raw : List ℕ) → 2 ≤ length raw → length raw < 4 + get_or raw 1 0 → parse_read raw ≡ some blank
unfolding parse_read
parse_read_missing raw h k =
    let e : leb (2 + get_or raw 1 0 + 2) (length raw) ≡ false = ground arith in
    rw (get_elem?-eq-get_or raw 1 0 (omega arith), e) refl

-- A message with all the bytes that it counts, and two more.
pub parse_read_whole :
    (raw : List ℕ)
    → 4 + get_or raw 1 0 ≤ length raw
    → (parse_read raw ≡ some (pack_words (take (2 + get_or raw 1 0 - 2) (drop 2 raw))))
unfolding parse_read
parse_read_whole raw k =
    let e : leb (2 + get_or raw 1 0 + 2) (length raw) ≡ true = ground arith in
    let (cut, size) = sub_slice-fits raw 2 (2 + get_or raw 1 0) (omega arith) (omega arith) in
    rw (get_elem?-eq-get_or raw 1 0 (omega arith), e, cut) refl

parse_read-Returns : (raw : List ℕ) → 2 ≤ length raw → Returns (λ _. Unit {0}) (parse_read raw)
parse_read-Returns raw h = elim (lt_or_le (length raw) (4 + get_or raw 1 0)) [
  | inl k ↦ (blank, parse_read_missing raw h k, tt)
  | inr k ↦ (pack_words (take (2 + get_or raw 1 0 - 2) (drop 2 raw)), parse_read_whole raw k, tt)
]

-- What the parser does with a message of four bytes or more.
pub fieldbus_parse_modbus_frame_long :
    (raw : List ℕ)
    → 4 ≤ length raw
    → fieldbus_parse_modbus_frame raw ≡ (
        if (get_or raw 0 0 == 0x03) || (get_or raw 0 0 == 0x04)
        then parse_read raw
        else if get_or raw 0 0 == 0x10
        then parse_write raw
        else some (parse_other raw))
unfolding fieldbus_parse_modbus_frame
fieldbus_parse_modbus_frame_long raw h =
    let e : ltb (length raw) 4 ≡ false = ground arith in
    rw (e, get_elem?-eq-get_or raw 0 0 (omega arith)) refl

fieldbus_parse_modbus_frame-Classified :
    (raw : List ℕ) → Classified raw (fieldbus_parse_modbus_frame raw)
unfolding fieldbus_parse_modbus_frame
fieldbus_parse_modbus_frame-Classified raw = elim (lt_or_le (length raw) 4) [
  | inl h ↦
      let e : ltb (length raw) 4 ≡ true = ground arith in
      rw e (inr ((λ (l, _, _). omega (arith, l)), (blank, refl, tt)))
  | inr h ↦ elim (ℕ_discrete (get_or raw 0 0) 0x10) [
    | yes code ↦
        let e : fieldbus_parse_modbus_frame raw ≡ parse_write raw =
          fieldbus_parse_modbus_frame_long raw h ∙ rw code refl in
        rw e (parse_write-Classified raw h code)
    | no other ↦ inr (
      (λ (_, code, _). other code),
      rw (fieldbus_parse_modbus_frame_long raw h) (branches h other),
    )
  ]
]
  where
    branches :
        4 ≤ length raw
        → get_or raw 0 0 ≢ 0x10
        → Returns
            (λ _. Unit {0})
            (if (get_or raw 0 0 == 0x03) || (get_or raw 0 0 == 0x04)
              then parse_read raw
              else if get_or raw 0 0 == 0x10
              then parse_write raw
              else some (parse_other raw))
    branches h other =
        let e : (get_or raw 0 0 == 0x10) ≡ false = ground arith in
        elim (Bool-cases ((get_or raw 0 0 == 0x03) || (get_or raw 0 0 == 0x04))) [
          | inl r ↦ rw r (parse_read-Returns raw (omega arith))
          | inr r ↦ rw (r, e) (parse_other raw, refl, tt)
        ]

-- The parser panics exactly on a message of at least four bytes whose code is 0x10 and which either
-- ends before its byte count or counts an odd number of bytes, all of which are there.
pub fieldbus_parse_modbus_frame-none_iff :
    (raw : List ℕ) → (fieldbus_parse_modbus_frame raw ≡ none) ↔ Panics raw
fieldbus_parse_modbus_frame-none_iff raw = elim (fieldbus_parse_modbus_frame-Classified raw) [
  | inl (bad, e) ↦ ((λ _. bad), (λ _. e))
  | inr (good, (out, e, _)) ↦
      ((λ e'. absurd (none-ne-some out (sym e' ∙ e))), (λ bad. absurd (good bad)))
]
