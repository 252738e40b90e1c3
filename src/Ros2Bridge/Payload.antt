-- ===== src/Ros2Bridge/Payload.antt =====
-- What the bridge makes of a message, and what it does after one that panics.
use sonny.Prelude.{
  map, ℕ, suc, ◌+◌, ◌-◌, ◌*◌, ◌%◌, ◌≤◌, ◌<◌, ◌≡◌, ◌⊎◌, inl, inr, refl, ◌∙◌, ap, true, false, List,
  [], ◌∷◌, ◌++◌, some, ◌==◌, ◌||◌, arith, length, get_or, take, drop, replicate, All, All-take,
  All-drop, length-take, length-drop, ◌/◌, Option-cases,
}
use sonny.Float.{to_le_bytes, from_le_bytes}
use sonny.Ros2Bridge.{pack_words, fieldbus_parse_modbus_frame, start_bridge}
use sonny.Ros2Bridge.Panics.{
  Panics, parse_read_whole, fieldbus_parse_modbus_frame_long, fieldbus_parse_modbus_frame-none_iff,
}

abbrev pub IsByte : ℕ → Type 0
IsByte b = b < 256

-- Four bytes come back out of the float that they make.
pub to-from_le_bytes :
    (a b c d : ℕ)
    → IsByte a
    → IsByte b
    → IsByte c
    → IsByte d
    → to_le_bytes (from_le_bytes a b c d) ≡ a ∷ b ∷ c ∷ d ∷ []
unfolding to_le_bytes from_le_bytes
to-from_le_bytes a b c d ha hb hc hd =
    let e0 : (a + 256 * b + 65536 * c + 16777216 * d) % 256 ≡ a = omega arith in
    let e1 : (a + 256 * b + 65536 * c + 16777216 * d) / 256 % 256 ≡ b = omega arith in
    let e2 : (a + 256 * b + 65536 * c + 16777216 * d) / 65536 % 256 ≡ c = omega arith in
    let e3 : (a + 256 * b + 65536 * c + 16777216 * d) / 16777216 % 256 ≡ d = omega arith in
    rw (e0, e1, e2, e3) refl

-- The number of zeros that fill the last chunk up.
abbrev pub padding : ℕ → ℕ
padding n = (4 - n % 4) % 4

pack_words-padding :
    (bytes : List ℕ)
    → All IsByte bytes
    → pack_words bytes ≡ bytes ++ replicate (padding (length bytes)) 0
unfolding pack_words
pack_words-padding (a ∷ b ∷ c ∷ d ∷ rest) (ha, (hb, (hc, (hd, h)))) =
    let e : padding (suc (suc (suc (suc (length rest))))) ≡ padding (length rest) = omega arith in
    rw (e, to-from_le_bytes a b c d ha hb hc hd, pack_words-padding rest h) refl
pack_words-padding (a ∷ b ∷ c ∷ []) (ha, (hb, (hc, h))) =
    to-from_le_bytes a b c 0 ha hb hc (omega arith)
pack_words-padding (a ∷ b ∷ []) (ha, (hb, h)) =
    to-from_le_bytes a b 0 0 ha hb (omega arith) (omega arith)
pack_words-padding (a ∷ []) (ha, h) =
    to-from_le_bytes a 0 0 0 ha (omega arith) (omega arith) (omega arith)
pack_words-padding [] h = refl

-- A reply to a read (code 3 or 4) that holds all the bytes it counts, and a checksum's two bytes, is
-- converted to those bytes, filled up with zeros to a whole number of floats.
pub fieldbus_parse_modbus_frame_read :
    (raw : List ℕ)
    → All IsByte raw
    → (get_or raw 0 0 ≡ 0x03) ⊎ (get_or raw 0 0 ≡ 0x04)
    → 4 + get_or raw 1 0 ≤ length raw
    → let payload = take (get_or raw 1 0) (drop 2 raw) in
      fieldbus_parse_modbus_frame raw ≡ some (payload ++ replicate (padding (get_or raw 1 0)) 0)
fieldbus_parse_modbus_frame_read raw bytes code room =
    rw (fieldbus_parse_modbus_frame_long raw (omega arith), reads, parse_read_whole raw room, cut)
      (ap some packed)
  where
    reads : ((get_or raw 0 0 == 0x03) || (get_or raw 0 0 == 0x04)) ≡ true
    reads = ground arith

    cut : 2 + get_or raw 1 0 - 2 ≡ get_or raw 1 0
    cut = omega arith

    size : length (take (get_or raw 1 0) (drop 2 raw)) ≡ get_or raw 1 0
    size = omega (arith, length-take (get_or raw 1 0) (drop 2 raw), length-drop 2 raw)

    packed :
        pack_words (take (get_or raw 1 0) (drop 2 raw))
        ≡ take (get_or raw 1 0) (drop 2 raw) ++ replicate (padding (get_or raw 1 0)) 0
    packed =
        pack_words-padding (take (get_or raw 1 0) (drop 2 raw))
          (All-take IsByte (get_or raw 1 0) (drop 2 raw) (All-drop IsByte 2 raw bytes))
        ∙ ap (λ n. take (get_or raw 1 0) (drop 2 raw) ++ replicate (padding n) 0) size

-- One message that panics ends the bridge: what is published is what the parser makes of the samples
-- before it, each once and in their order, and nothing of what comes after it, however well formed.
pub start_bridge_ends :
    (good : List (List ℕ)) (bad : List ℕ) (rest : List (List ℕ))
    → All (λ raw. Panics raw → ⊥) good
    → Panics bad
    → let (published, alive) = start_bridge (good ++ (bad ∷ rest)) in
      (alive ≡ false) × (map some published ≡ map fieldbus_parse_modbus_frame good)
unfolding start_bridge
start_bridge_ends [] bad rest h p =
    let e = (fieldbus_parse_modbus_frame-none_iff bad).1 p in rw (start_bridge, e) (refl, refl)
start_bridge_ends (raw ∷ good) bad rest (h, hs) p =
    elim (Option-cases (fieldbus_parse_modbus_frame raw)) [
      | inl e ↦ absurd (h ((fieldbus_parse_modbus_frame-none_iff raw).0 e))
      | inr (out, e) ↦
          let (ends, same) = start_bridge_ends good bad rest hs p in
          rw (start_bridge, e) (ends, ap (◌∷◌ (some out)) same)
    ]
