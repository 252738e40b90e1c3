-- ===== src/Ros2Bridge/Tests.antt =====
-- Messages of each kind, and a bridge that meets a short one.
use sonny.Prelude.{map, ℕ, ◌≡◌, ◌↔◌, refl, inl, false, List, [], ◌∷◌, ◌++◌, none, some, arith}
use sonny.Float.{arithmetic, to_le_bytes}
use sonny.Ros2Bridge.{fieldbus_parse_modbus_frame, start_bridge}
use sonny.Ros2Bridge.Panics.{Panics, fieldbus_parse_modbus_frame-none_iff}
use sonny.Ros2Bridge.Payload.{start_bridge_ends}

-- Code 3, five bytes, a checksum.
abbrev reply : List ℕ
reply = 3 ∷ 5 ∷ 1 ∷ 2 ∷ 3 ∷ 4 ∷ 5 ∷ 170 ∷ 187 ∷ []

-- Code 16 without a byte count.
abbrev short : List ℕ
short = 16 ∷ 0 ∷ 0 ∷ 0 ∷ 0 ∷ []

-- One register, 258.
write_of_one :
    fieldbus_parse_modbus_frame (16 ∷ 0 ∷ 0 ∷ 0 ∷ 0 ∷ 1 ∷ 2 ∷ 1 ∷ 2 ∷ [])
    ≡ some (0 ∷ 0 ∷ 129 ∷ 67 ∷ [])
unfolding fieldbus_parse_modbus_frame arithmetic to_le_bytes
write_of_one = refl

other_message :
    fieldbus_parse_modbus_frame (9 ∷ 8 ∷ 7 ∷ 6 ∷ [])
    ≡ some (9 ∷ 8 ∷ 7 ∷ 6 ∷ 0 ∷ 0 ∷ 0 ∷ 0 ∷ 0 ∷ 0 ∷ 0 ∷ 0 ∷ 0 ∷ 0 ∷ 0 ∷ 0 ∷ [])
unfolding fieldbus_parse_modbus_frame
other_message = refl

fieldbus_parse_modbus_frame-none_iff_example :
    (fieldbus_parse_modbus_frame short ≡ none) ↔ Panics short
fieldbus_parse_modbus_frame-none_iff_example = fieldbus_parse_modbus_frame-none_iff short

short-Panics : Panics short
short-Panics = (omega arith, refl, inl (omega arith))

start_bridge_ends_example :
    let (published, alive) = start_bridge ((reply ∷ []) ++ (short ∷ reply ∷ [])) in
    (alive ≡ false) × (map some published ≡ map fieldbus_parse_modbus_frame (reply ∷ []))
start_bridge_ends_example =
    start_bridge_ends (reply ∷ []) short (reply ∷ [])
      ((λ (_, code, _). absurd (omega (arith, code))), tt) short-Panics
