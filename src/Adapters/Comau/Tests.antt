-- ===== src/Adapters/Comau/Tests.antt =====
-- The lines of the source's own tests.
use sonny.Prelude.{
  ◌↔◌, ◌≡◌, refl, List, [], ◌∷◌, ◌++◌, none, some, arith, map, length, take, replicate, Returns,
}
use sonny.Float.{is_finite, arithmetic, F32}
use sonny.Vectors.{CommandVector, from_slice}
use sonny.Vectors.Valid.{from_slice-IsValid}
use sonny.Brand.{lower}
use sonny.Text.{codes, print_fixed, parse_f32}
use sonny.Text.Decimal.{settled}
use sonny.Adapters.Comau.{find_byte, decode_telemetry, encode_command, split}
use sonny.Adapters.Comau.Line.{line}
use sonny.Adapters.Comau.Roundtrip.{
  IsBlocked, decode_telemetry-encode_command, decode_telemetry-none_iff,
}

half : print_fixed 0x3F00_0000 ≡ codes "0.500000"
unfolding print_fixed arithmetic
half = refl

third : parse_f32 (codes "-1.5708") ≡ some 0xBFC9_0FF9
unfolding parse_f32 arithmetic lower
third = refl

exponent : parse_f32 (codes "+25e-1") ≡ some 0x4020_0000
unfolding parse_f32 arithmetic lower
exponent = refl

no_number : parse_f32 (codes "1.2.3") ≡ none
unfolding parse_f32 arithmetic lower
no_number = refl

-- [0.5, -1.0]
abbrev command : CommandVector
command = from_slice (0x3F00_0000 ∷ 0xBF80_0000 ∷ [])

encoded_line : line (0x3F00_0000 ∷ 0xBF80_0000 ∷ []) ≡ codes "0.500000,-1.000000"
unfolding print_fixed arithmetic
encoded_line = refl

decode_telemetry-encode_command_example :
    Returns
      (λ r.
        let sent = take r.1 r.0 in
        (array : List F32) × (decode_telemetry sent 6 ≡ some (length sent, array, 2))
        × (take 2 array ≡ map settled (0x3F00_0000 ∷ 0xBF80_0000 ∷ [])))
      (encode_command command (replicate 64 0))
unfolding from_slice is_finite print_fixed arithmetic
decode_telemetry-encode_command_example =
    decode_telemetry-encode_command command (replicate 64 0) 6
      (from_slice-IsValid (0x3F00_0000 ∷ 0xBF80_0000 ∷ [])) (refl, (refl, tt)) (omega arith)
      (omega arith)

-- A field that is no number, with a good line behind it.
decode_telemetry-none_iff_example :
    (decode_telemetry (codes "0.5,x" ++ (10 ∷ codes "0.1\n")) 6 ≡ none)
    ↔ IsBlocked 6 0 (split [] (codes "0.5,x"))
unfolding find_byte
decode_telemetry-none_iff_example = decode_telemetry-none_iff (codes "0.5,x") (codes "0.1\n") 6 refl
