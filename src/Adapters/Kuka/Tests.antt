-- ===== src/Adapters/Kuka/Tests.antt =====
-- Variables in a frame, out of their order.
use sonny.Prelude.{
  ℕ, ◌+◌, ◌≡◌, refl, All, List, [], ◌∷◌, ◌++◌, Option, none, some, take, map, length, arith,
}
use sonny.Float.{IsFinite, is_finite}
use sonny.Text.Decimal.{settled}
use sonny.Adapters.Kuka.Reply.{reply, frame_end}
use sonny.Adapters.Kuka.Frames.{decode_telemetry-reply}
use sonny.Float.{F32, arithmetic}
use sonny.Brand.{lower}
use sonny.Text.{codes, print_uint, print_fixed}
use sonny.Text.Writer.{concat}
use sonny.Adapters.Kuka.{decode_telemetry, parse_bracket_index, xml_pieces}

index : parse_bracket_index (codes "SEND[12]") ≡ some (some 12)
unfolding parse_bracket_index
index = refl

no_index : parse_bracket_index (codes "SEND]1[") ≡ some none
unfolding parse_bracket_index
no_index = refl

abbrev summary : Option (Option (ℕ × List F32 × ℕ)) → List ℕ
summary (some (some (consumed, values, n))) = consumed ∷ n ∷ take 4 values
summary _ = []

-- The index of a variable may be more than the joints of the robot: three values count for one joint.
decoded :
    summary (decode_telemetry (codes "<Var Name=\"SEND[3]\">-1.5</Var></Rob>x") 1)
    ≡ 36 ∷ 3 ∷ 0 ∷ 0 ∷ 0xBFC0_0000 ∷ 0 ∷ []
unfolding decode_telemetry arithmetic lower
decoded = refl

encoded :
    concat (xml_pieces (0x3E80_0000 ∷ []))
    ≡ codes
        "<?xml version=\"1.0\" encoding=\"UTF-8\"?><Rob><Data><Var Name=\"CMD\">SONNY</Var><Var Name=\"A1\">0.250000</Var></Data></Rob>"
unfolding xml_pieces arithmetic print_uint print_fixed
encoded = refl

-- [0.5, -1.5]
abbrev angles : List F32
angles = 0x3F00_0000 ∷ 0xBFC0_0000 ∷ []

finite : All IsFinite angles
unfolding is_finite
finite = (refl, (refl, tt))

decode_telemetry-reply_example :
    (array : List F32) × (decode_telemetry (reply angles ++ (frame_end ++ codes "<?xml")) 6
      ≡ some (some (length (reply angles) + 6, array, 2)))
    × (take 2 array ≡ map settled angles)
decode_telemetry-reply_example =
    decode_telemetry-reply angles (codes "<?xml") 6 (omega arith) (omega arith) finite
