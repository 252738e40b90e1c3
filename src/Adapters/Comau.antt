-- ===== src/Adapters/Comau.antt =====
-- src/io_bridge/adapters/comau_pdl.rs: lines of numbers between commas. The labels are left out.
pub mod Line
pub mod Roundtrip
pub mod Progress
mod Tests
use sonny.Prelude.{
  ℕ, zero, suc, ◌+◌, Bool, true, false, ◌||◌, List, [], ◌∷◌, ◌++◌, Option, none, some, ◌>>=◌,
  if◌then◌else◌, leb, ◌==◌, min, length, set, take,
}
use sonny.Float.{F32}
use sonny.Vectors.{CommandVector, max_joints, zero_array, as_slice}
use sonny.Text.{write_pieces, print_fixed, trim, parse_f32}
use sonny.Adapters.{BrandAdapter, Decoded, Encoded, delimited}
use sonny.Adapters.Binary.{estop_zeros}

abbrev pub comau_joints : ℕ
comau_joints = 6

-- `acc.windows(1).position(..)`
unfoldable pub find_byte : ℕ → List ℕ → Option ℕ
find_byte b [] = none
find_byte b (c ∷ cs) =
    let rest = find_byte b cs in if c == b then some 0 else (do i ← rest; some (suc i))

-- A comma, or what `is_ascii_whitespace` takes for white space.
abbrev pub is_separator : ℕ → Bool
is_separator c = (c == 44) || ((c == 32) || ((c == 9) || ((c == 10) || ((c == 12) || (c == 13)))))

-- `line.split(..)`, behind the bytes of the field that is open.
unfoldable pub split : List ℕ → List ℕ → List (List ℕ)
split field [] = field ∷ []
split field (c ∷ cs) = if is_separator c then field ∷ split [] cs else split (field ++ (c ∷ [])) cs

abbrev pub is_empty : List ℕ → Bool
is_empty [] = true
is_empty (c ∷ cs) = false

-- The loop over the fields from index `i` on; `none` is its return. A field of bytes that are no text
-- does not parse either.
unfoldable pub read_fields : (limit i : ℕ) → List (List ℕ) → List F32 × ℕ → Option (List F32 × ℕ)
unfolding parse_f32 trim
read_fields limit i [] (values, n) = some (values, n)
read_fields limit i (field ∷ fields) (values, n) =
    if leb limit i || is_empty field then read_fields limit (suc i) fields (values, n) else (do
      value ← parse_f32 (trim field)
      read_fields limit (suc i) fields (set values i value, suc i))

unfoldable pub decode_telemetry : List ℕ → (joint_count : ℕ) → Option Decoded
unfolding find_byte split read_fields
decode_telemetry acc joint_count = do
  end ← find_byte 10 acc
  read ← read_fields (min joint_count max_joints) 0 (split [] (take end acc)) (zero_array, 0)
  some (end + 1, read.0, read.1)

-- What the encoder writes: the values with a comma in front of all but the first, and a newline.
unfoldable pub csv_pieces : ℕ → List F32 → List (List ℕ)
csv_pieces i [] = (10 ∷ []) ∷ []
csv_pieces zero (v ∷ values) = print_fixed v ∷ csv_pieces 1 values
csv_pieces (suc i) (v ∷ values) = (44 ∷ []) ∷ print_fixed v ∷ csv_pieces (suc (suc i)) values

unfoldable pub encode_command : CommandVector → List ℕ → Encoded
unfolding csv_pieces write_pieces
encode_command command out = do
  values ← as_slice command
  sink ← write_pieces (csv_pieces 0 (take comau_joints values)) (record { buf = out; pos = 0 })
  some (sink.buf, sink.pos)

unfoldable pub comau_pdl2 : BrandAdapter
unfolding decode_telemetry encode_command estop_zeros
comau_pdl2 = record {
  State = Unit;
  frame_strategy = delimited (10 ∷ []);
  decode_telemetry = λ s acc joint_count. some (s, decode_telemetry acc joint_count);
  encode_command = encode_command;
  encode_estop = estop_zeros encode_command;
  poll_request = λ s out. some (s, out, 0);
  poll_period_ms = 0;
}
