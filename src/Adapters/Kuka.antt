-- ===== src/Adapters/Kuka.antt =====
-- src/io_bridge/adapters/kuka_eth_krl.rs: frames of XML. The labels are left out. The `while let` over
-- the variables runs on fuel; `none` is a panic, or fuel that is used up, and neither happens.
pub mod Find
pub mod Progress
pub mod Skips
pub mod Reply
pub mod Element
pub mod Frames
mod Tests
use sonny.Prelude.{
  ℕ, zero, suc, ◌+◌, ◌-◌, Bool, true, false, ◌&&◌, List, [], ◌∷◌, ◌++◌, Option, none, some, ◌>>=◌,
  if◌then◌else◌, leb, ltb, ◌==◌, min, max, length, set, take, drop, get_elem?,
}
use sonny.Float.{F32}
use sonny.Vectors.{CommandVector, max_joints, zero_array, as_slice}
use sonny.Text.{codes, write_pieces, print_uint, print_fixed, trim, parse_f32, parse_usize}
use sonny.Brand.{starts_with}
use sonny.Adapters.{BrandAdapter, Decoded, Encoded, delimited}
use sonny.Adapters.Binary.{estop_zeros}
use sonny.Adapters.Packet.{sub_slice}

-- `haystack.windows(needle.len()).position(..)`, for a needle that is not empty.
unfoldable pub find_subslice : List ℕ → List ℕ → Option ℕ
find_subslice [] needle = none
find_subslice (c ∷ cs) needle =
    let rest = find_subslice cs needle in
    if starts_with (c ∷ cs) needle then some 0 else (do i ← rest; some (suc i))

unfoldable pub find_from : List ℕ → List ℕ → ℕ → Option ℕ
unfolding find_subslice
find_from haystack needle from =
    if ltb (length haystack) from
    then none
    else (do i ← find_subslice (drop from haystack) needle; some (i + from))

pub record ParsedVar : Type 0 where
  pub name : List ℕ
  pub value : F32
  pub next_offset : ℕ

-- Where the parts of an element stand.
pub record Places : Type 0 where
  pub name_begin : ℕ
  pub name_end : ℕ
  pub close : ℕ
  pub value_end : ℕ

abbrev pub name_tag : List ℕ
name_tag = codes "<Var Name=\""

abbrev pub end_tag : List ℕ
end_tag = codes "</Var>"

unfoldable pub locate_var : List ℕ → ℕ → Option Places
unfolding find_from
locate_var body from = do
  start ← find_from body name_tag from
  let name_begin = start + 11
  name_end ← find_from body (codes "\"") name_begin
  close ← find_from body (codes ">") (name_end + 1)
  value_end ← find_from body end_tag (close + 1)
  some (record {
    name_begin = name_begin;
    name_end = name_end;
    close = close;
    value_end = value_end;
  })

unfoldable pub read_var : List ℕ → Places → Option (Option ParsedVar)
unfolding sub_slice trim parse_f32
read_var body p = do
  name ← sub_slice body p.name_begin p.name_end
  text ← sub_slice body (p.close + 1) p.value_end
  some (do
    value ← parse_f32 (trim text)
    some (record { name = name; value = value; next_offset = p.value_end + 6 }))

unfoldable pub parse_var : List ℕ → ℕ → Option (Option ParsedVar)
unfolding locate_var read_var
parse_var body from = elim (locate_var body from) [ none ↦ some none | some p ↦ read_var body p ]

unfoldable pub parse_bracket_index : List ℕ → Option (Option ℕ)
unfolding find_subslice sub_slice trim parse_usize
parse_bracket_index name = elim (find_subslice name (codes "[")) [
  | none ↦ some none
  | some open_at ↦ elim (find_subslice name (codes "]")) [
    | none ↦ some none
    | some close ↦
        if leb close open_at
        then some none
        else (do text ← sub_slice name (open_at + 1) close; some (parse_usize (trim text)))
  ]
]

-- The slot of a variable: its index, counted from one, or the next free one.
unfoldable pub slot_of : Option ℕ → ℕ → ℕ
slot_of none n = n
slot_of (some i) n = if leb 1 i && leb i max_joints then i - 1 else n

-- One variable of the loop; `values[idx]` panics past the end.
unfoldable pub take_var : ParsedVar → List F32 × ℕ → Option (List F32 × ℕ)
unfolding parse_bracket_index slot_of
take_var var (values, n) =
    if starts_with var.name (codes "SEND")
    then (do
      index ← parse_bracket_index var.name
      let idx = slot_of index n
      _ ← get_elem? values idx
      some (set values idx var.value, max n (idx + 1)))
    else some (values, n)

unfoldable pub scan_vars :
    (fuel : ℕ) → (body : List ℕ) → (limit search_from : ℕ) → List F32 × ℕ → Option (List F32 × ℕ)
unfolding parse_var take_var
scan_vars zero body limit search_from (values, n) = none
scan_vars (suc fuel) body limit search_from (values, n) = elim (parse_var body search_from) [
  | none ↦ none
  | some none ↦ some (values, n)
  | some (some var) ↦
      if leb limit n
      then some (values, n)
      else (do read ← take_var var (values, n); scan_vars fuel body limit var.next_offset read)
]

unfoldable pub decode_telemetry : List ℕ → (joint_count : ℕ) → Option (Option Decoded)
unfolding find_subslice scan_vars
decode_telemetry acc joint_count = elim (find_subslice acc (codes "</Rob>")) [
  | none ↦ some none
  | some end ↦ (do
    read ← scan_vars (suc end) (take end acc) (min joint_count max_joints) 0 (zero_array, 0)
    some (some (end + 6, read.0, read.1)))
]

abbrev pub xml_header : List ℕ
xml_header = codes "<?xml version=\"1.0\" encoding=\"UTF-8\"?><Rob><Data>"

abbrev pub xml_footer : List ℕ
xml_footer = codes "</Data></Rob>"

-- The variables `A1`, `A2` and so on.
unfoldable pub var_pieces : ℕ → List F32 → List (List ℕ)
var_pieces i [] = xml_footer ∷ []
var_pieces i (v ∷ values) =
    codes "<Var Name=\"A"
    ∷ print_uint (i + 1)
    ∷ codes "\">"
    ∷ print_fixed v
    ∷ end_tag
    ∷ var_pieces (suc i) values

unfoldable pub xml_pieces : List F32 → List (List ℕ)
unfolding var_pieces
xml_pieces values = xml_header ∷ codes "<Var Name=\"CMD\">SONNY</Var>" ∷ var_pieces 0 values

unfoldable pub encode_command : CommandVector → List ℕ → Encoded
unfolding xml_pieces write_pieces
encode_command command out = do
  values ← as_slice command
  sink ← write_pieces (xml_pieces values) (record { buf = out; pos = 0 })
  some (sink.buf, sink.pos)

unfoldable pub kuka_ethernet_krl : BrandAdapter
unfolding decode_telemetry encode_command estop_zeros
kuka_ethernet_krl = record {
  State = Unit;
  frame_strategy = delimited (codes "</Rob>");
  decode_telemetry =
      λ s acc joint_count. (do decoded ← decode_telemetry acc joint_count; some (s, decoded));
  encode_command = encode_command;
  encode_estop = estop_zeros encode_command;
  poll_request = λ s out. some (s, out, 0);
  poll_period_ms = 0;
}
