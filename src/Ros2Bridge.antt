-- ===== src/Ros2Bridge.antt =====
-- src/ros2_bridge/topic_converter.rs: the bridge from the joint states of ROS 2 to the local sensors. A
-- sample is the list of its bytes; `none` is a panic of the parser, which ends the bridge's task. The
-- session is left out: the samples come in order, and a `put` that fails is dropped.
pub mod Panics
pub mod Payload
mod Tests
use sonny.Prelude.{
  ℕ, ◌+◌, ◌-◌, ◌*◌, ◌||◌, Bool, true, false, List, [], ◌∷◌, ◌++◌, Option, none, some, ◌>>=◌, ltb,
  leb, ◌==◌, if◌then◌else◌, min, length, get_elem?, take, replicate,
}
use sonny.Float.{f32, of_uint, to_le_bytes, from_le_bytes}
use sonny.Adapters.Packet.{sub_slice}

-- The loop over `chunks(4)`: the last chunk is filled up with zeros.
unfoldable pub pack_words : List ℕ → List ℕ
pack_words (a ∷ b ∷ c ∷ d ∷ rest) = to_le_bytes (from_le_bytes a b c d) ++ pack_words rest
pack_words (a ∷ b ∷ c ∷ []) = to_le_bytes (from_le_bytes a b c 0)
pack_words (a ∷ b ∷ []) = to_le_bytes (from_le_bytes a b 0 0)
pack_words (a ∷ []) = to_le_bytes (from_le_bytes a 0 0 0)
pack_words [] = []

-- The loop over `chunks(2)`: `copy_from_slice` panics on a chunk of one byte.
unfoldable pub pack_registers : List ℕ → Option (List ℕ)
pack_registers (a ∷ b ∷ rest) = do
  more ← pack_registers rest
  some (to_le_bytes (of_uint f32 (a * 256 + b)) ++ more)
pack_registers (a ∷ []) = none
pack_registers [] = some []

-- `vec![0u8; 16]`
abbrev pub blank : List ℕ
blank = replicate 16 0

-- The branch of the function codes 0x03 and 0x04.
unfoldable pub parse_read : List ℕ → Option (List ℕ)
unfolding pack_words sub_slice
parse_read raw = do
  byte_count ← get_elem? raw 1
  if leb (2 + byte_count + 2) (length raw)
      then (do payload ← sub_slice raw 2 (2 + byte_count); some (pack_words payload))
      else some blank

-- The branch of the function code 0x10. The number of registers is read and not used.
unfoldable pub parse_write : List ℕ → Option (List ℕ)
unfolding pack_registers sub_slice
parse_write raw = do
  high ← get_elem? raw 4
  low ← get_elem? raw 5
  byte_count ← get_elem? raw 6
  if leb (7 + byte_count) (length raw)
      then (do payload ← sub_slice raw 7 (7 + byte_count); pack_registers payload)
      else some blank

-- Any other message: its first 16 bytes, filled up with zeros.
unfoldable pub parse_other : List ℕ → List ℕ
parse_other raw =
    let len = min (length raw) 16 in
    if ltb len 16 then take len raw ++ replicate (16 - len) 0 else take 16 raw

unfoldable pub fieldbus_parse_modbus_frame : List ℕ → Option (List ℕ)
unfolding parse_read parse_write parse_other
fieldbus_parse_modbus_frame raw = if ltb (length raw) 4 then some blank else (do
  code ← get_elem? raw 0
  if (code == 0x03) || (code == 0x04)
      then parse_read raw
      else if code == 0x10
      then parse_write raw
      else some (parse_other raw))

-- What the bridge publishes of the samples that come in, and whether it is still there after them.
unfoldable pub start_bridge : List (List ℕ) → List (List ℕ) × Bool
unfolding fieldbus_parse_modbus_frame
start_bridge [] = ([], true)
start_bridge (raw ∷ samples) = elim (fieldbus_parse_modbus_frame raw) [
  | none ↦ ([], false)
  | some converted ↦ let rest = start_bridge samples in (converted ∷ rest.0, rest.1)
]
