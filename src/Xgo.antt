-- ===== src/Xgo.antt =====
-- src/io_bridge/adapters/xgo_uart.rs: the frames of the Luwu Dynamics XGO's register protocol. A byte
-- is a number below 256; `none` is a panic of an index or a slice. `checksum` adds in `u16`, which the
-- 255 bytes of a frame cannot fill.
pub mod Uart
pub mod Wire
pub mod Degrees
pub mod Command
pub mod Poll
pub mod Angles
pub mod Resync
mod Tests
use sonny.Prelude.{
  ℕ, zero, suc, not, ◌+◌, ◌-◌, ◌*◌, ◌%◌, Bool, true, false, ◌&&◌, ◌||◌, List, [], ◌∷◌, ◌++◌, map,
  Option, none, some, ◌>>=◌, if◌then◌else◌, ltb, leb, ◌==◌, min, length, get_elem?, get_or, set,
  take, drop, replicate, copy_into, overwrite, for_range,
}
use sonny.Float.{
  F32, f32, le, add, sub, mul, div, of_uint, to_uint, neg, clamp, is_finite, from_le_bytes,
}
use sonny.Vectors.{CommandVector, zero_array}
use sonny.Adapters.{BrandAdapter, Decoded, Encoded, register_framed}

abbrev pub leg_motors : ℕ
leg_motors = 12

abbrev pub reg_motor_angle : ℕ
reg_motor_angle = 0x50

-- `255 - ((LEN + MODE + ADDR + Σ data) % 256)`
abbrev pub sum : List ℕ → ℕ
sum [] = 0
sum (x ∷ xs) = x + sum xs

unfoldable pub checksum : (len mode addr : ℕ) → List ℕ → ℕ
checksum len mode addr body = 255 - (len + mode + addr + sum body) % 256

-- `out[i] = v`
abbrev pub store : List ℕ → ℕ → ℕ → Option (List ℕ)
store out i v = copy_into out i (v ∷ [])

-- The buffer with the frame at its front, and the number of bytes written.
unfoldable pub push_frame : List ℕ → (mode addr : ℕ) → List ℕ → Option (List ℕ × ℕ)
unfolding checksum copy_into overwrite
push_frame out mode addr body =
    let total = length body + 8 in
    if ltb (length out) total || ltb 255 total then some (out, 0) else (do
      out ← store out 0 0x55
      out ← store out 1 0x00
      out ← store out 2 total
      out ← store out 3 mode
      out ← store out 4 addr
      out ← copy_into out 5 body
      out ← store out (5 + length body) (checksum total mode addr body)
      out ← store out (6 + length body) 0x00
      out ← store out (7 + length body) 0xAA
      some (out, total))

pub data Scan : Type 0 where
  frame : (len addr data_len : ℕ) → Scan
  incomplete : Scan
  garbage : (skip : ℕ) → Scan

-- The first pair of header bytes: `windows(2).position(..)`
unfoldable pub position : List ℕ → Option ℕ
position [] = none
position (a ∷ []) = none
position (a ∷ b ∷ rest) =
    let later = position (b ∷ rest) in
    if (a == 0x55) && (b == 0x00) then some 0 else (do i ← later; some (suc i))

-- The last byte of a header: `rposition(..)`
unfoldable pub rposition : List ℕ → Option ℕ
rposition [] = none
rposition (b ∷ rest) = elim (rposition rest) [
  | some i ↦ some (suc i)
  | none ↦ if b == 0x55 then some 0 else none
]

-- `&acc[from..to]`
unfoldable pub slice : List ℕ → (from to : ℕ) → Option (List ℕ)
slice acc from to =
    if leb from to && leb to (length acc) then some (take (to - from) (drop from acc)) else none

-- The tail and the checksum of a frame that is buffered.
unfoldable pub check_frame : List ℕ → (len : ℕ) → Option Scan
unfolding slice checksum
check_frame acc len = do
  mode ← get_elem? acc 3
  addr ← get_elem? acc 4
  chk ← get_elem? acc (5 + (len - 8))
  tail0 ← get_elem? acc (len - 2)
  tail1 ← get_elem? acc (len - 1)
  body ← slice acc 5 (5 + (len - 8))
  some (
      if not ((tail0 == 0x00) && (tail1 == 0xAA))
      then garbage 2
      else if not (checksum len mode addr body == chk)
      then garbage 2
      else frame len addr (len - 8))

-- What is checked once a header stands at the front.
unfoldable pub scan_body : List ℕ → Option Scan
unfolding check_frame
scan_body acc = do
  len ← get_elem? acc 2
  if ltb len 9 || ltb 64 len
      then some (garbage 2)
      else if ltb (length acc) len
      then some incomplete
      else check_frame acc len

unfoldable pub scan_frame : List ℕ → Option Scan
unfolding position rposition scan_body
scan_frame acc = elim (position (take (length acc - 1) acc)) [
  | none ↦ some (garbage (elim (rposition acc) [ some p ↦ suc p | none ↦ length acc ]))
  | some start ↦
      if ltb 0 start
      then some (garbage start)
      else if ltb (length acc) 3
      then some incomplete
      else scan_body acc
]
