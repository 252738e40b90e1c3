-- ===== src/Xgo/Tests.antt =====
-- Frames of the repository's own tests.
use sonny.Prelude.{
  ℕ, ◌-◌, ◌%◌, true, false, get_or, ◌+◌, ◌<◌, ◌≡◌, refl, List, [], ◌∷◌, ◌++◌, some, take, drop,
  replicate, arith, length, get_elem?, min, ltb, leb, Returns,
}
use sonny.Vectors.{CommandVector, zeros}
use sonny.Vectors.Valid.{zeros-IsValid}
use sonny.Xgo.Uart.{XgoUart, new_uart, encode_command, encode_estop, decode_telemetry}
use sonny.Xgo.Degrees.{leg_range, is_near}
use sonny.Xgo.Command.{
  part, level, degrees, leg_limits, gait_levels, action_level, encode_command-frames,
}
use sonny.Xgo.Angles.{reached, decode_telemetry-wire}
use sonny.Xgo.Poll.{request, poll_many, poll_many-asks}
use sonny.Xgo.{garbage, scan_frame}
use sonny.Xgo.Wire.{wire}
use sonny.Xgo.Resync.{Consumes, scan_frame-Consumes}

estop_bytes :
    encode_estop 12 (replicate 10 0)
    ≡ some (0x55 ∷ 0x00 ∷ 0x09 ∷ 0x00 ∷ 0x3E ∷ 0xFF ∷ 0xB9 ∷ 0x00 ∷ 0xAA ∷ 0 ∷ [], 9)
unfolding encode_estop
estop_bytes = refl

garbage_first :
    scan_frame (0x00 ∷ 0xFF ∷ 0x12 ∷ wire 2 0x50 (148 ∷ 148 ∷ 148 ∷ [])) ≡ some (garbage 3)
unfolding scan_frame
garbage_first = refl

abbrev body : List ℕ
body = 148 ∷ 111 ∷ 127 ∷ []

-- A frame whose tail is not there yet.
scan_frame-Consumes_example :
    Returns (Consumes (take 8 (wire 2 0x50 body))) (scan_frame (take 8 (wire 2 0x50 body)))
scan_frame-Consumes_example = scan_frame-Consumes (take 8 (wire 2 0x50 body)) (omega arith)

-- A robot at rest, with a leg, an arm, the gait and an action.
abbrev rest : CommandVector
rest = zeros 16

encode_command-frames_example :
    (joints : List ℕ) × (let sent =
        (part (ltb 0 (min rest.len 12)) 0x50 joints
          ++ part (leb 15 rest.len) 0x30 (gait_levels rest.target_actuators))
        ++ part (leb 16 rest.len) 0x3E (action_level rest.target_actuators) in
      encode_command rest (replicate 64 0)
      ≡ some (sent ++ drop (length sent) (replicate 64 0), length sent))
    × (length joints ≡ min rest.len 12)
    × ((k : ℕ)
        → k < min rest.len 12
        → get_or joints k 0
          ≡ level (leg_limits (k % 3)) (degrees (get_or rest.target_actuators k 0)))
encode_command-frames_example =
    encode_command-frames rest (replicate 64 0) (zeros-IsValid 16) (omega arith)

-- Over the wrap of the counter.
abbrev late : XgoUart
late = record new_uart { poll_phase = 254 }

poll_many-asks_example :
    Returns
      (λ r. (i : ℕ) × (i < 6) × (get_elem? r.1 i ≡ some (request 4)))
      (poll_many 6 late (replicate 9 0))
poll_many-asks_example =
    poll_many-asks 4 late (replicate 9 0) (omega arith) (omega arith) (omega arith)

-- A reply from the second leg on, to a robot of five joints: two of its three bytes count.
decode_telemetry-wire_example :
    Returns
      (λ r.
        (r.1 ≡ some (length body + 8, r.0.snapshot, 16))
        × (length r.0.snapshot ≡ 32)
        × (r.0.poll_phase ≡ late.poll_phase)
        × ((k : ℕ)
            → reached (min 5 12) 3 (length body) k ≡ true
            → is_near (leg_range (k % 3)) (get_or body (k - 3) 0) (get_or r.0.snapshot k 0) ≡ true)
        × ((k : ℕ)
            → reached (min 5 12) 3 (length body) k ≡ false
            → get_or r.0.snapshot k 0 ≡ get_or late.snapshot k 0))
      (decode_telemetry late (wire 2 (0x50 + 3) body ++ (85 ∷ [])) 5)
unfolding new_uart
decode_telemetry-wire_example =
    decode_telemetry-wire late 2 3 body (85 ∷ []) 5 refl (omega arith) (omega arith) (omega arith)
      (omega arith, (omega arith, (omega arith, tt)))
