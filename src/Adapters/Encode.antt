-- ===== src/Adapters/Encode.antt =====
-- Every encoder but that of Luwu Dynamics writes into whatever buffer it is given, and no further.
use sonny.Prelude.{
  ℕ, ◌+◌, ◌*◌, ◌/◌, ◌≤◌, ◌<◌, ◌≡◌, refl, ap, ◌∙◌, List, ◌∷◌, arith, min, length, take, drop,
  replicate, length-replicate, length-append, length-take, length-drop, get_elem?-eq-get_or, get_or,
  copy_into-fits, overwrite, length-overwrite, for_range-Returns, Returns,
}
use sonny.Float.{F32, to_le_bytes}
use sonny.Vectors.{CommandVector, IsValid, write_to}
use sonny.Vectors.Codec.{
  encode, length-encode, as_slice-IsValid, write_values_lem, length-to_le_bytes,
}
use sonny.Text.{codes}
use sonny.Text.Writer.{write_pieces_front}
use sonny.Adapters.{Encoded}
use sonny.Adapters.Packet.{encode_franka, put_joint}
use sonny.Adapters.Comau
use sonny.Adapters.Comau.{csv_pieces, comau_joints}
use sonny.Adapters.Kuka
use sonny.Adapters.Kuka.{xml_pieces}
use sonny.Adapters.Script
use sonny.Adapters.Script.{servo_pieces, ur_joints}

-- The buffer keeps its size, and the count does not pass its end.
abbrev pub Fits : List ℕ → List ℕ × ℕ → Type 0
Fits out r = (length r.0 ≡ length out) × (r.1 ≤ length out)

-- A valid command is encoded without a panic.
abbrev pub IsEncoder : (CommandVector → List ℕ → Encoded) → Type 0
IsEncoder encode =
    (c : CommandVector) (out : List ℕ) → IsValid c → Returns (Fits out) (encode c out)

pub write_to-IsEncoder : IsEncoder write_to
unfolding write_to
write_to-IsEncoder c out v =
    let n = min c.len (length out / 4) in
    let (r, runs, (buf, count)) =
      write_values_lem c.target_actuators c.len out (omega (arith, v.array)) in
    let front = encode (take n c.target_actuators) in
    (
      r,
      runs,
      omega (
        arith,
        v.array,
        count,
        ap length buf,
        length-append front (drop (4 * n) out),
        length-encode (take n c.target_actuators),
        length-take n c.target_actuators,
        length-drop (4 * n) out,
      ),
    )

pub comau-IsEncoder : IsEncoder Comau.encode_command
unfolding Comau.encode_command
comau-IsEncoder c out v =
    let (w, runs, (_, size, end)) =
      write_pieces_front out (csv_pieces 0 (take comau_joints (take c.len c.target_actuators))) in
    ((w.buf, w.pos), rw (as_slice-IsValid c v, runs) refl, (size, end))

pub kuka-IsEncoder : IsEncoder Kuka.encode_command
unfolding Kuka.encode_command
kuka-IsEncoder c out v =
    let (w, runs, (_, size, end)) =
      write_pieces_front out (xml_pieces (take c.len c.target_actuators)) in
    ((w.buf, w.pos), rw (as_slice-IsValid c v, runs) refl, (size, end))

pub script-IsEncoder : IsEncoder Script.encode_command
unfolding Script.encode_command
script-IsEncoder c out v =
    let (w, runs, (_, size, end)) =
      write_pieces_front out
        (codes "servoj([" ∷ servo_pieces 0 (take ur_joints (take c.len c.target_actuators))) in
    ((w.buf, w.pos), rw (as_slice-IsValid c v, runs) refl, (size, end))

-- The joints of the robot command lie in its frame of 192 bytes.
put_joint-frame :
    (values : List F32) (i : ℕ) (frame : List ℕ)
    → i < length values
    → i < 7
    → length frame ≡ 192
    → Returns (λ f. length f ≡ 192) (put_joint values i frame)
unfolding put_joint
put_joint-frame values i frame h b size =
    let bytes = to_le_bytes (get_or values i 0) in
    let room : 22 + i * 4 + length bytes ≤ length frame =
      omega (arith, length-to_le_bytes (get_or values i 0)) in
    (
      overwrite frame (22 + i * 4) bytes,
      rw (get_elem?-eq-get_or values i 0 h, copy_into-fits frame (22 + i * 4) bytes room) refl,
      length-overwrite frame (22 + i * 4) bytes room ∙ size,
    )

pub franka-IsEncoder : IsEncoder encode_franka
unfolding encode_franka
franka-IsEncoder c out v =
    let values = take c.len c.target_actuators in
    let n = min (length values) 7 in
    let blank : List ℕ = replicate 192 0 in
    let type_fits : 6 + length (to_le_bytes 1) ≤ length blank =
      omega (arith, length-to_le_bytes 1, length-replicate {A = ℕ} 192 0) in
    let (frame, runs, size) =
      for_range-Returns (λ _ f. length f ≡ 192) (put_joint (take n values)) n
        (λ i f b k.
          put_joint-frame (take n values) i f (omega (arith, length-take n values)) (omega arith) k)
        n 0 n (overwrite blank 6 (to_le_bytes 1)) (omega arith) (omega arith)
        (length-overwrite blank 6 (to_le_bytes 1) type_fits ∙ length-replicate {A = ℕ} 192 0) in
    let m = min 192 (length out) in
    let room : 0 + length (take m frame) ≤ length out = omega (arith, length-take m frame) in
    (
      (overwrite out 0 (take m frame), m),
      rw
          (
            copy_into-fits blank 6 (to_le_bytes 1) type_fits,
            as_slice-IsValid c v,
            runs,
            copy_into-fits out 0 (take m frame) room,
          )
          refl,
      (length-overwrite out 0 (take m frame) room, omega arith),
    )
