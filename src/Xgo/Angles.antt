-- ===== src/Xgo/Angles.antt =====
-- What a reply with motor angles changes of the snapshot.
use sonny.Prelude.{
  ℕ, zero, All, suc, ◌+◌, ◌-◌, ◌%◌, ◌≤◌, ◌<◌, ◌≡◌, refl, sym, ap, ◌∙◌, Bool, true, false, ◌&&◌,
  List, [], ◌∷◌, ◌++◌, some, if◌then◌else◌, ltb, leb, arith, min, length, get_or, set, take,
  length-set, get_or-set_self, get_or-set_ne, length-append, take-append, Returns, Bool-cases,
  lt_or_le, inl, inr,
}
use sonny.Float.{F32}
use mathlib.Core.List.{append_assoc}
use sonny.Xgo.{checksum, slice, reg_motor_angle, leg_motors}
use sonny.Xgo.Wire.{wire, length-wire, scan_frame-wire}
use sonny.Xgo.Degrees.{leg_range, is_near, decoded, decoded-near}
use sonny.Xgo.Uart.{XgoUart, put_angles, merge, decode_telemetry}

-- The joints that some bytes from `first` on reach.
abbrev pub reached : (n first count k : ℕ) → Bool
reached n first count k = leb first k && (ltb k n && ltb k (first + count))

length-put_angles :
    (n j : ℕ) (body : List ℕ) (guard : List F32) → length (put_angles n j body guard) ≡ length guard
unfolding put_angles
length-put_angles n j [] guard = refl
length-put_angles n j (raw ∷ body) guard = elim (Bool-cases (leb n j)) [
  | inl e ↦ rw e refl
  | inr e ↦ rw e (
      length-put_angles n (suc j) body (set guard j (decoded j raw))
      ∙ length-set guard j (decoded j raw))
]

put_angles-get :
    (n j : ℕ) (body : List ℕ) (guard : List F32) (k : ℕ)
    → n ≤ length guard
    → get_or (put_angles n j body guard) k 0 ≡ (
        if reached n j (length body) k then decoded k (get_or body (k - j) 0) else get_or guard k 0)
unfolding put_angles
put_angles-get n j [] guard k h = let past : reached n j 0 k ≡ false = ground arith in rw past refl
put_angles-get n j (raw ∷ body) guard k h = elim (Bool-cases (leb n j)) [
  | inl e ↦
      let past : reached n j (suc (length body)) k ≡ false = ground (arith, e) in rw (e, past) refl
  | inr e ↦
      let v = decoded j raw in
      let room : n ≤ length (set guard j v) = omega (arith, h, length-set guard j v) in
      rw (e, put_angles-get n (suc j) body (set guard j v) k room)
        (elim (lt_or_le k j) [
          | inl before ↦
              let not_yet : reached n (suc j) (length body) k ≡ false = ground (arith, before) in
              let neither : reached n j (suc (length body)) k ≡ false = ground (arith, before) in
              rw (not_yet, neither)
                (get_or-set_ne guard j k v 0 (λ same. omega (arith, before, same)))
          | inr from ↦ elim (lt_or_le j k) [
            | inl later ↦
                let same : reached n (suc j) (length body) k ≡ reached n j (suc (length body)) k =
                  ground (arith, later) in
                let next : k - j ≡ suc (k - suc j) = omega (arith, later) in
                rw (same, next, get_or-set_ne guard j k v 0 (λ same. omega (arith, later, same)))
                  refl
            | inr until ↦
                let here : j ≡ k = omega (arith, from, until) in
                let first : reached n (suc j) (length body) j ≡ false = ground arith in
                let now : reached n j (suc (length body)) j ≡ true = ground (arith, e) in
                let start : j - j ≡ 0 = omega arith in
                rw (sym here, first, now, start)
                  (get_or-set_self guard j v 0 (ground (arith, e, h)))
          ]
        ])
]

slice-wire :
    (mode addr : ℕ) (body rest : List ℕ)
    → slice (wire mode addr body ++ rest) 5 (5 + length body) ≡ some body
unfolding slice
slice-wire mode addr body rest =
    let acc = wire mode addr body ++ rest in
    let inside : (leb 5 (5 + length body) && leb (5 + length body) (length acc)) ≡ true =
      ground (arith, length-append (wire mode addr body) rest, length-wire mode addr body) in
    let size : 5 + length body - 5 ≡ length body = omega arith in
    let tail = checksum (length body + 8) mode addr body ∷ 0x00 ∷ 0xAA ∷ [] in
    rw (inside, size)
      (ap (λ l. some (take (length body) l)) (append_assoc body tail rest)
        ∙ ap some (take-append body (tail ++ rest)))

merge-motors :
    (joint_count base : ℕ) (body : List ℕ) (guard : List F32)
    → base < leg_motors
    → merge joint_count (reg_motor_angle + base) body guard
      ≡ put_angles (min joint_count leg_motors) base body guard
unfolding merge
merge-motors joint_count base body guard h =
    let back : (reg_motor_angle + base + 256 - reg_motor_angle) % 256 ≡ base = omega (arith, h) in
    let motor : ltb base leg_motors ≡ true = ground (arith, h) in rw (back, motor) refl

All-get_or : (body : List ℕ) (i : ℕ) → All (λ b. b < 256) body → get_or body i 0 < 256
All-get_or [] i h = omega arith
All-get_or (b ∷ body) zero (h, _) = h
All-get_or (b ∷ body) (suc i) (_, h) = All-get_or body i h

put_angles-near :
    (n base : ℕ) (body : List ℕ) (guard : List F32) (k : ℕ)
    → n ≤ length guard
    → All (λ b. b < 256) body
    → reached n base (length body) k ≡ true
    → is_near
        (leg_range (k % 3))
        (get_or body (k - base) 0)
        (get_or (put_angles n base body guard) k 0)
      ≡ true
put_angles-near n base body guard k h bytes there =
    rw (put_angles-get n base body guard k h, there)
      (decoded-near k (get_or body (k - base) 0) (All-get_or body (k - base) bytes))

-- A reply of one to 56 bytes from a motor register is decoded without a panic and taken from the
-- stream whole. Each byte gives its joint, as far as the robot has it, a number within 10^-6 of the
-- angle, in radians, that the byte stands for in 255 equal steps from -70 to 50 degrees, -70 to 90 or
-- -30 to 30, by the motor's place in its leg; every other slot stays, and so does the poll phase; what
-- is reported is the new snapshot.
pub decode_telemetry-wire :
    (x : XgoUart) (mode base : ℕ) (body rest : List ℕ) (joint_count : ℕ)
    → length x.snapshot ≡ 32
    → base < 12
    → 1 ≤ length body
    → length body ≤ 56
    → All (λ b. b < 256) body
    → Returns
        (λ r.
          (r.1 ≡ some (length body + 8, r.0.snapshot, 16))
          × (length r.0.snapshot ≡ 32)
          × (r.0.poll_phase ≡ x.poll_phase)
          × ((k : ℕ)
              → reached (min joint_count 12) base (length body) k ≡ true
              → is_near (leg_range (k % 3)) (get_or body (k - base) 0) (get_or r.0.snapshot k 0)
                ≡ true)
          × ((k : ℕ)
              → reached (min joint_count 12) base (length body) k ≡ false
              → get_or r.0.snapshot k 0 ≡ get_or x.snapshot k 0))
        (decode_telemetry x (wire mode (0x50 + base) body ++ rest) joint_count)
unfolding decode_telemetry
decode_telemetry-wire x mode base body rest joint_count size motor low high bytes =
    let n = min joint_count leg_motors in
    let values = put_angles n base body x.snapshot in
    let room : n ≤ length x.snapshot = omega (arith, size) in
    (
      (record x { snapshot = values }, some (length body + 8, values, 16)),
      rw
          (
            scan_frame-wire mode (reg_motor_angle + base) body rest low high,
            slice-wire mode (reg_motor_angle + base) body rest,
            merge-motors joint_count base body x.snapshot motor,
          )
          refl,
      (
        refl,
        length-put_angles n base body x.snapshot ∙ size,
        refl,
        (λ k there. put_angles-near n base body x.snapshot k room bytes there),
        (λ k free. rw (put_angles-get n base body x.snapshot k room, free) refl),
      ),
    )
