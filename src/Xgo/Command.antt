-- ===== src/Xgo/Command.antt =====
-- The frames that a command becomes.
use mathlib.Core.Path.{ap₂}
use mathlib.Core.List.{append_assoc, append-nil}
use sonny.Prelude.{
  ℕ, zero, suc, ◌+◌, ◌%◌, ◌≤◌, ◌<◌, ◌≡◌, if◌then◌else◌, refl, sym, ap, ◌∙◌, Bool, true, false, List,
  [], ◌∷◌, ◌++◌, Option, some, ltb, leb, arith, min, length, get_or, get_elem?-eq-get_or, drop,
  length-append, length-drop, take-append, drop-append, drop-drop, Returns,
}
use sonny.Float.{F32, f32, le, mul, div, sub, neg, to_uint, clamp, clamp_in}
use sonny.Xgo.Degrees.{joint_limits_deg-mod}
use sonny.Vectors.{CommandVector, IsValid}
use sonny.Xgo.Wire.{wire, length-wire, push_frame-wire}
use sonny.Xgo.Uart.{
  push_at, joint_bytes, velocity_bytes, action_byte, push_part, encode_command, conver2u8, rad2deg,
  joint_limits_deg,
}

-- The frame of a part of a command, if its slots are used.
abbrev pub part : Bool → (addr : ℕ) → List ℕ → List ℕ
part true addr body = wire 0x00 addr body
part false addr body = []

push_part-part :
    (used : Bool) (addr : ℕ) (body done rest : List ℕ)
    → length body ≤ 247
    → length body + 8 ≤ length rest
    → push_part used addr (some body) (done ++ rest, length done)
      ≡ some (
        (done ++ part used addr body) ++ drop (length (part used addr body)) rest,
        length (done ++ part used addr body),
      )
unfolding push_part push_at
push_part-part false addr body done rest h k = rw (append-nil done) refl
push_part-part true addr body done rest h k =
    let fits : leb (length done) (length (done ++ rest)) ≡ true =
      ground (arith, length-append done rest) in
    let size : length done + (length body + 8) ≡ length (done ++ wire 0x00 addr body) =
      omega (arith, length-append done (wire 0x00 addr body), length-wire 0x00 addr body) in
    let w = wire 0x00 addr body in
    rw (fits, drop-append done rest, push_frame-wire rest 0x00 addr body h k, take-append done rest)
      (ap₂ (λ a b. some (a, b))
        (sym (append_assoc done w (drop (length body + 8) rest))
          ∙ ap (λ n. (done ++ w) ++ drop n rest) (sym (length-wire 0x00 addr body)))
        size)

-- A part whose payload can be made, behind what is already written.
pub push_part-wire :
    (used : Bool) (addr : ℕ) (payload : Option (List ℕ)) (body done out : List ℕ)
    → payload ≡ some body
    → length body ≤ 247
    → length done + (length body + 8) ≤ length out
    → push_part used addr payload (done ++ drop (length done) out, length done)
      ≡ some (
        (done ++ part used addr body) ++ drop (length (done ++ part used addr body)) out,
        length (done ++ part used addr body),
      )
push_part-wire used addr payload body done out e h k =
    ap (λ p. push_part used addr p (done ++ drop (length done) out, length done)) e
    ∙ push_part-part used addr body done (drop (length done) out) h
        (omega (arith, k, length-drop (length done) out))
    ∙ ap
        (λ rest. some ((done ++ part used addr body) ++ rest, length (done ++ part used addr body)))
        (drop-drop (length (part used addr body)) (length done) out
          ∙ ap (λ n. drop n out) (sym (length-append done (part used addr body))))

length-part :
    (used : Bool) (addr : ℕ) (body : List ℕ) → length (part used addr body) ≤ length body + 8
length-part true addr body = omega (arith, length-wire 0x00 addr body)
length-part false addr body = omega arith

-- The byte of a value in a range: 255 at its upper end or above, 0 at its lower end or below, and in
-- between the value's distance from the lower end in 255ths of the range, cut off.
abbrev pub level : F32 × F32 → F32 → ℕ
level (lo, hi) v =
    if le f32 hi v
    then 255
    else if le f32 v lo
    then 0
    else to_uint f32 255 (mul f32 (div f32 0x437F_0000 (sub f32 hi lo)) (sub f32 v lo))

-- 180 v / π
abbrev pub degrees : F32 → F32
degrees v = div f32 (mul f32 v 0x4334_0000) 0x4049_0FDB

-- -70 to 50, -70 to 90 and -30 to 30 degrees: the motors of a leg.
abbrev pub leg_limits : ℕ → F32 × F32
leg_limits zero = (0xC28C_0000, 0x4248_0000)
leg_limits (suc zero) = (0xC28C_0000, 0x42B4_0000)
leg_limits (suc (suc _)) = (0xC1F0_0000, 0x41F0_0000)

-- 100 vx within 25, 100 vy within 18, and the yaw within 100 degrees: slots 12, 13 and 14.
abbrev pub gait_levels : List F32 → List ℕ
gait_levels targets =
    level (0xC1C8_0000, 0x41C8_0000) (mul f32 (get_or targets 12 0) 0x42C8_0000)
    ∷ level (0xC190_0000, 0x4190_0000) (mul f32 (get_or targets 13 0) 0x42C8_0000)
    ∷ level (0xC2C8_0000, 0x42C8_0000) (degrees (get_or targets 14 0))
    ∷ []

-- Slot 15, clamped to 0 and 255 and cut off.
abbrev pub action_level : List F32 → List ℕ
action_level targets = to_uint f32 255 (clamp_in f32 (get_or targets 15 0) 0 0x437F_0000) ∷ []

leg : (j : ℕ) → j < 3 → joint_limits_deg j ≡ leg_limits j
unfolding joint_limits_deg
leg zero h = refl
leg (suc zero) h = refl
leg (suc (suc zero)) h = refl
leg (suc (suc (suc j))) h = absurd (omega (arith, h))

conver2u8-level :
    (joint : ℕ) (v : F32)
    → (let (lo, hi) = joint_limits_deg joint in conver2u8 (rad2deg v) lo hi)
      ≡ level (leg_limits (joint % 3)) (degrees v)
unfolding conver2u8 rad2deg
conver2u8-level joint v = rw (joint_limits_deg-mod joint ∙ leg (joint % 3) (omega arith)) refl

-- Each byte is the level of its joint's angle.
abbrev AreLevels : List F32 → (first n : ℕ) → List ℕ → Type 0
AreLevels targets first n bytes =
    (k : ℕ)
    → k < n
    → get_or bytes k 0
      ≡ level (leg_limits ((first + k) % 3)) (degrees (get_or targets (first + k) 0))

joint_bytes-Returns :
    (targets : List F32) (first n : ℕ)
    → first + n ≤ length targets
    → Returns
        (λ bytes. (length bytes ≡ n) × AreLevels targets first n bytes)
        (joint_bytes targets first n)
unfolding joint_bytes
joint_bytes-Returns targets first zero h =
    ([], refl, (refl, λ k none. absurd (omega (arith, none))))
joint_bytes-Returns targets first (suc n) h =
    let (rest, runs, (size, levels)) =
      joint_bytes-Returns targets (suc first) n (omega (arith, h)) in
    let v = get_or targets first 0 in
    let (lo, hi) = joint_limits_deg first in
    (
      conver2u8 (rad2deg v) lo hi ∷ rest,
      rw (joint_bytes, get_elem?-eq-get_or targets first 0 (omega (arith, h)), runs) refl,
      (ap suc size, each (conver2u8 (rad2deg v) lo hi) rest (conver2u8-level first v) levels),
    )
  where
    each :
        (byte : ℕ) (rest : List ℕ)
        → byte ≡ level (leg_limits (first % 3)) (degrees (get_or targets first 0))
        → AreLevels targets (suc first) n rest
        → AreLevels targets first (suc n) (byte ∷ rest)
    each byte rest e levels zero h = let same : first + 0 ≡ first = omega arith in rw same e
    each byte rest e levels (suc k) h =
        let same : first + suc k ≡ suc first + k = omega arith in
        rw same (levels k (omega (arith, h)))

velocity_bytes-levels :
    (targets : List F32) → 15 ≤ length targets → velocity_bytes targets ≡ some (gait_levels targets)
unfolding velocity_bytes conver2u8 rad2deg neg
velocity_bytes-levels targets h =
    rw
      (
        get_elem?-eq-get_or targets 12 0 (omega (arith, h)),
        get_elem?-eq-get_or targets 13 0 (omega (arith, h)),
        get_elem?-eq-get_or targets 14 0 (omega (arith, h)),
      )
      refl

action_byte-level :
    (targets : List F32) → 16 ≤ length targets → action_byte targets ≡ some (action_level targets)
unfolding action_byte clamp le
action_byte-level targets h = rw (get_elem?-eq-get_or targets 15 0 (omega (arith, h))) refl

-- A valid command and a buffer of at least 64 bytes: the command becomes the frames of its parts,
-- one behind the other at the front of the buffer. For each of the first twelve joints, as far as
-- the command has them, there is the level of its angle in its range; if it has 15 values, the
-- levels of the three velocities of the gait; and if it has 16, the action. Nothing panics,
-- whatever the bits of the values are, and the rest of the buffer stays.
pub encode_command-frames :
    (c : CommandVector) (out : List ℕ)
    → IsValid c
    → 64 ≤ length out
    → (joints : List ℕ) × (let sent =
          (part (ltb 0 (min c.len 12)) 0x50 joints
            ++ part (leb 15 c.len) 0x30 (gait_levels c.target_actuators))
          ++ part (leb 16 c.len) 0x3E (action_level c.target_actuators) in
        encode_command c out ≡ some (sent ++ drop (length sent) out, length sent))
      × (length joints ≡ min c.len 12)
      × ((k : ℕ)
          → k < min c.len 12
          → get_or joints k 0
            ≡ level (leg_limits (k % 3)) (degrees (get_or c.target_actuators k 0)))
unfolding encode_command
encode_command-frames c out v room =
    let targets = c.target_actuators in
    let (joints, ej, (lj, levels)) =
      joint_bytes-Returns targets 0 (min c.len 12) (omega (arith, v.array)) in
    let gait = gait_levels targets in
    let action = action_level targets in
    let first = part (ltb 0 (min c.len 12)) 0x50 joints in
    let second = part (leb 15 c.len) 0x30 gait in
    let l1 : length first ≤ 20 =
      omega (arith, length-part (ltb 0 (min c.len 12)) 0x50 joints, lj) in
    let l2 : length (first ++ second) ≤ 31 =
      omega (arith, length-append first second, length-part (leb 15 c.len) 0x30 gait, l1) in
    (
      joints,
      rw
          (
            push_part-wire (ltb 0 (min c.len 12)) 0x50 (joint_bytes targets 0 (min c.len 12)) joints
                [] out ej (omega (arith, lj)) (omega (arith, lj, room)),
            push_part-wire (leb 15 c.len) 0x30 (velocity_bytes targets) gait first out
                (velocity_bytes-levels targets (omega (arith, v.array))) (omega arith)
                (omega (arith, l1, room)),
          )
          (push_part-wire (leb 16 c.len) 0x3E (action_byte targets) action (first ++ second) out
            (action_byte-level targets (omega (arith, v.array))) (omega arith)
            (omega (arith, l2, room))),
      lj,
      (λ k h. let same : 0 + k ≡ k = omega arith in rw same at (levels k h)),
    )
