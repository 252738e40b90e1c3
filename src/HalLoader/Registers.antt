-- ===== src/HalLoader/Registers.antt =====
-- Where the limits of the gripper stand among those of the joints.
use sonny.Prelude.{
  ℕ, zero, suc, ◌+◌, ◌<◌, ◌≡◌, refl, ap, ◌∙◌, sym, true, false, List, [], ◌∷◌, ◌++◌, map, some,
  if◌then◌else◌, leb, ◌==◌, arith, length, take, drop,
}
use sonny.Float.{F32}
use sonny.Limits.{Limits}
use sonny.HalLoader.{
  JointConfig, GripperConfig, HardwareConfig, joint_limits, joint_registers, register_limits,
}

module _ (g : GripperConfig) where
  abbrev gripper_limits : F32 × F32
  gripper_limits = (g.min_pressure_n, g.max_pressure_n)

  abbrev last_register : ℕ → Limits
  last_register n = if leb n g.pressure_slot then gripper_limits ∷ [] else []

  registers_past :
      (i : ℕ) (joints : List JointConfig)
      → g.pressure_slot < i
      → joint_registers g i joints ++ last_register (i + length joints) ≡ map joint_limits joints
  unfolding joint_registers
  registers_past i [] h =
      let past : leb (i + 0) g.pressure_slot ≡ false = ground arith in rw past refl
  registers_past i (j ∷ joints) h =
      let other : (i == g.pressure_slot) ≡ false = ground arith in
      let shift : i + suc (length joints) ≡ suc i + length joints = omega arith in
      rw (other, shift) (ap (joint_limits j ∷◌) (registers_past (suc i) joints (omega arith)))

  registers_insert :
      (i k : ℕ) (joints : List JointConfig)
      → g.pressure_slot ≡ i + k
      → joint_registers g i joints ++ last_register (i + length joints)
        ≡ take k (map joint_limits joints) ++ (gripper_limits ∷ drop k (map joint_limits joints))
  unfolding joint_registers
  registers_insert i zero [] e =
      let here : leb (i + 0) g.pressure_slot ≡ true = ground arith in rw here refl
  registers_insert i (suc k) [] e =
      let here : leb (i + 0) g.pressure_slot ≡ true = ground arith in rw here refl
  registers_insert i zero (j ∷ joints) e =
      let same : (i == g.pressure_slot) ≡ true = ground arith in
      let shift : i + suc (length joints) ≡ suc i + length joints = omega arith in
      rw (same, shift)
        (ap (λ l. gripper_limits ∷ joint_limits j ∷ l)
          (registers_past (suc i) joints (omega arith)))
  registers_insert i (suc k) (j ∷ joints) e =
      let other : (i == g.pressure_slot) ≡ false = ground arith in
      let shift : i + suc (length joints) ≡ suc i + length joints = omega arith in
      rw (other, shift) (ap (joint_limits j ∷◌) (registers_insert (suc i) k joints (omega arith)))

-- The gripper's limits stand at its slot between those of the joints, if there are as many joints as
-- the slot says; else they stand behind all of them.
pub register_limits-insert :
    (h : HardwareConfig) (g : GripperConfig)
    → h.gripper ≡ some g
    → let limits = map joint_limits h.joints in
      register_limits h
      ≡ take g.pressure_slot limits
        ++ ((g.min_pressure_n, g.max_pressure_n) ∷ drop g.pressure_slot limits)
unfolding register_limits
register_limits-insert h g e =
    let zero_add : 0 + length h.joints ≡ length h.joints = omega arith in
    rw e (
      ap (λ n. joint_registers g 0 h.joints ++ last_register g n) (sym zero_add)
      ∙ registers_insert g 0 g.pressure_slot h.joints (omega arith))
