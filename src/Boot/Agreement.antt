-- ===== src/Boot/Agreement.antt =====
-- The parts of a system that is started from a file agree on the robot.
use mathlib.Core.Option.{none-ne-some, some-injective}
use sonny.Prelude.{subst, ℕ, ◌≡◌, refl, List, Option, none, some, ◌>>=◌, ◌⊎◌, inl, inr}
use sonny.HalLoader.{HardwareConfig, to_fieldbus_config, transport_of}
use sonny.Fieldbus.{FieldbusConfig, Transport, serial, udp}
use sonny.Brand.{RobotBrand, label}
use sonny.RtLoop.Monitor.{new_loop}
use sonny.Boot.{
  Environment, from_file, from_environment, environment_config, dof_from_environment,
  resolve_fieldbus, of_joints,
}
use sonny.Boot.Sources.{choose}
use sonny.Boot.Start.{BootConfig, boot_config, boot_limits, brand_label, start_rt_loop}

-- The joints, their ranges, the rate and the profile of a fieldbus are those of the start.
abbrev pub Agrees : BootConfig → FieldbusConfig × RobotBrand → Type 0
Agrees b found =
    (found.0.joint_limits_rad ≡ (start_rt_loop b).limits)
    × (found.0.joint_count ≡ (start_rt_loop b).joint_count)
    × (found.0.expected_hz ≡ b.expected_hz)
    × (label found.1 ≡ brand_label b)

abbrev of_file : HardwareConfig → BootConfig
of_file c = record {
  config = some c;
  robot_name = c.robot_name;
  expected_hz = c.expected_hz;
  max_jitter_us = c.max_jitter_us;
  dof = c.dof;
}

environment_config-Agrees :
    (t : Transport) (dof : ℕ) (c : HardwareConfig)
    → Agrees (of_file c) (environment_config t dof (some c))
unfolding environment_config start_rt_loop new_loop boot_limits brand_label of_joints
environment_config-Agrees t dof c = (refl, refl, refl, refl)

-- What is found is built from a transport.
module _ {A C E : Type 0} (P : A → Type 0) (build : C → A) (holds : (t : C) → P (build t)) where
  abbrev built : E ⊎ C → E ⊎ Option A
  built t = elim t [ inl e ↦ inl e | inr t ↦ inr (some (build t)) ]

  abbrev found_in : E ⊎ Option A → Option A
  found_in r = elim r [ inl e ↦ none | inr x ↦ x ]

  abbrev of_config : {B : Type 0} → (B → E ⊎ C) → Option B → E ⊎ Option A
  of_config transport fieldbus = elim fieldbus [ none ↦ inr none | some b ↦ built (transport b) ]

  of_transport : (t : E ⊎ C) (a : A) → found_in (built t) ≡ some a → P a
  of_transport (inl e) a h = absurd (none-ne-some a h)
  of_transport (inr t) a h = subst P (some-injective (build t) a h) (holds t)

  of_fieldbus :
      {B : Type 0}
      → (fieldbus : Option B) (transport : B → E ⊎ C) (a : A)
      → found_in (of_config transport fieldbus) ≡ some a
      → P a
  of_fieldbus none transport a h = absurd (none-ne-some a h)
  of_fieldbus (some b) transport a h = of_transport (transport b) a h

from_file-Agrees :
    (c : HardwareConfig) (found : FieldbusConfig × RobotBrand)
    → from_file (some c) ≡ some found
    → Agrees (of_file c) found
unfolding from_file to_fieldbus_config start_rt_loop new_loop boot_limits brand_label of_joints
from_file-Agrees c found h =
    of_fieldbus (Agrees (of_file c)) _ (λ t. (refl, refl, refl, refl)) c.fieldbus transport_of found
      h

-- The choice between the file and the environment.
choose_cases :
    {A : Type 0} (P : A → Type 0) (x y : A)
    → P x
    → P y
    → (file : Option A) (port bind remote : Option (List ℕ)) (a : A)
    → ((found : A) → file ≡ some found → P found)
    → choose x y file port bind remote ≡ some (some a)
    → P a
choose_cases P x y px py (some found) port bind remote a of_found h =
    subst P (some-injective found a (some-injective (some found) (some a) h)) (of_found found refl)
choose_cases P x y px py none (some port) bind remote a of_found h =
    subst P (some-injective x a (some-injective (some x) (some a) h)) px
choose_cases P x y px py none none none remote a of_found h =
    absurd (none-ne-some a (some-injective none (some a) h))
choose_cases P x y px py none none (some bind) none a of_found h = absurd (none-ne-some (some a) h)
choose_cases P x y px py none none (some bind) (some remote) a of_found h =
    subst P (some-injective y a (some-injective (some y) (some a) h)) py

resolve_fieldbus-Agrees :
    (env : Environment) (c : HardwareConfig) (found : FieldbusConfig × RobotBrand)
    → resolve_fieldbus env (some c) ≡ some (some found)
    → Agrees (of_file c) found
unfolding resolve_fieldbus from_environment
resolve_fieldbus-Agrees env c found h =
    choose_cases (Agrees (of_file c))
      (environment_config serial (dof_from_environment env) (some c))
      (environment_config udp 6 (some c))
      (environment_config-Agrees serial (dof_from_environment env) c)
      (environment_config-Agrees udp 6 c) (from_file (some c)) env.serial_port env.udp_bind
      env.udp_remote found (from_file-Agrees c) h

of_boot :
    (read : Option HardwareConfig) (b : BootConfig)
    → (do config ← read; some (of_file config)) ≡ some b
    → (c : HardwareConfig) × (of_file c ≡ b)
of_boot none b h = absurd (none-ne-some b h)
of_boot (some c) b h = (c, some-injective (of_file c) b h)

-- A system that is started from a file drives its fieldbus, wherever that is set, with the joints, the
-- ranges of the joints, the rate and the profile that the real-time loop and the banner have.
pub resolve_fieldbus-boot_config :
    (read : List ℕ → Option HardwareConfig) (path : List ℕ) (b : BootConfig)
    → boot_config read (some path) ≡ some b
    → (env : Environment) (found : FieldbusConfig × RobotBrand)
    → resolve_fieldbus env b.config ≡ some (some found)
    → Agrees b found
unfolding boot_config
resolve_fieldbus-boot_config read path b h env found resolved =
    let started = of_boot (read path) b h in
    subst (λ b. resolve_fieldbus env b.config ≡ some (some found) → Agrees b found) started.1
      (resolve_fieldbus-Agrees env started.0 found) resolved
