-- ===== src/Boot/Sources.antt =====
-- What a fieldbus from each source has.
use mathlib.Core.Option.{none-ne-some}
use sonny.Prelude.{ℕ, ◌≡◌, ◌≢◌, ◌↔◌, refl, sym, List, Option, none, some, ◌>>=◌}
use sonny.Fieldbus.{serial, udp}
use sonny.HalLoader.{HardwareConfig}
use sonny.Boot.{
  Environment, from_file, from_environment, environment_config, dof_from_environment,
  resolve_fieldbus,
}

-- The choice between the sources.
module _ {ℓ} {A : Type ℓ} (x y : A) where
  abbrev pub choose : Option A → (port bind remote : Option (List ℕ)) → Option (Option A)
  choose file port bind remote = elim file [
    | some found ↦ some (some found)
    | none ↦ elim port [
      | some _ ↦ some (some x)
      | none ↦ elim bind [ none ↦ some none | some _ ↦ (do remote ← remote; some (some y)) ]
    ]
  ]

  abbrev Fails : Option A → (port bind remote : Option (List ℕ)) → Type ℓ
  Fails file port bind remote =
      (file ≡ none) × (port ≡ none) × ((b : List ℕ) × (bind ≡ some b)) × (remote ≡ none)

  some_ne_none {κ} : {B : Type κ} (b : B) → some b ≢ none
  some_ne_none b h = none-ne-some b (sym h)

  choose-none_iff :
      (file : Option A) (port bind remote : Option (List ℕ))
      → (choose file port bind remote ≡ none) ↔ Fails file port bind remote
  choose-none_iff (some found) port bind remote =
      ((λ h. absurd (some_ne_none _ h)), (λ h. absurd (some_ne_none _ h.0)))
  choose-none_iff none (some port) bind remote =
      ((λ h. absurd (some_ne_none _ h)), (λ h. absurd (some_ne_none _ h.1)))
  choose-none_iff none none none remote =
      ((λ h. absurd (some_ne_none _ h)), (λ h. absurd (none-ne-some _ h.2.1)))
  choose-none_iff none none (some bind) none =
      ((λ h. (refl, refl, (bind, refl), refl)), (λ h. refl))
  choose-none_iff none none (some bind) (some remote) =
      ((λ h. absurd (some_ne_none _ h)), (λ h. absurd (some_ne_none _ h.3)))

-- The start panics exactly if the file gives no fieldbus, no serial port is set, and UDP has an address
-- to bind and no remote one.
pub resolve_fieldbus-none_iff :
    (env : Environment) (config : Option HardwareConfig)
    → (resolve_fieldbus env config ≡ none) ↔ (
        (from_file config ≡ none)
        × (env.serial_port ≡ none)
        × ((bind : List ℕ) × (env.udp_bind ≡ some bind))
        × (env.udp_remote ≡ none))
unfolding resolve_fieldbus from_environment
resolve_fieldbus-none_iff env config =
    choose-none_iff (environment_config serial (dof_from_environment env) config)
      (environment_config udp 6 config) (from_file config) env.serial_port env.udp_bind
      env.udp_remote
