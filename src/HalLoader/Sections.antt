-- ===== src/HalLoader/Sections.antt =====
-- What the fieldbus section of a configuration becomes.
use mathlib.Core.Bool.{false≢true}
use mathlib.Core.Path.{ap₂}
use mathlib.Core.Sum.{inr-ne-inl}
use sonny.Prelude.{
  ℕ, ◌≤◌, ◌≡◌, refl, ◌∙◌, sym, true, false, Bool, ◌||◌, ◌&&◌, List, [], ◌∷◌, map, All, Option, none,
  some, ◌⊎◌, inl, inr, leb, ◌==◌, arith, Bool-cases, Option-cases, value_or,
}
use sonny.Float.{F32, f32, mul}
use sonny.Text.{codes}
use sonny.Brand.{RobotBrand, from_manufacturer, to_ascii_lowercase}
use sonny.Fieldbus.{FieldbusConfig, Transport, serial, udp, tcp}
use sonny.HalLoader.{
  JointConfig, HardwareConfig, ConfigError, FieldbusJsonConfig, missing_port, missing_baud_rate,
  missing_bind_addr, missing_remote_addr, unsupported, same_bytes, is_blank, resolved_brand,
  transport_of, to_fieldbus_config, max_accel, max_jerk, joint_limits,
}

abbrev pub IsPresent : {A : Type 0} → Option A → Type 0
IsPresent {A} field = (a : A) × (field ≡ some a)

-- The names of a transport.
abbrev pub Names : Transport → List ℕ → Type 0
Names serial name = (name ≡ codes "serial") ⊎ (name ≡ codes "rs232") ⊎ (name ≡ codes "rs485")
Names udp name = (name ≡ codes "udp") ⊎ (name ≡ codes "ethernet")
Names tcp name = name ≡ codes "tcp"

-- A section names a transport, in small or capital letters, and has the fields that it needs.
abbrev pub IsGiven : FieldbusJsonConfig → Transport → Type 0
IsGiven fb serial =
    Names serial (to_ascii_lowercase fb.protocol) × IsPresent fb.port × IsPresent fb.baud_rate
IsGiven fb udp =
    Names udp (to_ascii_lowercase fb.protocol) × IsPresent fb.bind_addr × IsPresent fb.remote_addr
IsGiven fb tcp = Names tcp (to_ascii_lowercase fb.protocol) × IsPresent fb.remote_addr

same_bytes-eq : (s t : List ℕ) → same_bytes s t ≡ true → s ≡ t
same_bytes-eq [] [] h = refl
same_bytes-eq [] (d ∷ t) h = absurd (false≢true h)
same_bytes-eq (c ∷ s) [] h = absurd (false≢true h)
same_bytes-eq (c ∷ s) (d ∷ t) h = elim (Bool-cases (c == d)) [
  | inl e ↦ ap₂ ◌∷◌ (ground (arith, e)) (same_bytes-eq s t (rw e at h))
  | inr e ↦ absurd (false≢true (rw e at h))
]

abbrev Outcome : FieldbusJsonConfig → Type 0
Outcome fb =
    ((e : ConfigError) × (transport_of fb ≡ inl e))
    ⊎ ((t : Transport) × IsGiven fb t × (transport_of fb ≡ inr t))

module _ (fb : FieldbusJsonConfig) where
  abbrev name : List ℕ
  name = to_ascii_lowercase fb.protocol

  abbrev is_serial : Bool
  is_serial =
      same_bytes name (codes "serial")
      || (same_bytes name (codes "rs232") || same_bytes name (codes "rs485"))

  abbrev is_udp : Bool
  is_udp = same_bytes name (codes "udp") || same_bytes name (codes "ethernet")

  named_serial : is_serial ≡ true → Names serial name
  named_serial h = elim (Bool-cases (same_bytes name (codes "serial"))) [
    | inl a ↦ inl (same_bytes-eq name (codes "serial") a)
    | inr a ↦ elim (Bool-cases (same_bytes name (codes "rs232"))) [
      | inl b ↦ inr (inl (same_bytes-eq name (codes "rs232") b))
      | inr b ↦ inr (inr (same_bytes-eq name (codes "rs485") (rw (a, b) at h)))
    ]
  ]

  named_udp : is_udp ≡ true → Names udp name
  named_udp h = elim (Bool-cases (same_bytes name (codes "udp"))) [
    | inl a ↦ inl (same_bytes-eq name (codes "udp") a)
    | inr a ↦ inr (same_bytes-eq name (codes "ethernet") (rw a at h))
  ]

  of_serial : is_serial ≡ true → Outcome fb
  unfolding transport_of
  of_serial h = elim (Option-cases fb.port) [
    | inl p ↦ inl (missing_port, rw (h, p) refl)
    | inr (port, p) ↦ elim (Option-cases fb.baud_rate) [
      | inl b ↦ inl (missing_baud_rate, rw (h, p, b) refl)
      | inr (baud_rate, b) ↦
          inr (serial, (named_serial h, (port, p), (baud_rate, b)), rw (h, p, b) refl)
    ]
  ]

  of_udp : is_serial ≡ false → is_udp ≡ true → Outcome fb
  unfolding transport_of
  of_udp n h = elim (Option-cases fb.bind_addr) [
    | inl p ↦ inl (missing_bind_addr, rw (n, h, p) refl)
    | inr (bind_addr, p) ↦ elim (Option-cases fb.remote_addr) [
      | inl r ↦ inl (missing_remote_addr, rw (n, h, p, r) refl)
      | inr (remote_addr, r) ↦
          inr (udp, (named_udp h, (bind_addr, p), (remote_addr, r)), rw (n, h, p, r) refl)
    ]
  ]

  of_rest : is_serial ≡ false → is_udp ≡ false → Outcome fb
  unfolding transport_of
  of_rest n m = elim (Bool-cases (same_bytes name (codes "tcp"))) [
    | inl h ↦ elim (Option-cases fb.remote_addr) [
      | inl r ↦ inl (missing_remote_addr, rw (n, m, h, r) refl)
      | inr (remote_addr, r) ↦
          inr (tcp, (same_bytes-eq name (codes "tcp") h, (remote_addr, r)), rw (n, m, h, r) refl)
    ]
    | inr h ↦ inl (unsupported name, rw (n, m, h) refl)
  ]

  transport_of-Outcome : Outcome fb
  transport_of-Outcome = elim (Bool-cases is_serial) [
    | inl h ↦ of_serial h
    | inr n ↦ elim (Bool-cases is_udp) [ inl h ↦ of_udp n h | inr m ↦ of_rest n m ]
  ]

  given : (t : Transport) → IsGiven fb t → transport_of fb ≡ inr t
  unfolding transport_of
  given serial (inl e, (_, p), (_, b)) = rw (e, p, b) refl
  given serial (inr (inl e), (_, p), (_, b)) = rw (e, p, b) refl
  given serial (inr (inr e), (_, p), (_, b)) = rw (e, p, b) refl
  given udp (inl e, (_, p), (_, b)) = rw (e, p, b) refl
  given udp (inr e, (_, p), (_, b)) = rw (e, p, b) refl
  given tcp (e, (_, p)) = rw (e, p) refl

-- White space of ASCII.
abbrev pub IsSpace : ℕ → Type 0
IsSpace c = ((9 ≤ c) × (c ≤ 13)) ⊎ (c ≡ 32)

is_blank-IsSpace : (s : List ℕ) → is_blank s ≡ true → All IsSpace s
unfolding is_blank
is_blank-IsSpace [] h = tt
is_blank-IsSpace (c ∷ s) h = elim (Bool-cases ((leb 9 c && leb c 13) || (c == 32))) [
  | inl e ↦ (space e, is_blank-IsSpace s (rw e at h))
  | inr e ↦ absurd (false≢true (rw e at h))
]
  where
    space : ((leb 9 c && leb c 13) || (c == 32)) ≡ true → IsSpace c
    space e = elim (Bool-cases (c == 32)) [
      | inl same ↦ inr (ground (arith, same))
      | inr other ↦ inl (ground (arith, e, other), ground (arith, e, other))
    ]

IsSpace-is_blank : (s : List ℕ) → All IsSpace s → is_blank s ≡ true
unfolding is_blank
IsSpace-is_blank [] h = refl
IsSpace-is_blank (c ∷ s) (inl (lo, hi), h) = rw (IsSpace-is_blank s h) (ground (arith, lo, hi))
IsSpace-is_blank (c ∷ s) (inr e, h) = rw (e, IsSpace-is_blank s h) refl

-- The brand is that of the section of its own, if there is one that is not blank, or else that of the
-- manufacturer.
pub record IsResolved (h : HardwareConfig) (brand : RobotBrand) : Type 0 where
  pub unset : h.brand ≡ none → brand ≡ from_manufacturer h.manufacturer
  pub blank :
      (b : List ℕ) → h.brand ≡ some b → All IsSpace b → brand ≡ from_manufacturer h.manufacturer
  pub named : (b : List ℕ) → h.brand ≡ some b → (All IsSpace b → ⊥) → brand ≡ from_manufacturer b

resolved_brand-IsResolved : (h : HardwareConfig) → IsResolved h (resolved_brand h)
unfolding resolved_brand
resolved_brand-IsResolved h = record {
  unset = λ e. rw e refl;
  blank = λ b e space. rw (e, IsSpace-is_blank b space) refl;
  named = λ b e other. elim (Bool-cases (is_blank b)) [
    | inl white ↦ absurd (other (is_blank-IsSpace b white))
    | inr word ↦ rw (e, word) refl
  ];
}

-- Ten times the speed and ten times the acceleration, if there are no others.
abbrev pub accel_of : JointConfig → F32
accel_of j = value_or (mul f32 j.max_speed_rad_s 0x4120_0000) j.max_accel_rad_s2

abbrev pub jerk_of : JointConfig → F32
jerk_of j = value_or (mul f32 (accel_of j) 0x4120_0000) j.max_jerk_rad_s3

-- What the loops get: the transport, and for each joint its own entry in each list.
pub record IsComplete (h : HardwareConfig) (t : Transport) (c : FieldbusConfig) : Type 0 where
  pub transport : c.transport ≡ t
  pub joint_count : c.joint_count ≡ h.dof
  pub rate : c.expected_hz ≡ h.expected_hz
  pub limits : c.joint_limits_rad ≡ map (λ j. (j.min_angle_rad, j.max_angle_rad)) h.joints
  pub speeds : c.max_speed_rad_s ≡ map (λ j. j.max_speed_rad_s) h.joints
  pub accels : c.max_accel_rad_s2 ≡ map accel_of h.joints
  pub jerks : c.max_jerk_rad_s3 ≡ map jerk_of h.joints

-- A fieldbus section that names a transport, as "serial", "rs232" or "rs485", "udp" or "ethernet", or
-- "tcp" in small or capital letters, and has the port and baud rate, the two addresses or the remote
-- address that it needs, gives a configuration with that transport, the number of joints and the rate
-- of the machine, the limits, speed, acceleration and jerk of each joint in order, where an acceleration
-- or jerk that is missing is ten times the speed or the acceleration, and the brand that is set or else
-- that of the manufacturer; every other section gives an error.
pub to_fieldbus_config-IsComplete :
    (h : HardwareConfig) (fb : FieldbusJsonConfig)
    → h.fieldbus ≡ some fb
    → ((e : ConfigError) × (to_fieldbus_config h ≡ inl e) × ((t : Transport) → IsGiven fb t → ⊥))
      ⊎ ((t : Transport) × (c : FieldbusConfig) × (brand : RobotBrand) × (to_fieldbus_config h
            ≡ inr (some (c, brand)))
          × IsGiven fb t
          × IsComplete h t c
          × IsResolved h brand)
unfolding to_fieldbus_config max_accel max_jerk
to_fieldbus_config-IsComplete h fb e = elim (transport_of-Outcome fb) [
  | inl (x, f) ↦
      inl (x, rw (to_fieldbus_config, e, f) refl, λ t g. inr-ne-inl (sym (given fb t g) ∙ f))
  | inr (t, g, f) ↦ inr (
    t,
    record {
      transport = t;
      joint_count = h.dof;
      joint_limits_rad = map joint_limits h.joints;
      expected_hz = h.expected_hz;
      max_speed_rad_s = map (λ j. j.max_speed_rad_s) h.joints;
      max_accel_rad_s2 = map max_accel h.joints;
      max_jerk_rad_s3 = map max_jerk h.joints;
    },
    resolved_brand h,
    rw (to_fieldbus_config, e, f) refl,
    g,
    record {
      transport = refl;
      joint_count = refl;
      rate = refl;
      limits = refl;
      speeds = refl;
      accels = refl;
      jerks = refl;
    },
    resolved_brand-IsResolved h,
  )
]
