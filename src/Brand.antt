-- ===== src/Brand.antt =====
-- src/io_bridge/robot_brand.rs: the brand profiles and their detection. A string is the list of its
-- bytes; the literals are written as ASCII codes.
pub mod Detect
mod Tests
use sonny.Prelude.{
  ℕ, ◌+◌, Bool, true, false, ◌&&◌, ◌||◌, List, [], ◌∷◌, map, if◌then◌else◌, leb, ◌==◌,
}

pub data RobotBrand : Type 0 where
  generic : RobotBrand
  kuka : RobotBrand
  comau : RobotBrand
  universal_robots : RobotBrand
  franka_emika : RobotBrand
  luwu_dynamics : RobotBrand
  amr : RobotBrand

-- One byte of `to_ascii_lowercase`.
unfoldable pub lower : ℕ → ℕ
lower c = if leb 65 c && leb c 90 then c + 32 else c

abbrev pub to_ascii_lowercase : List ℕ → List ℕ
to_ascii_lowercase s = map lower s

abbrev pub starts_with : List ℕ → List ℕ → Bool
starts_with s [] = true
starts_with [] (c ∷ cs) = false
starts_with (d ∷ s) (c ∷ cs) = (d == c) && starts_with s cs

-- `s.contains(needle)`
abbrev pub contains : List ℕ → List ℕ → Bool
contains [] needle = starts_with [] needle
contains (d ∷ s) needle = starts_with (d ∷ s) needle || contains s needle

-- "kuka"
abbrev pub word_kuka : List ℕ
word_kuka = 107 ∷ 117 ∷ 107 ∷ 97 ∷ []

-- "comau"
abbrev pub word_comau : List ℕ
word_comau = 99 ∷ 111 ∷ 109 ∷ 97 ∷ 117 ∷ []

-- "franka"
abbrev pub word_franka : List ℕ
word_franka = 102 ∷ 114 ∷ 97 ∷ 110 ∷ 107 ∷ 97 ∷ []

-- "emika"
abbrev pub word_emika : List ℕ
word_emika = 101 ∷ 109 ∷ 105 ∷ 107 ∷ 97 ∷ []

-- "panda"
abbrev pub word_panda : List ℕ
word_panda = 112 ∷ 97 ∷ 110 ∷ 100 ∷ 97 ∷ []

-- "luwu"
abbrev pub word_luwu : List ℕ
word_luwu = 108 ∷ 117 ∷ 119 ∷ 117 ∷ []

-- "xgo"
abbrev pub word_xgo : List ℕ
word_xgo = 120 ∷ 103 ∷ 111 ∷ []

-- "universal"
abbrev pub word_universal : List ℕ
word_universal = 117 ∷ 110 ∷ 105 ∷ 118 ∷ 101 ∷ 114 ∷ 115 ∷ 97 ∷ 108 ∷ []

-- "ur"
abbrev pub word_ur : List ℕ
word_ur = 117 ∷ 114 ∷ []

-- "amr"
abbrev pub word_amr : List ℕ
word_amr = 97 ∷ 109 ∷ 114 ∷ []

-- "agv"
abbrev pub word_agv : List ℕ
word_agv = 97 ∷ 103 ∷ 118 ∷ []

-- "mobile"
abbrev pub word_mobile : List ℕ
word_mobile = 109 ∷ 111 ∷ 98 ∷ 105 ∷ 108 ∷ 101 ∷ []

-- The chain of tests, on a string in lower case.
unfoldable pub detect : List ℕ → RobotBrand
detect s =
    if contains s word_kuka
    then kuka
    else if contains s word_comau
    then comau
    else if contains s word_franka || (contains s word_emika || contains s word_panda)
    then franka_emika
    else if contains s word_luwu || contains s word_xgo
    then luwu_dynamics
    else if contains s word_universal || contains s word_ur
    then universal_robots
    else if contains s word_amr || (contains s word_agv || contains s word_mobile)
    then amr
    else generic

unfoldable pub from_manufacturer : List ℕ → RobotBrand
unfolding detect lower
from_manufacturer manufacturer = detect (to_ascii_lowercase manufacturer)

-- Readable labels. In order: GENERIC, KUKA, COMAU, UNIVERSAL-ROBOTS, FRANKA-EMIKA, LUWU-DYNAMICS, AMR.
abbrev pub label : RobotBrand → List ℕ
label generic = 71 ∷ 69 ∷ 78 ∷ 69 ∷ 82 ∷ 73 ∷ 67 ∷ []
label kuka = 75 ∷ 85 ∷ 75 ∷ 65 ∷ []
label comau = 67 ∷ 79 ∷ 77 ∷ 65 ∷ 85 ∷ []
label universal_robots =
    85 ∷ 78 ∷ 73 ∷ 86 ∷ 69 ∷ 82 ∷ 83 ∷ 65 ∷ 76 ∷ 45 ∷ 82 ∷ 79 ∷ 66 ∷ 79 ∷ 84 ∷ 83 ∷ []
label franka_emika = 70 ∷ 82 ∷ 65 ∷ 78 ∷ 75 ∷ 65 ∷ 45 ∷ 69 ∷ 77 ∷ 73 ∷ 75 ∷ 65 ∷ []
label luwu_dynamics = 76 ∷ 85 ∷ 87 ∷ 85 ∷ 45 ∷ 68 ∷ 89 ∷ 78 ∷ 65 ∷ 77 ∷ 73 ∷ 67 ∷ 83 ∷ []
label amr = 65 ∷ 77 ∷ 82 ∷ []

-- The protocols of the codecs. In order: Fixed-f32-LE, Ethernet-KRL-XML, PDL2-Socket, UR-RTClient/URScript, FCI-UDP, XGO-Register-UART, ROS2-Twist/Odom.
abbrev pub native_protocol : RobotBrand → List ℕ
native_protocol generic = 70 ∷ 105 ∷ 120 ∷ 101 ∷ 100 ∷ 45 ∷ 102 ∷ 51 ∷ 50 ∷ 45 ∷ 76 ∷ 69 ∷ []
native_protocol kuka =
    69 ∷ 116 ∷ 104 ∷ 101 ∷ 114 ∷ 110 ∷ 101 ∷ 116 ∷ 45 ∷ 75 ∷ 82 ∷ 76 ∷ 45 ∷ 88 ∷ 77 ∷ 76 ∷ []
native_protocol comau = 80 ∷ 68 ∷ 76 ∷ 50 ∷ 45 ∷ 83 ∷ 111 ∷ 99 ∷ 107 ∷ 101 ∷ 116 ∷ []
native_protocol universal_robots =
    85 ∷ 82 ∷ 45 ∷ 82 ∷ 84 ∷ 67 ∷ 108 ∷ 105 ∷ 101 ∷ 110 ∷ 116 ∷ 47 ∷ 85 ∷ 82 ∷ 83 ∷ 99 ∷ 114 ∷ 105
    ∷ 112 ∷ 116 ∷ []
native_protocol franka_emika = 70 ∷ 67 ∷ 73 ∷ 45 ∷ 85 ∷ 68 ∷ 80 ∷ []
native_protocol luwu_dynamics =
    88 ∷ 71 ∷ 79 ∷ 45 ∷ 82 ∷ 101 ∷ 103 ∷ 105 ∷ 115 ∷ 116 ∷ 101 ∷ 114 ∷ 45 ∷ 85 ∷ 65 ∷ 82 ∷ 84 ∷ []
native_protocol amr =
    82 ∷ 79 ∷ 83 ∷ 50 ∷ 45 ∷ 84 ∷ 119 ∷ 105 ∷ 115 ∷ 116 ∷ 47 ∷ 79 ∷ 100 ∷ 111 ∷ 109 ∷ []

-- The suggested transports. In order: Serial, Tcp, Tcp, Tcp, Udp, Serial, Serial.
abbrev pub default_transport : RobotBrand → List ℕ
default_transport generic = 83 ∷ 101 ∷ 114 ∷ 105 ∷ 97 ∷ 108 ∷ []
default_transport kuka = 84 ∷ 99 ∷ 112 ∷ []
default_transport comau = 84 ∷ 99 ∷ 112 ∷ []
default_transport universal_robots = 84 ∷ 99 ∷ 112 ∷ []
default_transport franka_emika = 85 ∷ 100 ∷ 112 ∷ []
default_transport luwu_dynamics = 83 ∷ 101 ∷ 114 ∷ 105 ∷ 97 ∷ 108 ∷ []
default_transport amr = 83 ∷ 101 ∷ 114 ∷ 105 ∷ 97 ∷ 108 ∷ []

unfoldable pub native_dof : RobotBrand → ℕ
native_dof generic = 6
native_dof kuka = 6
native_dof comau = 6
native_dof universal_robots = 6
native_dof franka_emika = 7
native_dof luwu_dynamics = 12
native_dof amr = 4
