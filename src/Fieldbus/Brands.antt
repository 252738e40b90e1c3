-- ===== src/Fieldbus/Brands.antt =====
-- The loop over the frames with the adapter of each brand.
use sonny.Prelude.{ℕ, suc, ◌+◌, ◌≡◌, ◌≢◌, ◌<◌, ◌≤◌, ◌^◌, refl, List, map, arith, length}
use sonny.Float.{F32}
use sonny.Health.{wrap64}
use sonny.Vectors.Codec.{encode}
use sonny.Vectors.{IsValidState}
use sonny.Brand.{
  RobotBrand, generic, kuka, comau, universal_robots, franka_emika, luwu_dynamics, amr,
}
use sonny.Adapters.Packet.{decode_franka, decode_universal_robots}
use sonny.Adapters.Script.{universal_robots_adapter}
use sonny.Adapters.Select.{franka_fci, adapter_for}
use sonny.Adapters.Kuka.Progress.{kuka_ethernet_krl-IsProductive}
use sonny.Adapters.Comau.Progress.{comau_pdl2-IsProductive}
use sonny.Fieldbus.{telemetry, done, Receiver, drain_frames}
use sonny.Fieldbus.Messages.{Finds, drain_frames-messages}
use sonny.Fieldbus.Drain.{IsProductive}
use sonny.Fieldbus.Progress.{generic_binary-IsProductive, decode_packet-Consumes}

franka_fci-IsProductive : (joint_count : ℕ) → IsProductive franka_fci joint_count (λ _. Unit {0})
unfolding franka_fci decode_franka
franka_fci-IsProductive joint_count s acc h =
    let (decoded, runs, consumes) = decode_packet-Consumes 7 8 acc joint_count in
    ((s, decoded), rw runs refl, (tt, consumes))

universal_robots-IsProductive :
    (joint_count : ℕ) → IsProductive universal_robots_adapter joint_count (λ _. Unit {0})
unfolding universal_robots_adapter decode_universal_robots
universal_robots-IsProductive joint_count s acc h =
    let (decoded, runs, consumes) = decode_packet-Consumes 6 248 acc joint_count in
    ((s, decoded), rw runs refl, (tt, consumes))

pub adapter_for-IsProductive :
    (brand : RobotBrand) (joint_count : ℕ)
    → brand ≢ luwu_dynamics
    → IsProductive (adapter_for brand) joint_count (λ _. Unit {0})
unfolding adapter_for
adapter_for-IsProductive generic joint_count h = generic_binary-IsProductive joint_count
adapter_for-IsProductive kuka joint_count h = kuka_ethernet_krl-IsProductive joint_count
adapter_for-IsProductive comau joint_count h = comau_pdl2-IsProductive joint_count
adapter_for-IsProductive universal_robots joint_count h = universal_robots-IsProductive joint_count
adapter_for-IsProductive franka_emika joint_count h = franka_fci-IsProductive joint_count
adapter_for-IsProductive luwu_dynamics joint_count h = absurd (h refl)
adapter_for-IsProductive amr joint_count h = generic_binary-IsProductive joint_count

-- With the adapter of any brand but Luwu Dynamics, a telemetry buffer of at least 128 bytes, and whatever
-- bytes have arrived, the loop over the frames ends without a panic, in as many rounds as there are bytes
-- and one more, and publishes exactly the messages that the adapter finds in them, in their order, each
-- once and with the bytes of its values, up to 32.
pub adapter_for-messages :
    (brand : RobotBrand) (joint_count now : ℕ) (r : Receiver (adapter_for brand).State)
    → brand ≢ luwu_dynamics
    → r.frames < 2 ^ 64
    → IsValidState r.state
    → 128 ≤ length r.tx_buf
    → (r' : Receiver (adapter_for brand).State) × (messages : List (List F32)) × Finds
        (adapter_for brand)
        joint_count
        r.adapter_state
        r.acc
        messages
        r'.adapter_state
        r'.acc
      × (drain_frames (adapter_for brand) joint_count (suc (length r.acc)) now r
          ≡ done (r', map (λ vs. telemetry (encode vs)) messages))
      × (r'.frames ≡ wrap64 (r.frames + length messages))
adapter_for-messages brand joint_count now r h f v room =
    drain_frames-messages (adapter_for brand) joint_count (λ _. Unit) (suc (length r.acc)) now r
      (adapter_for-IsProductive brand joint_count h) (omega arith) f v room tt
