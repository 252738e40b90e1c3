-- ===== src/Adapters.antt =====
-- src/io_bridge/adapters/mod.rs: the codec of a brand, as a record of operations on the adapter's own
-- state. A decode or an encode that is `none` panics; a decode that returns `none` inside waits for
-- more bytes. The labels are left out.
pub mod Binary
pub mod Packet
pub mod Comau
pub mod Kuka
pub mod Script
pub mod Slice
pub mod Amr
pub mod Select
pub mod Encode
use sonny.Prelude.{ℕ, List, Option}
use sonny.Float.{F32}
use sonny.Vectors.{CommandVector}

pub data FrameStrategy : Type 0 where
  fixed : (bytes_per_joint : ℕ) → FrameStrategy
  length_prefixed : (header_bytes : ℕ) → FrameStrategy
  delimited : (terminator : List ℕ) → FrameStrategy
  register_framed : (header : ℕ) → FrameStrategy

-- What is decoded: the bytes consumed, the values and how many of them are active.
abbrev pub Decoded : Type 0
Decoded = ℕ × List F32 × ℕ

-- What an encoder leaves: the buffer, and the number of bytes written.
abbrev pub Encoded : Type 0
Encoded = Option (List ℕ × ℕ)

pub record BrandAdapter : Type 1 where
  pub State : Type 0
  pub frame_strategy : FrameStrategy
  pub decode_telemetry : State → List ℕ → ℕ → Option (State × Option Decoded)
  pub encode_command : CommandVector → List ℕ → Encoded
  pub encode_estop : ℕ → List ℕ → Encoded
  pub poll_request : State → List ℕ → Option (State × List ℕ × ℕ)
  pub poll_period_ms : ℕ
