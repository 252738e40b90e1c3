-- ===== src/Float.antt =====
-- The `f32` and `f64` of the language as IEEE 754 bit patterns: classes, order and `clamp`
-- (`Format`), rounded arithmetic and conversions (`Arith`), bytes (`Bytes`), and their laws.
pub mod Format
mod Arith
mod Order
mod Closure
mod Bytes
unfoldable pub use Format.*
unfoldable pub use Arith.*
unfoldable pub use Bytes.*
pub use Order.*
pub use Closure.*
