-- ===== src/Common/Bits.antt =====
-- Laws of C's `^` and `&` on unsigned words, at every width.
mod Pow
mod Digits
mod Xor
mod And
mod Or
pub use Xor.*
pub use Or.*
pub use And.*
